-- ===== src/ChangeStreams/Resumable.antt =====
-- Which errors of a stream mean that its resume token is dead: isNonResumableChangeStreamError of
-- packages/mongodb-streams/src/index.ts.
use safecache.Base.{
  ℕ, ◌+◌, Bool, true, false, ◌&&◌, ◌||◌, Option, none, some, List, [], ◌∷◌, leb, nat_eq, nat_has_eq,
  if◌then◌else◌,
}
use safecache.Text.{Text, codes, text_has_eq}
use safecache.JsSet

-- What a stream reports: a record with the fields codeName, code, errorLabels, name and message,
-- or something else. A field of another type is missing, and so are labels that are no array.
pub data StreamError : Type 0 where
  bare : StreamError
  fields : Option Text → Option ℕ → List Text → Option Text → Option Text → StreamError

abbrev pub non_resumable_error_names : List Text
non_resumable_error_names =
    codes "ChangeStreamHistoryLost"
    ∷ codes "ChangeStreamFatalError"
    ∷ codes "CappedPositionLost"
    ∷ codes "Invalidate"
    ∷ codes "invalidate"
    ∷ []

abbrev pub non_resumable_error_codes : List ℕ
non_resumable_error_codes = 286 ∷ 280 ∷ 136 ∷ []

-- `\s`
unfoldable pub is_space : ℕ → Bool
is_space c =
    (leb 9 c && leb c 13)
    || nat_eq c 32
    || nat_eq c 160
    || nat_eq c 5760
    || (leb 8192 c && leb c 8202)
    || nat_eq c 8232
    || nat_eq c 8233
    || nat_eq c 8239
    || nat_eq c 8287
    || nat_eq c 12288
    || nat_eq c 65279

-- the flag `i`, for letters below 128
abbrev pub lower : ℕ → ℕ
lower c = if leb 65 c && leb c 90 then c + 32 else c

-- a word as a prefix, in either case, and what is left
unfoldable pub drop_word : Text → Text → Option Text
drop_word [] t = some t
drop_word (c ∷ word) [] = none
drop_word (c ∷ word) (d ∷ t) =
    let rest = drop_word word t in if nat_eq c (lower d) then rest else none

unfoldable pub skip_spaces : Text → Text
skip_spaces [] = []
skip_spaces (c ∷ t) = let rest = skip_spaces t in if is_space c then rest else c ∷ t

-- the words at the start, with any spaces in between
unfoldable pub starts_with_words : List Text → Text → Bool
starts_with_words [] t = true
starts_with_words (word ∷ words) t = elim (drop_word word t) [
  | none ↦ false
  | some rest ↦ starts_with_words words (skip_spaces rest)
]

unfoldable pub contains_words : List Text → Text → Bool
contains_words words [] = starts_with_words words []
contains_words words (c ∷ t) = starts_with_words words (c ∷ t) || contains_words words t

-- `/change\s*stream\s*history\s*lost|invalidate|capped\s*position\s*lost/i`
unfoldable pub is_dead_message : Text → Bool
is_dead_message message =
    contains_words (codes "change" ∷ codes "stream" ∷ codes "history" ∷ codes "lost" ∷ []) message
    || contains_words (codes "invalidate" ∷ []) message
    || contains_words (codes "capped" ∷ codes "position" ∷ codes "lost" ∷ []) message

abbrev pub named : Option Text → Bool
named none = false
named (some name) = JsSet.has non_resumable_error_names name

abbrev pub coded : Option ℕ → Bool
coded none = false
coded (some code) = JsSet.has non_resumable_error_codes code

abbrev pub message_or_empty : Option Text → Text
message_or_empty none = []
message_or_empty (some message) = message

unfoldable pub is_non_resumable_change_stream_error : StreamError → Bool
is_non_resumable_change_stream_error bare = false
is_non_resumable_change_stream_error (fields code_name code error_labels name message) =
    named code_name
    || coded code
    || JsSet.has error_labels (codes "NonResumableChangeStreamError")
    || named name
    || is_dead_message (message_or_empty message)
