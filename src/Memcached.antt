-- ===== src/Memcached.antt =====
-- packages/memcached/src/index.ts: the provider over a client that is a parameter, with base64. Its
-- tag index is the in-memory one.
pub mod Stored
use safecache.Base.{
  ℕ, ◌+◌, ◌/◌, ltb, max, Bool, true, false, Option, none, some, List, ◌∷◌, [], nat_eq,
  if◌then◌else◌,
}
use safecache.Text.{Text, codes}
use safecache.Result.{Result, ok, throw}
use safecache.Cache.Types.{Error, rejected}
use safecache.Cache.Exec.{Exec, pure, raise, update, lift, attempt, modify, ◌>>=◌, ◌>>◌}

-- A value is a string or bytes.
pub data Value (Bytes : Type 0) : Type 0 where
  string : Text → Value Bytes
  binary : Bytes → Value Bytes

-- `Buffer`'s base64 in both directions, the clock and the calls of the client; `flush` and
-- `version` may be missing.
pub record MemcachedEnv (World Bytes : Type 0) : Type 0 where
  pub to_base64 : Bytes → Text
  pub from_base64 : Text → Bytes
  pub date_now : World → ℕ × World
  pub get : Text → World → Result Error (Option Text) × World
  pub set : Text → Text → ℕ → World → Result Error (Unit {0}) × World
  pub delete : Text → World → Result Error (Unit {0}) × World
  pub flush : Option (World → Result Error (Unit {0}) × World)
  pub version : Option (World → Result Error Text × World)

-- The errors that were reported, the last one first.
pub record MemcachedState (World : Type 0) : Type 0 where
  pub world : World
  pub reported : List Error

abbrev pub relative_ttl_max_seconds : ℕ
relative_ttl_max_seconds = 2592000

-- the codes of `s` and `b`
abbrev pub string_sentinel : ℕ
string_sentinel = 115

abbrev pub binary_sentinel : ℕ
binary_sentinel = 98

-- what the notifier throws is dropped
unfoldable pub report_error : {World : Type 0} → Error → Exec (MemcachedState World) (Unit {0})
report_error e = modify (λ s. record s { reported = e ∷ s.reported })

module _ {World Bytes : Type 0} (env : MemcachedEnv World Bytes) where
  unfoldable pub encode_value : Value Bytes → Text
  encode_value (string t) = string_sentinel ∷ t
  encode_value (binary b) = binary_sentinel ∷ env.to_base64 b

  unfoldable pub decode_value : Text → Value Bytes
  decode_value [] = string []
  decode_value (marker ∷ payload) =
      if nat_eq marker binary_sentinel
      then binary (env.from_base64 payload)
      else if nat_eq marker string_sentinel
      then string payload
      else string (marker ∷ payload)

  -- a call of the client
  unfoldable pub call : {A : Type 0} → (World → A × World) → Exec (MemcachedState World) A
  call f = update (λ s. let (a, w) = f s.world in (a, record s { world = w }))

  -- `Math.floor(Date.now() / 1_000)` is read past the bound of relative TTLs only
  unfoldable pub to_memcached_ttl_seconds : ℕ → Exec (MemcachedState World) ℕ
  to_memcached_ttl_seconds ttl_ms =
      let seconds = max 1 ((ttl_ms + 999) / 1000) in
      if ltb relative_ttl_max_seconds seconds
      then (do now ← call env.date_now; pure (now / 1000 + seconds))
      else pure seconds

  unfoldable pub settle_get :
      Result Error (Option Text) → Exec (MemcachedState World) (Option (Value Bytes))
  settle_get (ok none) = pure none
  settle_get (ok (some stored)) = pure (some (decode_value stored))
  settle_get (throw e) = do report_error e; pure none

  unfoldable pub get : Text → Exec (MemcachedState World) (Option (Value Bytes))
  get key = do settled ← call (env.get key); settle_get settled

  -- an error is reported and dropped
  unfoldable pub settle : Result Error (Unit {0}) → Exec (MemcachedState World) (Unit {0})
  settle (ok _) = pure tt
  settle (throw e) = report_error e

  unfoldable pub set : Text → Value Bytes → ℕ → Exec (MemcachedState World) (Unit {0})
  set key value ttl_ms = do
    seconds ← to_memcached_ttl_seconds ttl_ms
    settled ← call (env.set key (encode_value value) seconds)
    settle settled

  unfoldable pub delete : Text → Exec (MemcachedState World) (Unit {0})
  delete key = do settled ← call (env.delete key); settle settled

  unfoldable pub settle_clear :
      Bool → Result Error (Unit {0}) → Exec (MemcachedState World) (Unit {0})
  settle_clear propagate (ok _) = pure tt
  settle_clear propagate (throw e) = if propagate then raise e else report_error e

  unfoldable pub flush_unavailable : Error
  flush_unavailable = rejected (
      codes
        "memcached clear() is unavailable: the client does not implement flush(); stale data cannot be invalidated")

  unfoldable pub clear : Bool → Exec (MemcachedState World) (Unit {0})
  clear propagate = elim env.flush [
    | none ↦ settle_clear propagate (throw flush_unavailable)
    | some flush ↦ do settled ← call flush; settle_clear propagate settled
  ]

  -- the version, where the client tells it
  unfoldable pub health : Exec (MemcachedState World) (Option Text)
  health = elim env.version [
    | none ↦ pure none
    | some version ↦ do settled ← call version; answer ← lift settled; pure (some answer)
  ]
