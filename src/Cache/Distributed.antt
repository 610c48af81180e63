-- ===== src/Cache/Distributed.antt =====
-- The distributed side of packages/core/src/cache.ts: signing, publishing and receiving events.
-- `hmac secret entries` stands for the HMAC of the JSON text of the entries.
pub mod Seen
use safecache.Base.{
  ℕ, suc, ◌+◌, Bool, true, false, not, ◌&&◌, ◌||◌, Option, none, some, List, [], ◌∷◌, ◌++◌, ltb,
  nat_eq, if◌then◌else◌, length, ◌==◌,
}
use safecache.Text.{Text, text_eq, text_has_eq, codes}
use safecache.Result.{Result, ok, throw}
use safecache.JsSet
use safecache.Cache.Types.{
  Error, unequal_buffers, malformed_signature, invalid_signature, CacheEvent, EventType,
  invalidate_key, invalidate_tag, refresh_key, CacheOptions, CacheState, Env, on_publish,
  on_signature,
}
use safecache.Cache.Exec.{Exec, pure, raise, lift, gets, update, attempt, modify, ◌>>=◌, ◌>>◌}
use safecache.Cache.Calls.{record_error, await, clock_now}

abbrev pub type_text : EventType → Text
type_text invalidate_key = codes "invalidate:key"
type_text invalidate_tag = codes "invalidate:tag"
type_text refresh_key = codes "refresh:key"

-- an entry of the canonical list, left out when the value is undefined
abbrev pub optional : Text → Option Text → List (Text × Text) → List (Text × Text)
optional name none entries = entries
optional name (some v) entries = (name, v) ∷ entries

-- A secret that counts as absent: the empty text.
abbrev pub set_secret : Option Text → Option Text
set_secret none = none
set_secret (some []) = none
set_secret (some (c ∷ s)) = some (c ∷ s)

abbrev pub max_seen_events : ℕ
max_seen_events = 1000

-- `if (first) …`: the oldest id is dropped unless it is the empty text
unfoldable pub drop_first : List Text → List Text
drop_first [] = []
drop_first ([] ∷ ids) = [] ∷ ids
drop_first ((c ∷ id) ∷ ids) = ids

unfoldable pub remember : List Text → Text → List Text
unfolding drop_first
remember seen id =
    let ids = JsSet.add seen id in if ltb max_seen_events (length ids) then drop_first ids else ids

-- the order of `sort`, by UTF-16 code units
unfoldable pub comes_before : Text → Text → Bool
comes_before [] [] = false
comes_before [] (d ∷ t) = true
comes_before (c ∷ s) [] = false
comes_before (c ∷ s) (d ∷ t) = ltb c d || (nat_eq c d && comes_before s t)

unfoldable pub insert_entry : Text × Text → List (Text × Text) → List (Text × Text)
insert_entry entry [] = entry ∷ []
insert_entry entry (other ∷ entries) =
    if comes_before other.0 entry.0
    then other ∷ insert_entry entry entries
    else entry ∷ other ∷ entries

-- more entries, put in order among sorted ones
unfoldable pub sort_entries : List (Text × Text) → List (Text × Text) → List (Text × Text)
sort_entries [] sorted = sorted
sort_entries (entry ∷ entries) sorted = insert_entry entry (sort_entries entries sorted)

module _ {World Raw V : Type 0} (env : Env World Raw V) (options : CacheOptions) where
  -- the declared fields but the signature, in the order of their names
  unfoldable pub declared_fields : CacheEvent → List (Text × Text)
  declared_fields event = optional (codes "actor") event.actor (
      (codes "id", event.id)
      ∷ optional (codes "key") event.key (
          (codes "namespace", event.namespace)
          ∷ optional (codes "reason") event.reason (
              optional (codes "region") event.region (
                (codes "source", event.source)
                ∷ optional (codes "tag") event.tag (
                    optional (codes "tenant") event.tenant (
                      (codes "timestamp", env.number_text event.timestamp)
                      ∷ (codes "type", type_text event.kind)
                      ∷ []))))))

  -- every own key but the signature
  unfoldable pub canonicalize_event : CacheEvent → List (Text × Text)
  canonicalize_event event = sort_entries event.others (declared_fields event)

  unfoldable pub sign_event : CacheEvent → Text → Text
  sign_event event secret = env.hmac secret (canonicalize_event event)

  -- `timingSafeEqual`: it throws on buffers of different lengths
  unfoldable pub timing_safe_equal : List ℕ → List ℕ → Exec (CacheState World V) Bool
  timing_safe_equal provided expected =
      if nat_eq (length provided) (length expected)
      then pure (text_eq provided expected)
      else raise unequal_buffers

  unfoldable pub settle_matches : Bool → Exec (CacheState World V) Bool
  settle_matches true = pure true
  settle_matches false = do record_error on_signature invalid_signature none none; pure false

  unfoldable pub malformed : Exec (CacheState World V) Bool
  malformed = do record_error on_signature malformed_signature none none; pure false

  unfoldable pub check_signature : Text → Option Text → Exec (CacheState World V) Bool
  check_signature expected none = malformed
  check_signature expected (some provided) =
      if nat_eq (length provided) (length expected)
      then (do
        matches ← timing_safe_equal (env.bytes provided) (env.bytes expected)
        settle_matches matches)
      else malformed

  unfoldable pub verify_with : Option Text → CacheEvent → Exec (CacheState World V) Bool
  verify_with none event = pure true
  verify_with (some secret) event = check_signature (sign_event event secret) event.signature

  unfoldable pub verify_incoming_event : CacheEvent → Exec (CacheState World V) Bool
  verify_incoming_event event = verify_with (set_secret options.signing_secret) event

  unfoldable pub has_seen_event : Text → Exec (CacheState World V) Bool
  has_seen_event id = do
    seen ← gets (λ s. JsSet.has s.seen_event_ids id)
    if seen
        then pure true
        else do modify (λ s. record s { seen_event_ids = remember s.seen_event_ids id }); pure false

  unfoldable pub sign_with : Option Text → CacheEvent → CacheEvent
  sign_with none event = event
  sign_with (some secret) event = record event { signature = some (sign_event event secret) }

  unfoldable pub signed : CacheEvent → CacheEvent
  signed event = sign_with (set_secret options.signing_secret) event

  -- the next event of this cache: `${source}:${now}:${counter++}`
  unfoldable pub make_event :
      EventType → Option Text → Option Text → Option Text → Exec (CacheState World V) CacheEvent
  make_event kind key tag tenant = do
    stamp ← clock_now env
    count ← update (λ s. (s.event_counter, record s { event_counter = s.event_counter + 1 }))
    now ← clock_now env
    pure (record {
      id =
          options.source
          ++ (codes ":" ++ (env.number_text stamp ++ (codes ":" ++ env.number_text count)));
      kind = kind;
      source = options.source;
      timestamp = now;
      namespace = options.namespace;
      tenant = tenant;
      key = key;
      tag = tag;
      others = [];
      actor = none;
      reason = none;
      region = none;
      signature = none;
    })

  unfoldable pub settle_publish : Result Error (Unit {0}) → Exec (CacheState World V) (Unit {0})
  settle_publish (ok _) = pure tt
  settle_publish (throw e) = record_error on_publish e none none

  unfoldable pub publish_distributed_event :
      EventType → Option Text → Option Text → Option Text → Exec (CacheState World V) (Unit {0})
  publish_distributed_event kind key tag tenant =
      if options.has_events
      then (do
        event ← make_event kind key tag tenant
        published ← attempt (await env (env.publish (signed event)))
        settle_publish published)
      else pure tt
