-- ===== src/Cache/FailOpen/Reading.antt =====
-- Reading the layers of a fail-open cache throws nothing of what the providers do.
use safecache.Base.{ℕ, ◌+◌, ◌≡◌, true, Option, none, some, List, [], ◌∷◌}
use safecache.Text.{Text, text_has_eq}
use safecache.Result.{Result, ok, throw}
use safecache.Cache.Types.{
  Error, CacheEntry, CacheLayer, CacheOptions, CacheState, Env, QueryOptions,
}
use safecache.Cache.Exec.{Exec}
use safecache.Cache.Exec.Rules.{Throws, Throws-lift, Throws-bind}
use safecache.Cache.Calls.{fail_open}
use safecache.Cache.Guarded.{settle_read, safe_provider_read}
use safecache.Cache.FailOpen.{call_rules, rethrow-Safe}
use safecache.Cache.Store.{
  ReadResult, hit, stale, miss, settle_raw, classify_found, or_next, read_from, read_layers,
}

module _ {World Raw V : Type 0} (env : Env World Raw V) (query : QueryOptions World V)
    (options : CacheOptions) (P : Error → Type 0) (opened : fail_open options ≡ true) where
  settle_read-Safe : (r : Result Error (Option Raw)) → Throws P (settle_read env options query r)
  unfolding settle_read
  settle_read-Safe (ok found) = search call_rules
  settle_read-Safe (throw e) = search (call_rules, rethrow-Safe) depth 8

  safe_provider_read-Safe :
      (layer : CacheLayer) (scoped_key : Text)
      → Throws P (safe_provider_read env options layer scoped_key query)
  unfolding safe_provider_read
  safe_provider_read-Safe layer scoped_key =
      search (call_rules, settle_read-Safe, Throws-lift) depth 12

  settle_raw-Safe :
      (index : ℕ) (r : Result Error (CacheEntry V))
      → Throws P (settle_raw env options query index r)
  unfolding settle_raw
  settle_raw-Safe index (ok entry) = search call_rules
  settle_raw-Safe index (throw e) = search (call_rules, rethrow-Safe) depth 8

  classify_found-Safe :
      (index : ℕ) (found : Option Raw) → Throws P (classify_found env options query index found)
  unfolding classify_found
  classify_found-Safe index none = search call_rules
  classify_found-Safe index (some raw) = settle_raw-Safe index (env.deserialize raw)

  or_next-Safe :
      (r : ReadResult V) (next : Exec (CacheState World V) (ReadResult V))
      → Throws P next
      → Throws P (or_next env options r next)
  unfolding or_next
  or_next-Safe (hit entry index) next k = search call_rules
  or_next-Safe (stale entry index) next k = search call_rules
  or_next-Safe miss next k = k

  read_from-Safe :
      (scoped_key : Text) (index : ℕ) (layers : List CacheLayer)
      → Throws P (read_from env options query scoped_key index layers)
  unfolding read_from
  read_from-Safe scoped_key index [] = search call_rules
  read_from-Safe scoped_key index (layer ∷ layers) =
      Throws-bind _ _ (safe_provider_read-Safe layer scoped_key) (λ found.
        Throws-bind _ _ (classify_found-Safe index found)
          (λ read. or_next-Safe read _ (read_from-Safe scoped_key (index + 1) layers)))

  pub read_layers-Safe : (scoped_key : Text) → Throws P (read_layers env options query scoped_key)
  unfolding read_layers
  read_layers-Safe scoped_key = search (call_rules, read_from-Safe) depth 8
