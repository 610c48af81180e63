-- ===== src/Cache/FailOpen/Writing.antt =====
-- Writing an entry to the layers of a fail-open cache throws nothing.
use safecache.Base.{ℕ, ◌≡◌, Bool, true, false, not, Option, none, some, List, [], ◌∷◌, nat_eq}
use safecache.Text.{Text, text_has_eq}
use safecache.Result.{Result, ok, throw}
use safecache.Cache.Types.{
  Error, CacheEntry, CacheVersion, CacheLayer, CacheOptions, CacheState, Env, Operation,
}
use safecache.Cache.Exec.{pure}
use safecache.Cache.Exec.Rules.{Throws, Throws-bind, Throws-if, throws_rules}
use safecache.Cache.Calls.{fail_open}
use safecache.Cache.Guarded.{
  settle_write, guarded_write, safe_provider_write, settle_delete, delete_layer, delete_from,
  delete_scoped_key, safe_tag_index_operation, done_or_recorded,
}
use safecache.Cache.FailOpen.{call_rules, rethrow-Safe}
use safecache.Cache.Store.{
  epoch_of, version_held, precedes, compare_held, is_stale_version, write_layer, write_layers,
  compensate, write_serialized, write_entry,
}

module _ {World Raw V : Type 0} (env : Env World Raw V) (options : CacheOptions)
    (P : Error → Type 0) (opened : fail_open options ≡ true) where
  settle_write-Safe :
      (key : Text) (tenant : Option Text) (r : Result Error (Unit {0}))
      → Throws P (settle_write env options key tenant r)
  unfolding settle_write
  settle_write-Safe key tenant (ok found) = search call_rules
  settle_write-Safe key tenant (throw e) = search (call_rules, rethrow-Safe) depth 8

  guarded_write-Safe :
      (layer : CacheLayer) (k : Text) (raw : Raw) (ttl : ℕ) (key : Text) (tenant : Option Text)
      → Throws P (guarded_write env options layer k raw ttl key tenant)
  unfolding guarded_write
  guarded_write-Safe layer k raw ttl key tenant = search (call_rules, settle_write-Safe) depth 10

  pub safe_provider_write-Safe :
      (layer : CacheLayer) (k : Text) (raw : Raw) (ttl : ℕ) (key : Option Text)
      (tenant : Option Text)
      → Throws P (safe_provider_write env options layer k raw ttl key tenant)
  unfolding safe_provider_write
  safe_provider_write-Safe layer k raw ttl key tenant =
      search (call_rules, guarded_write-Safe) depth 8

  settle_delete-Safe :
      (key : Text) (tenant : Option Text) (r : Result Error (Unit {0}))
      → Throws P (settle_delete env options key tenant r)
  unfolding settle_delete
  settle_delete-Safe key tenant (ok _) = search call_rules
  settle_delete-Safe key tenant (throw e) = search call_rules

  delete_layer-Safe :
      (layer : CacheLayer) (k key : Text) (tenant : Option Text)
      → Throws P (delete_layer env options layer k key tenant)
  unfolding delete_layer
  delete_layer-Safe layer k key tenant = search (call_rules, settle_delete-Safe) depth 10

  delete_from-Safe :
      (k key : Text) (tenant : Option Text) (layers : List CacheLayer)
      → Throws P (delete_from env options k key tenant layers)
  unfolding delete_from
  delete_from-Safe k key tenant [] = search call_rules
  delete_from-Safe k key tenant (layer ∷ layers) =
      Throws-bind _ _ (delete_layer-Safe layer k key tenant)
        (λ _. delete_from-Safe k key tenant layers)

  delete_scoped_key-Safe :
      (k : Text) (key tenant : Option Text) → Throws P (delete_scoped_key env options k key tenant)
  unfolding delete_scoped_key
  delete_scoped_key-Safe k key tenant = delete_from-Safe k _ tenant options.layers

  done_or_recorded-Safe :
      (o : Operation) (r : Result Error (Unit {0})) → Throws P (done_or_recorded env options o r)
  unfolding done_or_recorded
  done_or_recorded-Safe o (ok _) = search call_rules
  done_or_recorded-Safe o (throw e) = search call_rules

  tag_operation-Safe :
      (o : Operation) (index : Option ℕ) (task : ℕ → World → Result Error (Unit {0}) × World)
      → Throws P (safe_tag_index_operation env options o index task)
  unfolding safe_tag_index_operation
  tag_operation-Safe o none task = search call_rules
  tag_operation-Safe o (some index) task = search (call_rules, done_or_recorded-Safe) depth 8

  held-Safe :
      (next : CacheVersion) (held : Option (Option CacheVersion))
      → Throws {S = CacheState World V} {A = Bool} P (elim held [
        | none ↦ pure false
        | some current ↦ pure (precedes env options next current)
      ])
  held-Safe next none = search call_rules
  held-Safe next (some current) = search call_rules

  compare_held-Safe :
      (layer : CacheLayer) (k : Text) (next : CacheVersion)
      → Throws P (compare_held env options layer k next)
  unfolding compare_held
  compare_held-Safe layer k next =
      Throws-bind _ _ (search throws_rules) (λ held. held-Safe next (version_held env options held))

  is_stale_version-Safe :
      (layer : CacheLayer) (k : Text) (next : Option CacheVersion)
      → Throws P (is_stale_version env options layer k next)
  unfolding is_stale_version
  is_stale_version-Safe layer k none = search call_rules
  is_stale_version-Safe layer k (some next) = search (call_rules, compare_held-Safe) depth 8

  epoch_of-Safe : (k : Text) → Throws P (epoch_of env options k)
  unfolding epoch_of
  epoch_of-Safe k = search call_rules

  pub write_layer-Safe :
      (layer : CacheLayer) (k : Text) (entry : CacheEntry V) (raw : Raw) (ttl : ℕ)
      (tenant key : Option Text)
      → Throws P (write_layer env options layer k entry raw ttl tenant key)
  unfolding write_layer
  write_layer-Safe layer k entry raw ttl tenant key =
      search (call_rules, is_stale_version-Safe, safe_provider_write-Safe, tag_operation-Safe) depth
        10

  write_layers-Safe :
      (layers : List CacheLayer) (k : Text) (entry : CacheEntry V) (raw : Raw) (ttl : ℕ)
      (tenant : Option Text) (epoch : ℕ) (key : Option Text)
      → Throws P (write_layers env options layers k entry raw ttl tenant epoch key)
  unfolding write_layers
  write_layers-Safe [] k entry raw ttl tenant epoch key = search call_rules
  write_layers-Safe (layer ∷ layers) k entry raw ttl tenant epoch key =
      Throws-bind _ _ (epoch_of-Safe k) (λ now.
        Throws-if (not (nat_eq now epoch)) (pure false) _ (λ _. search call_rules)
          (λ _.
            Throws-bind _ _ (write_layer-Safe layer k entry raw ttl tenant key)
              (λ _. write_layers-Safe layers k entry raw ttl tenant epoch key)))

  compensate-Safe :
      (b : Bool) (k : Text) (tenant : Option Text) (epoch : ℕ) (key : Option Text)
      → Throws P (compensate env options b k tenant epoch key)
  unfolding compensate
  compensate-Safe false k tenant epoch key = search call_rules
  compensate-Safe true k tenant epoch key =
      search (call_rules, epoch_of-Safe, delete_scoped_key-Safe) depth 8

  write_serialized-Safe :
      (r : Result Error Raw) (k : Text) (entry : CacheEntry V) (ttl : ℕ) (tenant : Option Text)
      (epoch : ℕ) (key : Option Text)
      → Throws P (write_serialized env options r k entry ttl tenant epoch key)
  unfolding write_serialized
  write_serialized-Safe (throw e) k entry ttl tenant epoch key =
      search (call_rules, rethrow-Safe) depth 8
  write_serialized-Safe (ok raw) k entry ttl tenant epoch key =
      search (call_rules, write_layers-Safe, compensate-Safe) depth 8

  pub write_entry-Safe :
      (k : Text) (entry : CacheEntry V) (ttl : ℕ) (tenant : Option Text) (epoch : ℕ)
      (key : Option Text)
      → Throws P (write_entry env options k entry ttl tenant epoch key)
  unfolding write_entry
  write_entry-Safe k entry ttl tenant epoch key =
      search (call_rules, epoch_of-Safe, write_serialized-Safe) depth 8
