-- ===== src/Redis.antt =====
-- packages/redis/src/index.ts: the provider and its tag index, over a client that is a parameter.
pub mod Steps
pub mod Agreement
pub mod Refinement
use safecache.Base.{
  ℕ, ◌+◌, ◌/◌, ltb, max, Bool, true, false, Option, none, some, List, [], ◌∷◌, ◌++◌, if◌then◌else◌,
}
use safecache.Text.{Text, codes, text_eq}
use safecache.Cache.Exec.{Exec, pure, ◌>>=◌, ◌>>◌}

-- A command that a transaction has queued.
pub data Command : Type 0 where
  queue_s_add queue_s_rem : Text → List Text → Command
  queue_expire : Text → ℕ → Command
  queue_del : Text → Command

-- `exec` carries out what a `multi()` has queued, where the client has one.
pub record RedisProviderClient (World Value : Type 0) : Type 0 where
  pub get : Text → Exec World (Option Value)
  pub set : Text → Value → Option ℕ → Exec World (Unit {0})
  pub del : Text → Exec World (Unit {0})
  pub s_add : Text → List Text → Exec World (Unit {0})
  pub s_members : Text → Exec World (List Text)
  pub s_rem : Text → List Text → Exec World (Unit {0})
  pub expire : Text → ℕ → Exec World (Unit {0})
  pub exec : Option (List Command → Exec World (Unit {0}))
  pub ping : Option (Exec World Text)

pub record Health : Type 0 where
  pub is_ok : Bool
  pub response : Option Text

module _ {World Value : Type 0} (client : RedisProviderClient World Value) where
  unfoldable pub get : Text → Exec World (Option Value)
  get key = client.get key

  -- no expiry for a TTL of 0
  unfoldable pub set : Text → Value → ℕ → Exec World (Unit {0})
  set key value ttl_ms = client.set key value (if ltb 0 ttl_ms then some ttl_ms else none)

  unfoldable pub delete : Text → Exec World (Unit {0})
  delete key = client.del key

  -- `upper` is `toUpperCase`
  unfoldable pub health : (Text → Text) → Exec World Health
  health upper = elim client.ping [
    | none ↦ pure (record { is_ok = true; response = none })
    | some ping ↦ do
      response ← ping
      pure (record { is_ok = text_eq (upper response) (codes "PONG"); response = some response })
  ]

-- `multi` where the client has it, and the fallback where it does not
unfoldable pub transact :
    {World : Type 0}
    → Option (List Command → Exec World (Unit {0}))
    → List Command
    → Exec World (Unit {0})
    → Exec World (Unit {0})
transact none queued fallback = fallback
transact (some exec) queued fallback = exec queued

-- `Math.max(1, Math.ceil(ttlMs / 1_000))`
unfoldable pub seconds_of : ℕ → ℕ
seconds_of ttl_ms = max 1 ((ttl_ms + 999) / 1000)

module _ (prefix scope : Text) where
  unfoldable pub tag_key : Text → Text
  tag_key tag = prefix ++ (codes ":" ++ (scope ++ (codes ":" ++ tag)))

  unfoldable pub key_tags_key : Text → Text
  key_tags_key key = prefix ++ (codes ":keys:" ++ (scope ++ (codes ":" ++ key)))

  -- what the loop of `addTags` queues
  unfoldable pub queue_tags : Text → ℕ → List Text → List Command
  queue_tags key seconds [] = []
  queue_tags key seconds (tag ∷ tags) =
      queue_s_add (tag_key tag) (key ∷ [])
      ∷ queue_expire (tag_key tag) seconds
      ∷ queue_tags key seconds tags

  unfoldable pub queue_add : Text → List Text → ℕ → List Command
  queue_add key tags seconds =
      queue_s_add (key_tags_key key) tags
      ∷ queue_expire (key_tags_key key) seconds
      ∷ queue_tags key seconds tags

  unfoldable pub queue_remove_key : Text → List Text → List Command
  queue_remove_key key [] = queue_del (key_tags_key key) ∷ []
  queue_remove_key key (tag ∷ tags) =
      queue_s_rem (tag_key tag) (key ∷ []) ∷ queue_remove_key key tags

  unfoldable pub queue_remove_tag : Text → List Text → List Command
  queue_remove_tag tag [] = queue_del (tag_key tag) ∷ []
  queue_remove_tag tag (key ∷ keys) =
      queue_s_rem (key_tags_key key) (tag ∷ []) ∷ queue_remove_tag tag keys

  module _ {World Value : Type 0} (client : RedisProviderClient World Value) where
    -- the loops of the fallbacks
    unfoldable pub add_each : Text → ℕ → List Text → Exec World (Unit {0})
    add_each key seconds [] = pure tt
    add_each key seconds (tag ∷ tags) = do
      client.s_add (tag_key tag) (key ∷ [])
      client.expire (tag_key tag) seconds
      add_each key seconds tags

    unfoldable pub drop_from_tags : Text → List Text → Exec World (Unit {0})
    drop_from_tags key [] = pure tt
    drop_from_tags key (tag ∷ tags) = do
      client.s_rem (tag_key tag) (key ∷ [])
      drop_from_tags key tags

    unfoldable pub drop_from_keys : Text → List Text → Exec World (Unit {0})
    drop_from_keys tag [] = pure tt
    drop_from_keys tag (key ∷ keys) = do
      client.s_rem (key_tags_key key) (tag ∷ [])
      drop_from_keys tag keys

    unfoldable pub add_some : Text → List Text → ℕ → Exec World (Unit {0})
    add_some key tags seconds = transact client.exec (queue_add key tags seconds) (do
      client.s_add (key_tags_key key) tags
      client.expire (key_tags_key key) seconds
      add_each key seconds tags)

    unfoldable pub add_tags : Text → List Text → ℕ → Exec World (Unit {0})
    add_tags key [] ttl_ms = pure tt
    add_tags key (tag ∷ tags) ttl_ms = add_some key (tag ∷ tags) (seconds_of ttl_ms)

    unfoldable pub get_keys_by_tag : Text → Exec World (List Text)
    get_keys_by_tag tag = client.s_members (tag_key tag)

    -- `tags.length > 0 ? tags : await sMembers(keyTagsKey)`
    unfoldable pub tags_to_remove : Text → List Text → Exec World (List Text)
    tags_to_remove key [] = client.s_members (key_tags_key key)
    tags_to_remove key (tag ∷ tags) = pure (tag ∷ tags)

    unfoldable pub remove_key_from : Text → List Text → Exec World (Unit {0})
    remove_key_from key tags =
        transact client.exec (queue_remove_key key tags)
          (do drop_from_tags key tags; client.del (key_tags_key key))

    unfoldable pub remove_key : Text → List Text → Exec World (Unit {0})
    remove_key key tags = do removed ← tags_to_remove key tags; remove_key_from key removed

    unfoldable pub remove_tag_from : Text → List Text → Exec World (Unit {0})
    remove_tag_from tag keys =
        transact client.exec (queue_remove_tag tag keys)
          (do drop_from_keys tag keys; client.del (tag_key tag))

    unfoldable pub remove_tag : Text → Exec World (Unit {0})
    remove_tag tag = do keys ← client.s_members (tag_key tag); remove_tag_from tag keys
