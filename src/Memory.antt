-- ===== src/Memory.antt =====
-- packages/memory/src/index.ts: the in-memory provider, a map in recency order with a tag index.
-- The clock's reading is an argument; times are natural numbers, so `ttlMs <= 0` is zero.
pub mod Recency
use safecache.Base.{
  ℕ, ◌+◌, ◌∷◌, List, [], Option, none, some, Bool, true, false, ltb, leb, nat_eq, if◌then◌else◌,
  length,
}
use safecache.Text.{Text, text_has_eq, codes}
use safecache.JsMap
use safecache.JsMap.{JsMap}
use safecache.JsSet
use safecache.Result.{Result, ok, throw}
use safecache.Duration.{DurationInput, DurationError, parse_duration}
use safecache.Cache.Calls.{set_duration}
use safecache.TagIndex
use safecache.TagIndex.{InMemoryTagIndex, or_empty, no_tags}

-- The index of core, and the scopes in which each key was tagged.
pub record MemoryTagIndex : Type 0 where
  pub index : InMemoryTagIndex
  pub scopes_by_key : JsMap Text (List Text)

unfoldable pub add_tags : Text → Text → List Text → MemoryTagIndex → MemoryTagIndex
add_tags scope key tags t = record {
  index = TagIndex.add_tags scope key tags t.index;
  scopes_by_key =
      JsMap.set t.scopes_by_key key (JsSet.add (or_empty (JsMap.get t.scopes_by_key key)) scope);
}

unfoldable pub forget_scope : Text → Text → MemoryTagIndex → MemoryTagIndex
forget_scope key scope t = record t {
  scopes_by_key = TagIndex.delete_under t.scopes_by_key key scope;
}

unfoldable pub remove_key : Text → Text → Option (List Text) → MemoryTagIndex → MemoryTagIndex
remove_key scope key (some tags) t = record t {
  index = TagIndex.remove_key scope key (some tags) t.index;
}
remove_key scope key none t =
    forget_scope key scope (record t { index = TagIndex.remove_key scope key none t.index })

-- `super.removeKey(scope, key)` for each scope
unfoldable pub remove_from_scopes : List Text → Text → InMemoryTagIndex → InMemoryTagIndex
remove_from_scopes [] key index = index
remove_from_scopes (scope ∷ scopes) key index =
    remove_from_scopes scopes key (TagIndex.remove_key scope key none index)

unfoldable pub remove_key_from_all_scopes : Text → MemoryTagIndex → MemoryTagIndex
remove_key_from_all_scopes key t = elim (JsMap.get t.scopes_by_key key) [
  | none ↦ t
  | some scopes ↦ record {
    index = remove_from_scopes scopes key t.index;
    scopes_by_key = JsMap.delete t.scopes_by_key key;
  }
]

-- the loops of `clear`
unfoldable pub clear_each : JsMap Text (List Text) → InMemoryTagIndex → InMemoryTagIndex
clear_each [] index = index
clear_each ((key, scopes) ∷ m) index = clear_each m (remove_from_scopes scopes key index)

unfoldable pub clear_tags : MemoryTagIndex → MemoryTagIndex
clear_tags t = record { index = clear_each t.scopes_by_key t.index; scopes_by_key = [] }

pub record StoredValue (Raw : Type 0) : Type 0 where
  pub content : Raw
  pub expires_at : ℕ

pub record MemoryProviderOptions : Type 0 where
  pub max_entries : Option ℕ
  pub ttl : Option DurationInput

-- The values, least recently used first, and the tag index.
pub record MemoryProvider (Raw : Type 0) : Type 0 where
  pub values : JsMap Text (StoredValue Raw)
  pub tag_index : MemoryTagIndex

-- `setOptions.ttlMs ?? (options.ttl ? parseDuration(options.ttl) : 0)`
unfoldable pub ttl_of : MemoryProviderOptions → Option ℕ → Result DurationError ℕ
ttl_of options (some ttl_ms) = ok ttl_ms
ttl_of options none = elim (set_duration options.ttl) [
  | none ↦ ok 0
  | some d ↦ parse_duration d (codes "duration")
]

module _ {Raw : Type 0} where
  unfoldable pub evict_key : Text → MemoryProvider Raw → MemoryProvider Raw
  evict_key key p = record {
    values = JsMap.delete p.values key;
    tag_index = remove_key_from_all_scopes key p.tag_index;
  }

  unfoldable pub evict_expired :
      ℕ
      → Text
      → Option (StoredValue Raw)
      → MemoryProvider Raw
      → Option (StoredValue Raw) × MemoryProvider Raw
  evict_expired now key none p = (none, p)
  evict_expired now key (some item) p =
      if leb item.expires_at now then (none, evict_key key p) else (some item, p)

  -- the loop of `enforceMaxEntries`: the first entries are dropped while there are too many
  unfoldable pub evict_over :
      ℕ
      → JsMap Text (StoredValue Raw)
      → MemoryTagIndex
      → JsMap Text (StoredValue Raw) × MemoryTagIndex
  evict_over max_entries [] tags = ([], tags)
  evict_over max_entries ((key, item) ∷ m) tags =
      let rest = evict_over max_entries m (remove_key_from_all_scopes key tags) in
      if ltb max_entries (length ((key, item) ∷ m)) then rest else ((key, item) ∷ m, tags)

  unfoldable pub enforce_max_entries : Option ℕ → MemoryProvider Raw → MemoryProvider Raw
  enforce_max_entries none p = p
  enforce_max_entries (some max_entries) p =
      let (m, tags) = evict_over max_entries p.values p.tag_index in
      if nat_eq max_entries 0 then p else record { values = m; tag_index = tags }

  -- what `get` does with the item that is left: it becomes the most recently used
  unfoldable pub touch :
      Text → Option (StoredValue Raw) × MemoryProvider Raw → Option Raw × MemoryProvider Raw
  touch key (none, p) = (none, p)
  touch key (some item, p) =
      (some item.content, record p { values = JsMap.set (JsMap.delete p.values key) key item })

  unfoldable pub get : ℕ → Text → MemoryProvider Raw → Option Raw × MemoryProvider Raw
  get now key p = touch key (evict_expired now key (JsMap.get p.values key) p)

  unfoldable pub store :
      MemoryProviderOptions → ℕ → Text → Raw → ℕ → MemoryProvider Raw → MemoryProvider Raw
  store options now key value ttl_ms p =
      if nat_eq ttl_ms 0
      then evict_key key p
      else enforce_max_entries options.max_entries (record p {
        values =
            JsMap.set (JsMap.delete p.values key) key
              (record { content = value; expires_at = now + ttl_ms });
      })

  unfoldable pub set :
      MemoryProviderOptions
      → ℕ
      → Text
      → Raw
      → Option ℕ
      → MemoryProvider Raw
      → Result DurationError (MemoryProvider Raw)
  set options now key value ttl p = elim (ttl_of options ttl) [
    | ok ttl_ms ↦ ok (store options now key value ttl_ms p)
    | throw e ↦ throw e
  ]

  unfoldable pub delete : Text → MemoryProvider Raw → MemoryProvider Raw
  delete key p = evict_key key p

  unfoldable pub clear : MemoryProvider Raw → MemoryProvider Raw
  clear p = record { values = []; tag_index = clear_tags p.tag_index }

  -- the `entries` of `health`
  unfoldable pub entries : MemoryProvider Raw → ℕ
  entries p = length p.values
