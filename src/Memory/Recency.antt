-- ===== src/Memory/Recency.antt =====
-- The bound and the eviction order of the in-memory provider.
use safecache.Base.{
  ℕ, suc, ◌+◌, ◌≤◌, ◌<◌, ◌≡◌, ◌≢◌, refl, ap, ◌∷◌, ◌++◌, [], Option, none, some, false, ltb, nat_eq,
  if◌then◌else◌, length, arith, Bool-cases, inl, inr,
}
use safecache.Text.{Text, text_has_eq, text_eq_iff}
use safecache.JsMap
use safecache.JsMap.{JsMap, get-set, get-delete, length-delete-le}
use safecache.Memory.{
  MemoryProvider, MemoryProviderOptions, MemoryTagIndex, StoredValue, evict_over,
  enforce_max_entries, evict_key, evict_expired, touch, get, store, entries,
  remove_key_from_all_scopes,
}

module _ {Raw : Type 0} where
  evict_over-length :
      (n : ℕ) (m : JsMap Text (StoredValue Raw)) (tags : MemoryTagIndex)
      → length (evict_over n m tags).0 ≤ n
  unfolding evict_over
  evict_over-length n [] tags = omega arith
  evict_over-length n ((k, v) ∷ m) tags =
      ground (arith, evict_over-length n m (remove_key_from_all_scopes k tags))

  get-append :
      (m : JsMap Text (StoredValue Raw)) (k : Text) (v : StoredValue Raw)
      → JsMap.get m k ≡ none
      → JsMap.get (m ++ ((k, v) ∷ [])) k ≡ some v
  unfolding JsMap.get
  get-append [] k v absent = ground (arith, text_eq_iff k k)
  get-append ((j, w) ∷ m) k v absent = ground (arith, get-append m k v)

  set-absent :
      (m : JsMap Text (StoredValue Raw)) (k : Text) (v : StoredValue Raw)
      → JsMap.get m k ≡ none
      → JsMap.set m k v ≡ m ++ ((k, v) ∷ [])
  unfolding JsMap.get JsMap.set
  set-absent [] k v absent = refl
  set-absent ((j, w) ∷ m) k v absent = ground (arith, set-absent m k v)

  length-append :
      (m : JsMap Text (StoredValue Raw)) (e : Text × StoredValue Raw)
      → length (m ++ (e ∷ [])) ≡ suc (length m)
  length-append [] e = refl
  length-append (d ∷ m) e = ap suc (length-append m e)

  -- The newest entry survives the eviction.
  evict_over-newest :
      (n : ℕ) (m : JsMap Text (StoredValue Raw)) (k : Text) (v : StoredValue Raw)
      (tags : MemoryTagIndex)
      → JsMap.get m k ≡ none
      → 0 < n
      → JsMap.get (evict_over n (m ++ ((k, v) ∷ [])) tags).0 k ≡ some v
  unfolding evict_over JsMap.get
  evict_over-newest n [] k v tags absent pos = ground (arith, text_eq_iff k k)
  evict_over-newest n ((j, w) ∷ m) k v tags absent pos =
      elim (Bool-cases (ltb n (suc (length (m ++ ((k, v) ∷ [])))))) [
        | inl over ↦
            rw over
              (evict_over-newest n m k v (remove_key_from_all_scopes j tags) (ground arith) pos)
        | inr fits ↦ rw fits (unfold JsMap.get in ground (arith, get-append m k v))
      ]

  enforced-newest :
      (bound : Option ℕ) (m : JsMap Text (StoredValue Raw)) (k : Text) (v : StoredValue Raw)
      (tags : MemoryTagIndex)
      → JsMap.get m k ≡ none
      → JsMap.get
          (enforce_max_entries bound
            (record { values = m ++ ((k, v) ∷ []); tag_index = tags })).values
          k
        ≡ some v
  unfolding enforce_max_entries
  enforced-newest none m k v tags absent = get-append m k v absent
  enforced-newest (some n) m k v tags absent = elim (Bool-cases (nat_eq n 0)) [
    | inl zero_bound ↦ rw zero_bound (get-append m k v absent)
    | inr bounded ↦ rw bounded (evict_over-newest n m k v tags absent (ground arith))
  ]

  stored :
      (options : MemoryProviderOptions) (now : ℕ) (key : Text) (value : Raw) (ttl : ℕ)
      (p : MemoryProvider Raw)
      → ttl ≢ 0
      → JsMap.get (store options now key value ttl p).values key
        ≡ some (record { content = value; expires_at = now + ttl })
  unfolding store
  stored options now key value ttl p live =
      let absent : JsMap.get (JsMap.delete p.values key) key ≡ none =
        ground (arith, get-delete p.values key key, text_eq_iff key key) in
      let v : StoredValue Raw = record { content = value; expires_at = now + ttl } in
      let positive : nat_eq ttl 0 ≡ false = ground arith in
      rw (positive, store)
        (rw (set-absent (JsMap.delete p.values key) key v absent) (
          enforced-newest options.max_entries (JsMap.delete p.values key) key v p.tag_index absent))

  -- A value that was stored with a positive TTL is read back until its TTL has passed and not
  -- from then on, whatever the provider held and whatever bound it has: the eviction never takes
  -- the entry that was just written.
  pub get-store :
      (options : MemoryProviderOptions) (now later : ℕ) (key : Text) (value : Raw) (ttl : ℕ)
      (p : MemoryProvider Raw)
      → ttl ≢ 0
      → (get later key (store options now key value ttl p)).0
        ≡ (if ltb later (now + ttl) then some value else none)
  unfolding get touch evict_expired
  get-store options now later key value ttl p live =
      rw (stored options now key value ttl p live) (ground arith)

  enforced-le :
      (bound : ℕ) (p : MemoryProvider Raw)
      → bound ≢ 0
      → entries (enforce_max_entries (some bound) p) ≤ bound
  unfolding enforce_max_entries entries
  enforced-le bound p live = ground (arith, evict_over-length bound p.values p.tag_index)

  evicted-le :
      (key : Text) (p : MemoryProvider Raw) (bound : ℕ)
      → entries p ≤ bound
      → entries (evict_key key p) ≤ bound
  unfolding entries evict_key
  evicted-le key p bound le = omega (arith, length-delete-le p.values key)

  -- A provider with a positive bound and no more entries than that keeps to it at every write,
  -- whatever the TTL.
  pub store-entries-le :
      (options : MemoryProviderOptions) (now : ℕ) (key : Text) (value : Raw) (ttl : ℕ)
      (p : MemoryProvider Raw) (bound : ℕ)
      → options.max_entries ≡ some bound
      → bound ≢ 0
      → entries p ≤ bound
      → entries (store options now key value ttl p) ≤ bound
  unfolding store
  store-entries-le options now key value ttl p bound limit live le =
      elim (Bool-cases (nat_eq ttl 0)) [
        | inl dropped ↦ rw (dropped, store) (evicted-le key p bound le)
        | inr kept ↦ rw (kept, store, limit) (enforced-le bound _ live)
      ]
