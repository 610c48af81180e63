-- ===== src/Tests/Stored.antt =====
-- The theorems on the in-memory provider and tag index applied to concrete inputs.
use safecache.Base.{◌≡◌, refl, none, some, [], arith, ◌≤◌, ltb, if◌then◌else◌}
use safecache.Text.{Text, codes, text_has_eq}
use safecache.TagIndex.{no_tags}
use safecache.Memory.{MemoryProvider, MemoryProviderOptions, get, store, entries}
use safecache.Memory.Recency.{get-store, store-entries-le}

abbrev at_most_two : MemoryProviderOptions
at_most_two = record { max_entries = some 2; ttl = none }

abbrev empty : MemoryProvider Text
empty = record { values = []; tag_index = record { index = no_tags; scopes_by_key = [] } }

get-store_example :
    (get 15 (codes "c") (
      store at_most_two 10 (codes "c") (codes "C") 10 (
        store at_most_two 9
          (codes "b")
          (codes "B")
          10
          (store at_most_two 8 (codes "a") (codes "A") 10 empty)))).0
    ≡ (if ltb 15 20 then some (codes "C") else none)
get-store_example =
    get-store at_most_two 10 15 (codes "c") (codes "C") 10
      (store at_most_two 9 (codes "b") (codes "B") 10
        (store at_most_two 8 (codes "a") (codes "A") 10 empty))
      (omega arith)

store-entries-le_example : entries (store at_most_two 10 (codes "a") (codes "A") 10 empty) ≤ 2
store-entries-le_example =
    store-entries-le at_most_two 10 (codes "a") (codes "A") 10 empty 2 refl (omega arith)
      (unfold entries in omega arith)
