-- ===== src/Cache/Distributed/Seen.antt =====
-- The bounded memory of event ids, `hasSeenEvent` of packages/core/src/cache.ts.
use safecache.Base.{
  ◌+◌, ◌≤◌, ◌<◌, ◌≡◌, ◌≢◌, refl, false, List, [], ◌∷◌, ltb, length, All, arith, Bool-cases, inl,
  inr,
}
use safecache.Text.{Text, text_eq, text_has_eq}
use safecache.JsSet
use safecache.Cache.Distributed.{drop_first, remember, max_seen_events}

-- Ids that the eviction accepts: not the empty text.
abbrev pub AllNamed : List Text → Type 0
AllNamed = All (λ id. id ≢ [])

length-add-le : (ids : List Text) (id : Text) → length (JsSet.add ids id) ≤ length ids + 1
unfolding JsSet.add
length-add-le [] id = omega arith
length-add-le (i ∷ ids) id = ground (arith, length-add-le ids id)

add-AllNamed : (ids : List Text) (id : Text) → AllNamed ids → id ≢ [] → AllNamed (JsSet.add ids id)
unfolding JsSet.add
add-AllNamed [] id a h = (h, tt)
add-AllNamed (i ∷ ids) id a h = elim (Bool-cases (text_eq i id)) [
  | inl same ↦ rw same a
  | inr other ↦ rw other (a.0, add-AllNamed ids id a.1 h)
]

drop_first_named :
    (ids : List Text)
    → AllNamed ids
    → 0 < length ids
    → AllNamed (drop_first ids) × (length (drop_first ids) + 1 ≡ length ids)
unfolding drop_first
drop_first_named [] a h = absurd (omega arith)
drop_first_named ([] ∷ ids) a h = absurd (a.0 refl)
drop_first_named ((c ∷ id) ∷ ids) a h = (a.1, omega arith)

-- While no id is the empty text, at most `max_seen_events` ids are remembered.
pub remember_bounded :
    (ids : List Text) (id : Text)
    → AllNamed ids
    → id ≢ []
    → length ids ≤ max_seen_events
    → AllNamed (remember ids id) × (length (remember ids id) ≤ max_seen_events)
unfolding remember
remember_bounded ids id a h le =
    let now = JsSet.add ids id in
    let named : AllNamed now = add-AllNamed ids id a h in
    elim (Bool-cases (ltb max_seen_events (length now))) [
      | inl over ↦
          let (k, e) = drop_first_named now named (ground arith) in
          rw over (k, omega (arith, length-add-le ids id))
      | inr within ↦ rw within (named, ground arith)
    ]

length-add_new :
    (ids : List Text) (id : Text)
    → JsSet.has ids id ≡ false
    → length (JsSet.add ids id) ≡ length ids + 1
unfolding JsSet.add JsSet.has
length-add_new [] id h = omega arith
length-add_new (i ∷ ids) id h = ground (arith, length-add_new ids id)

-- Once the empty id is the oldest, every new id makes the memory longer, past any bound: the
-- eviction takes the empty text for no id.
pub empty_id_unbounds :
    (ids : List Text) (id : Text)
    → JsSet.has ([] ∷ ids) id ≡ false
    → length (remember ([] ∷ ids) id) ≡ length ([] ∷ ids) + 1
unfolding remember drop_first JsSet.add JsSet.has text_eq
empty_id_unbounds ids [] h = cc
empty_id_unbounds ids (c ∷ id) h = ground (arith, length-add_new ids (c ∷ id))
