-- ===== src/Redis/Steps.antt =====
-- What the commands of packages/redis/src/index.ts do to the sets of a server, and that a
-- transaction and its fallback do the same.
use safecache.Base.{
  ℕ, ◌≤◌, ◌≡◌, refl, sym, ◌∙◌, ap, subst, Bool, not, ◌&&◌, ◌||◌, Option, none, some, List, [], ◌∷◌,
  All, arith,
}
use safecache.Text.{Text, text_eq, text_has_eq}
use safecache.JsSet
use safecache.Result.{ok}
use safecache.Cache.Exec.{Exec, pure, ◌>>=◌, ◌>>◌}
use safecache.Redis.{
  Command, queue_s_add, queue_s_rem, queue_expire, queue_del, RedisProviderClient, seconds_of,
  tag_key, key_tags_key, transact, queue_tags, queue_add, queue_remove_key, queue_remove_tag,
  add_each, drop_from_tags, drop_from_keys, add_some, remove_key_from, remove_tag_from,
}

-- Which members the set under a key has.
abbrev pub Sets : Type 0
Sets = Text → Text → Bool

unfoldable pub step : Command → Sets → Sets
step (queue_s_add at members) sets k e = sets k e || (text_eq at k && JsSet.has members e)
step (queue_s_rem at members) sets k e = sets k e && not (text_eq at k && JsSet.has members e)
step (queue_expire at seconds) sets k e = sets k e
step (queue_del at) sets k e = sets k e && not (text_eq at k)

unfoldable pub steps : List Command → Sets → Sets
steps [] sets = sets
steps (c ∷ cs) sets = steps cs (step c sets)

-- one element out of many sets
unfoldable pub remove_from : (Text → Text) → Text → List Text → Sets → Sets
remove_from key_of element [] sets = sets
remove_from key_of element (t ∷ ts) sets =
    remove_from key_of element ts (step (queue_s_rem (key_of t) (element ∷ [])) sets)

abbrev pub Some {ℓ} : {A : Type ℓ} → List A → Type 0
Some [] = ⊥
Some (x ∷ xs) = Unit {0}

-- What the server is documented to carry out as `step` says: SADD and SREM refuse an empty list of
-- members, and an expiry of 0 seconds deletes.
abbrev pub Accepted : Command → Type 0
Accepted (queue_expire at seconds) = 1 ≤ seconds
Accepted (queue_s_add at members) = Some members
Accepted (queue_s_rem at members) = Some members
Accepted (queue_del at) = Unit {0}

-- `m` resolves, and changes the sets by `f`.
pub record Turns {World : Type 0} (view : World → Sets) (f : Sets → Sets)
    (m : Exec World (Unit {0})) : Type 0 where
  pub resolves : (w : World) → (m w).0 ≡ ok tt
  pub changes : (w : World) → view (m w).1 ≡ f (view w)

-- `m` resolves to the members of a set, and changes nothing.
pub record Reads {World : Type 0} (view : World → Sets) (at : Text) (m : Exec World (List Text))
    : Type 0 where
  pub members : (w : World) → List Text
  pub resolves : (w : World) → (m w).0 ≡ ok (members w)
  pub exact : (w : World) (e : Text) → JsSet.has (members w) e ≡ view w at e
  pub keeps : (w : World) → view (m w).1 ≡ view w

-- The documented behaviour of a server whose calls succeed and whose sets do not expire meanwhile.
pub record IsServer {World Value : Type 0} (client : RedisProviderClient World Value)
    (view : World → Sets) : Type 0 where
  pub adds :
      (at : Text) (members : List Text)
      → Some members
      → Turns view (step (queue_s_add at members)) (client.s_add at members)
  pub removes :
      (at : Text) (members : List Text)
      → Some members
      → Turns view (step (queue_s_rem at members)) (client.s_rem at members)
  pub expires :
      (at : Text) (seconds : ℕ)
      → 1 ≤ seconds
      → Turns view (step (queue_expire at seconds)) (client.expire at seconds)
  pub deletes : (at : Text) → Turns view (step (queue_del at)) (client.del at)
  pub reads : (at : Text) → Reads view at (client.s_members at)
  pub executes :
      (exec : List Command → Exec World (Unit {0}))
      → client.exec ≡ some exec
      → (cs : List Command) → All Accepted cs
      → Turns view (steps cs) (exec cs)

module _ {World : Type 0} {view : World → Sets} where
  pub Turns-pure : Turns view (λ sets. sets) (pure tt)
  unfolding pure
  Turns-pure = record { resolves = λ w. refl; changes = λ w. refl }

  pub Turns-then :
      {f g : Sets → Sets} (m n : Exec World (Unit {0}))
      → Turns view f m
      → Turns view g n
      → Turns view (λ sets. g (f sets)) (m >> n)
  unfolding ◌>>=◌
  Turns-then {f = f} {g = g} m n a b = record {
    resolves = λ w. rw (a.resolves w) (b.resolves (m w).1);
    changes = λ w. rw (a.resolves w) (b.changes (m w).1 ∙ ap g (a.changes w));
  }

pub seconds_of-positive : (ttl_ms : ℕ) → 1 ≤ seconds_of ttl_ms
unfolding seconds_of
seconds_of-positive ttl_ms = ground arith

module _ (prefix scope : Text) where
  queue_tags-Accepted :
      (key : Text) (seconds : ℕ) (tags : List Text)
      → 1 ≤ seconds
      → All Accepted (queue_tags prefix scope key seconds tags)
  unfolding queue_tags
  queue_tags-Accepted key seconds [] positive = tt
  queue_tags-Accepted key seconds (tag ∷ tags) positive =
      (tt, (positive, queue_tags-Accepted key seconds tags positive))

  queue_add-Accepted :
      (key : Text) (tags : List Text) (seconds : ℕ)
      → Some tags
      → 1 ≤ seconds
      → All Accepted (queue_add prefix scope key tags seconds)
  unfolding queue_add
  queue_add-Accepted key tags seconds present positive =
      (present, (positive, queue_tags-Accepted key seconds tags positive))

  queue_remove_key-Accepted :
      (key : Text) (tags : List Text) → All Accepted (queue_remove_key prefix scope key tags)
  unfolding queue_remove_key
  queue_remove_key-Accepted key [] = (tt, tt)
  queue_remove_key-Accepted key (tag ∷ tags) = (tt, queue_remove_key-Accepted key tags)

  queue_remove_tag-Accepted :
      (tag : Text) (keys : List Text) → All Accepted (queue_remove_tag prefix scope tag keys)
  unfolding queue_remove_tag
  queue_remove_tag-Accepted tag [] = (tt, tt)
  queue_remove_tag-Accepted tag (key ∷ keys) = (tt, queue_remove_tag-Accepted tag keys)

  pub steps-queue_remove_key :
      (key : Text) (tags : List Text)
      → steps (queue_remove_key prefix scope key tags) ≡ (λ sets.
        step
          (queue_del (key_tags_key prefix scope key))
          (remove_from (tag_key prefix scope) key tags sets))
  unfolding steps queue_remove_key remove_from
  steps-queue_remove_key key [] = refl
  steps-queue_remove_key key (tag ∷ tags) =
      ap (λ f sets. f (step (queue_s_rem (tag_key prefix scope tag) (key ∷ [])) sets))
        (steps-queue_remove_key key tags)

  pub steps-queue_remove_tag :
      (tag : Text) (keys : List Text)
      → steps (queue_remove_tag prefix scope tag keys) ≡ (λ sets.
        step
          (queue_del (tag_key prefix scope tag))
          (remove_from (key_tags_key prefix scope) tag keys sets))
  unfolding steps queue_remove_tag remove_from
  steps-queue_remove_tag tag [] = refl
  steps-queue_remove_tag tag (key ∷ keys) =
      ap (λ f sets. f (step (queue_s_rem (key_tags_key prefix scope key) (tag ∷ [])) sets))
        (steps-queue_remove_tag tag keys)

  module _ {World Value : Type 0} (client : RedisProviderClient World Value) (view : World → Sets)
      (server : IsServer client view) where
    transact-Turns :
        (f : Sets → Sets) (cs : List Command) (fallback : Exec World (Unit {0}))
        → All Accepted cs
        → steps cs ≡ f
        → Turns view f fallback
        → Turns view (steps cs) (transact client.exec cs fallback)
    unfolding transact
    transact-Turns f cs fallback lasting same falls =
        let go = λ (e : Option (List Command → Exec World (Unit {0}))) (known : client.exec ≡ e).
          elim e as (λ e. client.exec ≡ e → Turns view (steps cs) (transact e cs fallback)) [
            | none ↦ λ _. subst (λ g. Turns view g fallback) (sym same) falls
            | some exec ↦ λ multi. server.executes exec multi cs lasting
          ]
            known in
        go client.exec refl

    add_each-Turns :
        (key : Text) (seconds : ℕ) (tags : List Text)
        → 1 ≤ seconds
        → Turns view
            (steps (queue_tags prefix scope key seconds tags))
            (add_each prefix scope client key seconds tags)
    unfolding add_each queue_tags steps
    add_each-Turns key seconds [] positive = Turns-pure
    add_each-Turns key seconds (tag ∷ tags) positive =
        Turns-then _ _ (server.adds _ _ tt)
          (Turns-then _ _ (server.expires _ _ positive) (add_each-Turns key seconds tags positive))

    pub add_some-Turns :
        (key : Text) (tags : List Text) (seconds : ℕ)
        → Some tags
        → 1 ≤ seconds
        → Turns view
            (steps (queue_add prefix scope key tags seconds))
            (add_some prefix scope client key tags seconds)
    unfolding add_some queue_add steps
    add_some-Turns key tags seconds present positive =
        transact-Turns _ _ _ (queue_add-Accepted key tags seconds present positive) refl (
          Turns-then _ _ (server.adds _ _ present) (
            Turns-then _ _ (server.expires _ _ positive)
              (add_each-Turns key seconds tags positive)))

    drop_from_tags-Turns :
        (key : Text) (tags : List Text)
        → Turns view
            (remove_from (tag_key prefix scope) key tags)
            (drop_from_tags prefix scope client key tags)
    unfolding drop_from_tags remove_from
    drop_from_tags-Turns key [] = Turns-pure
    drop_from_tags-Turns key (tag ∷ tags) =
        Turns-then _ _ (server.removes _ _ tt) (drop_from_tags-Turns key tags)

    drop_from_keys-Turns :
        (tag : Text) (keys : List Text)
        → Turns view
            (remove_from (key_tags_key prefix scope) tag keys)
            (drop_from_keys prefix scope client tag keys)
    unfolding drop_from_keys remove_from
    drop_from_keys-Turns tag [] = Turns-pure
    drop_from_keys-Turns tag (key ∷ keys) =
        Turns-then _ _ (server.removes _ _ tt) (drop_from_keys-Turns tag keys)

    pub remove_key_from-Turns :
        (key : Text) (tags : List Text)
        → Turns view
            (steps (queue_remove_key prefix scope key tags))
            (remove_key_from prefix scope client key tags)
    unfolding remove_key_from
    remove_key_from-Turns key tags =
        transact-Turns _ _ _ (queue_remove_key-Accepted key tags) (steps-queue_remove_key key tags)
          (Turns-then _ _ (drop_from_tags-Turns key tags) (server.deletes _))

    pub remove_tag_from-Turns :
        (tag : Text) (keys : List Text)
        → Turns view
            (steps (queue_remove_tag prefix scope tag keys))
            (remove_tag_from prefix scope client tag keys)
    unfolding remove_tag_from
    remove_tag_from-Turns tag keys =
        transact-Turns _ _ _ (queue_remove_tag-Accepted tag keys) (steps-queue_remove_tag tag keys)
          (Turns-then _ _ (drop_from_keys-Turns tag keys) (server.deletes _))
