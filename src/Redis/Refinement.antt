-- ===== src/Redis/Refinement.antt =====
-- The tag index of packages/redis/src/index.ts under any sequence of changes.
use safecache.Base.{ℕ, ◌≡◌, refl, sym, subst, List, [], ◌∷◌, arith}
use safecache.Text.{Text, text_has_eq}
use safecache.JsSet
use safecache.Result.{ok}
use safecache.Cache.Exec.{Exec, pure, ◌>>=◌, ◌>>◌}
use safecache.TagIndex.Relation.{
  Change, add, drop_key, drop_tag, Tagging, change_tagging, change_all,
}
use safecache.Redis.{
  RedisProviderClient, seconds_of, tag_key, key_tags_key, add_tags, tags_to_remove, remove_key,
  remove_tag,
}
use safecache.Redis.Steps.{
  Sets, IsServer, Turns, Reads, seconds_of-positive, add_some-Turns, remove_key_from-Turns,
  remove_tag_from-Turns,
}
use safecache.Redis.Agreement.{
  IsApart, Represents, add-Represents, drop_key-Represents, drop_tag-Represents,
}

module _ (prefix scope : Text) (ttl_ms : ℕ) {World Value : Type 0}
    (client : RedisProviderClient World Value) where
  -- a change that the cache asks for
  unfoldable pub change_server : Change → Exec World (Unit {0})
  change_server (add key tags) = add_tags prefix scope client key tags ttl_ms
  change_server (drop_key key) = remove_key prefix scope client key []
  change_server (drop_tag tag) = remove_tag prefix scope client tag

  unfoldable pub change_server_all : List Change → Exec World (Unit {0})
  change_server_all [] = pure tt
  change_server_all (c ∷ cs) = do change_server c; change_server_all cs

  -- `m` resolves and takes a server that stands for one tagging to one that stands for another.
  pub record Carries (view : World → Sets) (f : Tagging → Tagging) (m : Exec World (Unit {0}))
      : Type 0 where
    pub resolves : (w : World) → (m w).0 ≡ ok tt
    pub represents :
        (w : World) (known : Tagging)
        → Represents prefix scope (view w) known
        → Represents prefix scope (view (m w).1) (f known)

  Carries-Turns :
      (view : World → Sets) (f : Tagging → Tagging) (g : Sets → Sets) (m : Exec World (Unit {0}))
      → ((sets : Sets) (known : Tagging)
          → Represents prefix scope sets known
          → Represents prefix scope (g sets) (f known))
      → Turns view g m
      → Carries view f m
  Carries-Turns view f g m means t = record {
    resolves = t.resolves;
    represents = λ w known r.
        subst (λ sets. Represents prefix scope sets (f known)) (sym (t.changes w))
          (means (view w) known r);
  }

  -- the members of a set are read, and a change by them follows
  Carries-Reads :
      (view : World → Sets) (f : Tagging → Tagging) (at : Text) (m : Exec World (List Text))
      (g : List Text → Sets → Sets) (n : List Text → Exec World (Unit {0}))
      → ((ms : List Text) (sets : Sets) (known : Tagging)
          → ((e : Text) → JsSet.has ms e ≡ sets at e)
          → Represents prefix scope sets known
          → Represents prefix scope (g ms sets) (f known))
      → Reads view at m
      → ((ms : List Text) → Turns view (g ms) (n ms))
      → Carries view f (m >>= n)
  unfolding ◌>>=◌
  Carries-Reads view f at m g n means r t = record {
    resolves = λ w. rw (r.resolves w) ((t (r.members w)).resolves (m w).1);
    represents = λ w known known_now. rw (r.resolves w) (
        subst (λ sets. Represents prefix scope sets (f known))
          (sym ((t (r.members w)).changes (m w).1))
          (rw (r.keeps w) (means (r.members w) (view w) known (r.exact w) known_now)));
  }

  module _ (view : World → Sets) (server : IsServer client view)
      (apart : IsApart prefix scope) where
    change_server-Carries : (c : Change) → Carries view (change_tagging c) (change_server c)
    unfolding change_server add_tags pure change_tagging JsSet.has
    change_server-Carries (add key []) = record {
      resolves = λ w. refl;
      represents = λ w known r. record {
        looks_up = λ t k. ground (arith, r.looks_up t k);
        linked = λ t k. ground (arith, r.linked t k);
      };
    }
    change_server-Carries (add key (tag ∷ tags)) =
        Carries-Turns view _ _ _
          (add-Represents prefix scope apart key (tag ∷ tags) (seconds_of ttl_ms))
          (add_some-Turns prefix scope client view server key (tag ∷ tags) (seconds_of ttl_ms) tt
            (seconds_of-positive ttl_ms))
    change_server-Carries (drop_key key) =
        unfold remove_key tags_to_remove in
        Carries-Reads view _ (key_tags_key prefix scope key) _ _ _
          (λ ms sets known exact r.
            drop_key-Represents prefix scope apart key ms sets known exact r)
          (server.reads _) (remove_key_from-Turns prefix scope client view server key)
    change_server-Carries (drop_tag tag) =
        unfold remove_tag in
        Carries-Reads view _ (tag_key prefix scope tag) _ _ _
          (λ ms sets known exact r.
            drop_tag-Represents prefix scope apart tag ms sets known exact r)
          (server.reads _) (remove_tag_from-Turns prefix scope client view server tag)

    change_server_all-Carries :
        (cs : List Change) → Carries view (change_all cs) (change_server_all cs)
    unfolding change_server_all change_all pure ◌>>=◌
    change_server_all-Carries [] = record { resolves = λ w. refl; represents = λ w known r. r }
    change_server_all-Carries (c ∷ cs) =
        let one = change_server-Carries c in
        let more = change_server_all-Carries cs in
        record {
          resolves = λ w. rw (one.resolves w) (more.resolves (change_server c w).1);
          represents = λ w known r. rw (one.resolves w) (
              more.represents (change_server c w).1 (change_tagging c known)
                (one.represents w known r));
        }

    -- On a server whose well-formed calls succeed, with or without transactions, and in a scope whose
    -- tags do not meet the keys' own sets: any taggings, removals of keys and removals of tags resolve,
    -- whatever the TTL, and if the server's sets stood for a tagging before, they stand for the
    -- tagging that the same changes give as a relation. So no lookup loses a key or keeps one, as
    -- long as no set expires.
    pub redis_refines_tagging :
        (cs : List Change) (w : World) (known : Tagging)
        → Represents prefix scope (view w) known
        → ((change_server_all cs w).0 ≡ ok tt)
          × Represents prefix scope (view (change_server_all cs w).1) (change_all cs known)
    redis_refines_tagging cs w known r =
        let all = change_server_all-Carries cs in (all.resolves w, all.represents w known r)
