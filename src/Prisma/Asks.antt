-- ===== src/Prisma/Asks.antt =====
-- Which tags an action of packages/prisma/src/index.ts asks the cache for.
use safecache.Base.{
  ◌≡◌, refl, Bool, false, ◌&&◌, ◌||◌, List, [], ◌∷◌, ◌++◌, arith, Bool-cases, inl, inr,
}
use safecache.Text.{Text, text_has_eq}
use safecache.JsSet
use safecache.JsSet.{has-add}
use safecache.Result.{Result, ok, throw}
use safecache.Cache.Types.{Error}
use safecache.Cache.Exec.{Exec, pure, lift, update, attempt, modify, ◌>>=◌}
use safecache.Outbox.Payload.{unique_from, unique}
use safecache.Prisma.Ids.{PrismaTagOptions}
use safecache.Prisma.Sync.{
  PrismaEnv, PrismaState, is_empty, invalidate_tag, settle_tag, invalidate_each, settle_failures,
  invalidate_tags, notify_unmappable, invalidate_resolved,
}

has-unique_from :
    (seen ts : List Text) (t : Text)
    → JsSet.has (unique_from seen ts) t ≡ (JsSet.has seen t || JsSet.has ts t)
unfolding unique_from JsSet.has
has-unique_from seen [] t = ground arith
has-unique_from seen (u ∷ ts) t =
    ground (arith, has-unique_from (JsSet.add seen u) ts t, has-add seen u t)

has-append :
    (ts us : List Text) (t : Text) → JsSet.has (ts ++ us) t ≡ (JsSet.has ts t || JsSet.has us t)
unfolding JsSet.has
has-append [] us t = refl
has-append (u ∷ ts) us t = ground (arith, has-append ts us t)

module _ {World : Type 0} (env : PrismaEnv World) where
  -- `m` returns, and the cache was asked for these tags and no others.
  pub record Asks {A : Type 0} (tags : List Text) (m : Exec (PrismaState World) A) : Type 0 where
    pub returns : (s : PrismaState World) → (a : A) × ((m s).0 ≡ ok a)
    pub asks :
        (s : PrismaState World) (t : Text)
        → JsSet.has (m s).1.attempted t ≡ (JsSet.has tags t || JsSet.has s.attempted t)

  Asks-same :
      {A : Type 0} (ts us : List Text) (m : Exec (PrismaState World) A)
      → ((t : Text) → JsSet.has ts t ≡ JsSet.has us t)
      → Asks ts m
      → Asks us m
  Asks-same ts us m same a = record {
    returns = a.returns;
    asks = λ s t. ground (arith, a.asks s t, same t);
  }

  Asks-pure : {A : Type 0} (a : A) → Asks [] (pure a)
  unfolding pure JsSet.has
  Asks-pure a = record { returns = λ s. (a, refl); asks = λ s t. refl }

  Asks-bind :
      {A B : Type 0} (ts us : List Text) (m : Exec (PrismaState World) A)
      (f : A → Exec (PrismaState World) B)
      → Asks ts m
      → ((a : A) → Asks us (f a))
      → Asks (ts ++ us) (m >>= f)
  unfolding ◌>>=◌
  Asks-bind ts us m f a b = record {
    returns = λ s. let (v, e) = a.returns s in rw e ((b v).returns (m s).1);
    asks = λ s t.
        let (v, e) = a.returns s in
        rw e (ground (arith, (b v).asks (m s).1 t, a.asks s t, has-append ts us t));
  }

  attempt-Asks : (tag : Text) → Asks (tag ∷ []) (attempt (invalidate_tag env tag))
  unfolding invalidate_tag attempt update lift ◌>>=◌ JsSet.has
  attempt-Asks tag = record { returns = λ s. (_, refl); asks = λ s t. ground arith }

  modify-Asks :
      (change : PrismaState World → PrismaState World)
      → ((s : PrismaState World) → (change s).attempted ≡ s.attempted)
      → Asks [] (modify change)
  unfolding modify JsSet.has
  modify-Asks change same = record { returns = λ s. (tt, refl); asks = λ s t. rw (same s) refl }

  settle_tag-Asks : (tag : Text) (r : Result Error (Unit {0})) → Asks [] (settle_tag env tag r)
  unfolding settle_tag
  settle_tag-Asks tag (ok _) = Asks-pure []
  settle_tag-Asks tag (throw e) = Asks-bind [] [] _ _ (modify-Asks _ (λ s. refl)) (λ _. Asks-pure _)

  invalidate_each-Asks : (tags : List Text) → Asks tags (invalidate_each env tags)
  unfolding invalidate_each
  invalidate_each-Asks [] = Asks-pure []
  invalidate_each-Asks (tag ∷ tags) =
      Asks-same ((tag ∷ []) ++ ([] ++ (tags ++ []))) (tag ∷ tags) _
        (λ t. unfold JsSet.has in ground (arith, has-append tags [] t))
        (Asks-bind (tag ∷ []) ([] ++ (tags ++ [])) _ _ (attempt-Asks tag) (λ settled.
          Asks-bind [] (tags ++ []) _ _ (settle_tag-Asks tag settled)
            (λ failed. Asks-bind tags [] _ _ (invalidate_each-Asks tags) (λ failed'. Asks-pure _))))

  module _ (options : PrismaTagOptions)
      (contained : options.propagate_invalidation_errors ≡ false) where
    settle_failures-Asks : (failures : List Error) → Asks [] (settle_failures env options failures)
    unfolding settle_failures
    settle_failures-Asks [] = Asks-pure tt
    settle_failures-Asks (e ∷ []) = rw contained (Asks-pure tt)
    settle_failures-Asks (e ∷ e' ∷ es) = rw contained (Asks-pure tt)

    invalidate_tags-Asks : (tags : List Text) → Asks tags (invalidate_tags env options tags)
    unfolding invalidate_tags
    invalidate_tags-Asks tags =
        Asks-same (unique tags ++ []) tags _
          (λ t.
            unfold JsSet.has in
            ground (arith, has-append (unique tags) [] t, has-unique_from [] tags t))
          (Asks-bind (unique tags) [] _ _ (invalidate_each-Asks (unique tags)) settle_failures-Asks)

    notify_unmappable-Asks :
        (model : Text) (force_scope : Bool) (entity_tags explicit_tags : List Text)
        → Asks [] (notify_unmappable env options model force_scope entity_tags explicit_tags)
    unfolding notify_unmappable
    notify_unmappable-Asks model force_scope entity_tags explicit_tags =
        elim (Bool-cases (is_empty entity_tags && is_empty explicit_tags)) [
          | inl imprecise ↦ rw imprecise (modify-Asks _ (λ s. refl))
          | inr precise ↦ rw precise (Asks-pure tt)
        ]

    pub invalidate_resolved-Asks :
        (model : Text) (tags : List Text × List Text) (explicit_tags : List Text)
        (force_scope : Bool)
        → Asks
            (tags.0 ++ (tags.1 ++ explicit_tags))
            (invalidate_resolved env options model tags explicit_tags force_scope)
    unfolding invalidate_resolved
    invalidate_resolved-Asks model tags explicit_tags force_scope =
        Asks-bind [] _ _ _ (notify_unmappable-Asks model force_scope _ explicit_tags)
          (λ _. invalidate_tags-Asks _)
