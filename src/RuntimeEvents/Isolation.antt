-- ===== src/RuntimeEvents/Isolation.antt =====
-- Which handlers an event reaches, and what a handler that throws changes.
use safecache.Base.{
  ◌≡◌, refl, ap, ◌∙◌, ◌∷◌, List, [], ℕ, nat_has_eq, nat_eq, Bool, not, ◌&&◌, ◌||◌, arith,
  Option-cases, inl, inr,
}
use safecache.Text.{Text, text_has_eq, text_eq, text_eq_iff}
use safecache.JsMap
use safecache.JsMap.{get-set}
use safecache.JsSet
use safecache.JsSet.{has-delete, has-add}
use safecache.Result.{Result}
use safecache.Cache.Types.{Error}
use safecache.RuntimeEvents.{RuntimeEvents, or_no_handlers, on, off, call_each, emit}

-- Whether an event of this name reaches the handler.
pub reaches : RuntimeEvents → Text → ℕ → Bool
reaches es name handler = JsSet.has (or_no_handlers (JsMap.get es.handlers name)) handler

-- A handler that is registered is reached under its name, and one that is taken off no longer is;
-- neither changes anything for other names or handlers.
pub reaches-on-off :
    (name name' : Text) (handler handler' : ℕ) (es : RuntimeEvents)
    → (reaches (on name handler es) name' handler'
        ≡ (reaches es name' handler' || (text_eq name name' && nat_eq handler handler')))
      × (reaches (off name handler es) name' handler'
          ≡ (reaches es name' handler' && not (text_eq name name' && nat_eq handler handler')))
unfolding reaches on off
reaches-on-off name name' handler handler' es =
    let hs = or_no_handlers (JsMap.get es.handlers name) in
    (
      ground (
        arith,
        get-set es.handlers name name' (JsSet.add hs handler),
        has-add hs handler handler',
        text_eq_iff name name',
      ),
      elim (Option-cases (JsMap.get es.handlers name)) [
        | inl gone ↦ rw (gone, off) (unfold JsSet.has in ground (arith, text_eq_iff name name'))
        | inr (s, there) ↦
            rw (there, off)
              (ground (
                arith,
                get-set es.handlers name name' (JsSet.delete s handler),
                has-delete s handler handler',
                text_eq_iff name name',
              ))
      ],
    )

call_each-same :
    {World : Type 0} (call call' : ℕ → World → Result Error (Unit {0}) × World)
    → ((h : ℕ) (w : World) → (call h w).1 ≡ (call' h w).1)
    → (hs : List ℕ) (w : World) → call_each call hs w ≡ call_each call' hs w
unfolding call_each
call_each-same call call' same [] w = refl
call_each-same call call' same (h ∷ hs) w =
    ap (call_each call hs) (same h w) ∙ call_each-same call call' same hs (call' h w).1

-- What handlers throw makes no difference: handlers with the same effects lead to the same world,
-- whichever of them throw.
emit_ignores_errors :
    {World : Type 0} (call call' : ℕ → World → Result Error (Unit {0}) × World) (name : Text)
    (es : RuntimeEvents)
    → ((h : ℕ) (w : World) → (call h w).1 ≡ (call' h w).1)
    → (w : World) → emit call name es w ≡ emit call' name es w
unfolding emit
emit_ignores_errors call call' name es same w = call_each-same call call' same _ w
