-- ===== src/RuntimeEvents.antt =====
-- packages/core/src/events.ts: the handlers of runtime events, by event name. A handler is a call
-- to the surroundings that may throw; one that registers handlers while it runs is not modelled.
pub mod Isolation
use safecache.Base.{◌≡◌, refl, ◌∷◌, List, [], Option, none, some, ℕ, nat_has_eq, ◌++◌}
use safecache.Text.{Text, text_has_eq}
use safecache.JsMap
use safecache.JsMap.{JsMap}
use safecache.JsSet
use safecache.Result.{Result, ok, throw}
use safecache.Cache.Types.{Error}

-- The sets of handlers, which are numbered.
pub record RuntimeEvents : Type 0 where
  pub handlers : JsMap Text (List ℕ)

abbrev pub or_no_handlers : Option (List ℕ) → List ℕ
or_no_handlers none = []
or_no_handlers (some hs) = hs

unfoldable pub on : Text → ℕ → RuntimeEvents → RuntimeEvents
on name handler es = record {
  handlers =
      JsMap.set es.handlers name (JsSet.add (or_no_handlers (JsMap.get es.handlers name)) handler);
}

unfoldable pub off : Text → ℕ → RuntimeEvents → RuntimeEvents
off name handler es = elim (JsMap.get es.handlers name) [
  | none ↦ es
  | some hs ↦ record { handlers = JsMap.set es.handlers name (JsSet.delete hs handler) }
]

-- the loop of `emit`: what a handler throws is dropped
unfoldable pub call_each :
    {World : Type 0} → (ℕ → World → Result Error (Unit {0}) × World) → List ℕ → World → World
call_each call [] w = w
call_each call (h ∷ hs) w = let (settled, w') = call h w in call_each call hs w'

unfoldable pub emit :
    {World : Type 0}
    → (ℕ → World → Result Error (Unit {0}) × World)
    → Text
    → RuntimeEvents
    → World
    → World
emit call name es w = call_each call (or_no_handlers (JsMap.get es.handlers name)) w
