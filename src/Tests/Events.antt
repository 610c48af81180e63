-- ===== src/Tests/Events.antt =====
-- The theorems on the validation and the delivery of events applied to concrete inputs.
use safecache.Base.{◌≤◌, All, ◌≡◌, refl, ◌∷◌, List, [], ℕ, if◌then◌else◌}
use safecache.Text.{Text, codes, text_eq}
use safecache.Result.{Result, ok, throw}
use safecache.Tests.Sample.{down}
use safecache.EventShape.{
  Value, undefined, number, text, object, ParseError, is_string, is_number, is_event_type,
  is_optional_string, all_optional, is_cache_event, checked, settle_json, parse_cache_event,
}
use safecache.EventShape.Accepts.{IsEvent, parse_cache_event-IsEvent}
use safecache.RuntimeEvents.{RuntimeEvents}
use safecache.Cache.Types.{Error}
use safecache.Metrics.{empty_histogram}
use safecache.Metrics.Totals.{observe_all, total, Spans, Observed, histogram_totals}

-- an event with no optional field
abbrev sent : Text → Value
sent field =
    if text_eq field (codes "timestamp")
    then number
    else if text_eq field (codes "type")
    then text (codes "invalidate:key")
    else if text_eq field (codes "id")
    then text (codes "e1")
    else if text_eq field (codes "source")
    then text (codes "node-b")
    else if text_eq field (codes "namespace")
    then text (codes "app")
    else undefined

abbrev pub to_sent : Text → Result ParseError Value
to_sent raw = ok (object sent)

parsed : parse_cache_event to_sent (text (codes "{}")) ≡ ok (object sent)
unfolding parse_cache_event settle_json checked is_cache_event is_string is_number is_event_type
    is_optional_string all_optional text_eq
parsed = refl

parse_cache_event-IsEvent_example :
    (event : Text → Value) × (object sent ≡ object event) × IsEvent event
parse_cache_event-IsEvent_example =
    parse_cache_event-IsEvent to_sent (text (codes "{}")) (object sent) parsed

abbrev no_handlers : RuntimeEvents
no_handlers = record { handlers = [] }

abbrev logging : ℕ → List ℕ → Result Error (Unit {0}) × List ℕ
logging handler calls = (ok tt, handler ∷ calls)

abbrev failing : ℕ → List ℕ → Result Error (Unit {0}) × List ℕ
failing handler calls = (throw down, handler ∷ calls)

histogram_totals_example :
    ((observe_all (5 ∷ 2 ∷ 9 ∷ []) empty_histogram).count ≡ 3)
    × ((observe_all (5 ∷ 2 ∷ 9 ∷ []) empty_histogram).sum ≡ total (5 ∷ 2 ∷ 9 ∷ []))
    × ((low : ℕ) × (high : ℕ) × Spans (observe_all (5 ∷ 2 ∷ 9 ∷ []) empty_histogram) low high
        × Observed low (5 ∷ 2 ∷ 9 ∷ [])
        × Observed high (5 ∷ 2 ∷ 9 ∷ [])
        × All (λ u. (low ≤ u) × (u ≤ high)) (5 ∷ 2 ∷ 9 ∷ []))
histogram_totals_example = histogram_totals 5 (2 ∷ 9 ∷ [])
