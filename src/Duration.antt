-- ===== src/Duration.antt =====
-- packages/core/src/duration.ts: `parseDuration`. A text is checked against the pattern
-- /^(\d+)(ms|s|m|h|d)$/ and scaled. `Number(match[1]) * factor` is exact below 2^53 and is
-- monotone above, so testing the exact product against the safe range gives what the code's
-- test of the rounded product gives. Fractional numbers as an input are not modelled.
pub mod Grammar
use safecache.Base.{
  ℕ, zero, suc, ◌+◌, ◌-◌, ◌*◌, ◌≤◌, Bool, true, false, ◌&&◌, ◌||◌, List, [], ◌∷◌, Option, none,
  some, leb, if◌then◌else◌,
}
use safecache.Text.{Text, codes, text_eq}
use safecache.Result.{Result, ok, throw}

-- A JavaScript number that is integral, infinite or NaN; `negative n` is -(n + 1).
pub data JsNumber : Type 0 where
  nan infinity neg_infinity : JsNumber
  negative : ℕ → JsNumber
  nat : ℕ → JsNumber

pub data DurationInput : Type 0 where
  number : JsNumber → DurationInput
  text : Text → DurationInput

-- The messages of the errors, each with the label that it starts with.
pub data DurationError : Type 0 where
  not_finite wrong_units unsupported_unit too_large : Text → DurationError

-- Number.MAX_SAFE_INTEGER
abbrev pub max_safe_integer : ℕ
max_safe_integer = 9007199254740991

unfoldable pub is_digit : ℕ → Bool
is_digit c = leb b'0' c && leb c b'9'

-- the group (\d+), and what follows it
unfoldable pub span_digits : Text → Text × Text
span_digits [] = ([], [])
span_digits (c ∷ s) = let (ds, u) = span_digits s in if is_digit c then (c ∷ ds, u) else ([], c ∷ s)

-- the group (ms|s|m|h|d), up to the end
unfoldable pub is_unit : Text → Bool
is_unit u =
    text_eq u (codes "ms")
    || (text_eq u (codes "s")
        || (text_eq u (codes "m") || (text_eq u (codes "h") || text_eq u (codes "d"))))

-- `DURATION_PATTERN.exec(input)`: the two groups
unfoldable pub exec_pattern : Text → Option (Text × Text)
exec_pattern input =
    let (ds, u) = span_digits input in
    elim ds [ [] ↦ none | c ∷ cs ↦ if is_unit u then some (c ∷ cs, u) else none ]

-- `Number(match[1])`
unfoldable pub number_from : ℕ → Text → ℕ
number_from acc [] = acc
number_from acc (c ∷ s) = number_from (acc * 10 + (c - b'0')) s

-- the switch on the unit
unfoldable pub factor : Text → Option ℕ
factor u =
    if text_eq u (codes "ms")
    then some 1
    else if text_eq u (codes "s")
    then some 1000
    else if text_eq u (codes "m")
    then some 60000
    else if text_eq u (codes "h")
    then some 3600000
    else if text_eq u (codes "d")
    then some 86400000
    else none

unfoldable pub parse_text : Text → Text → Result DurationError ℕ
parse_text label input = elim (exec_pattern input) [
  | none ↦ throw (wrong_units label)
  | some (ds, u) ↦ elim (factor u) [
    | none ↦ throw (unsupported_unit label)
    | some k ↦
        let result = number_from 0 ds * k in
        if leb result max_safe_integer then ok result else throw (too_large label)
  ]
]

unfoldable pub parse_duration : DurationInput → Text → Result DurationError ℕ
parse_duration (number (nat n)) label = ok n
parse_duration (number _) label = throw (not_finite label)
parse_duration (text s) label = parse_text label s
