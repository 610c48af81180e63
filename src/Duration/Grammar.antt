-- ===== src/Duration/Grammar.antt =====
-- What a duration text means, apart from the code, and that the code decides it.
use safecache.Base.{
  ℕ, ◌+◌, ◌-◌, ◌*◌, ◌≡◌, ◌≢◌, refl, ap, ◌⊎◌, inl, inr, true, [], ◌∷◌, ◌++◌, some, arith, leb,
  if◌then◌else◌, All, Bool-cases, Option-cases,
}
use safecache.Text.{Text, codes, text_eq, text_eq_iff}
use safecache.Result.{ok, throw}
use safecache.Duration.{
  wrong_units, too_large, max_safe_integer, is_digit, span_digits, is_unit, exec_pattern,
  number_from, factor, parse_text,
}

pub data TimeUnit : Type 0 where
  milliseconds seconds minutes hours days : TimeUnit

abbrev pub unit_text : TimeUnit → Text
unit_text milliseconds = codes "ms"
unit_text seconds = codes "s"
unit_text minutes = codes "m"
unit_text hours = codes "h"
unit_text days = codes "d"

abbrev pub unit_ms : TimeUnit → ℕ
unit_ms milliseconds = 1
unit_ms seconds = 1000
unit_ms minutes = 60 * 1000
unit_ms hours = 60 * (60 * 1000)
unit_ms days = 24 * (60 * (60 * 1000))

-- The value of decimal digits, most significant first.
abbrev pub value : Text → ℕ → ℕ
value [] n = n
value (c ∷ ds) n = value ds (n * 10 + (c - b'0'))

-- The text is decimal digits and a unit, and stands for this many milliseconds.
pub record Denotes (input : Text) (n : ℕ) : Type 0 where
  pub digits : Text
  pub unit : TimeUnit
  pub nonempty : digits ≢ []
  pub decimal : All (λ c. is_digit c ≡ true) digits
  pub layout : input ≡ digits ++ unit_text unit
  pub meaning : n ≡ value digits 0 * unit_ms unit

number_from-value : (ds : Text) (n : ℕ) → number_from n ds ≡ value ds n
unfolding number_from
number_from-value [] n = refl
number_from-value (c ∷ ds) n = number_from-value ds (n * 10 + (c - b'0'))

factor-unit_text : (t : TimeUnit) → factor (unit_text t) ≡ some (unit_ms t)
unfolding factor text_eq
factor-unit_text milliseconds = refl
factor-unit_text seconds = refl
factor-unit_text minutes = refl
factor-unit_text hours = refl
factor-unit_text days = refl

is_unit-unit_text : (t : TimeUnit) → is_unit (unit_text t) ≡ true
unfolding is_unit text_eq
is_unit-unit_text milliseconds = refl
is_unit-unit_text seconds = refl
is_unit-unit_text minutes = refl
is_unit-unit_text hours = refl
is_unit-unit_text days = refl

-- A text that passes the unit group is one of the five units.
unit_of_is_unit : (u : Text) → is_unit u ≡ true → (t : TimeUnit) × (u ≡ unit_text t)
unfolding is_unit
unit_of_is_unit u e = elim (Bool-cases (text_eq u (codes "ms"))) [
  | inl p ↦ (milliseconds, (text_eq_iff u (codes "ms")).0 p)
  | inr not_ms ↦ elim (Bool-cases (text_eq u (codes "s"))) [
    | inl p ↦ (seconds, (text_eq_iff u (codes "s")).0 p)
    | inr not_s ↦ elim (Bool-cases (text_eq u (codes "m"))) [
      | inl p ↦ (minutes, (text_eq_iff u (codes "m")).0 p)
      | inr not_m ↦ elim (Bool-cases (text_eq u (codes "h"))) [
        | inl p ↦ (hours, (text_eq_iff u (codes "h")).0 p)
        | inr not_h ↦ (days, (text_eq_iff u (codes "d")).0 (ground arith))
      ]
    ]
  ]
]

span_digits-unit_text : (t : TimeUnit) → span_digits (unit_text t) ≡ ([], unit_text t)
unfolding span_digits is_digit
span_digits-unit_text milliseconds = refl
span_digits-unit_text seconds = refl
span_digits-unit_text minutes = refl
span_digits-unit_text hours = refl
span_digits-unit_text days = refl

span_digits-append :
    (ds : Text) (t : TimeUnit)
    → All (λ c. is_digit c ≡ true) ds
    → span_digits (ds ++ unit_text t) ≡ (ds, unit_text t)
unfolding span_digits
span_digits-append [] t a = span_digits-unit_text t
span_digits-append (c ∷ ds) t a = rw (span_digits-append ds t a.1, a.0)

span_digits_lem :
    (input : Text)
    → (input ≡ (span_digits input).0 ++ (span_digits input).1)
      × All (λ c. is_digit c ≡ true) (span_digits input).0
unfolding span_digits
span_digits_lem [] = (refl, tt)
span_digits_lem (c ∷ input) = elim (Bool-cases (is_digit c)) [
  | inl p ↦ rw (p) (ap (◌∷◌ c) (span_digits_lem input).0, (p, (span_digits_lem input).1))
  | inr p ↦ rw (p) (refl, tt)
]

exec_pattern-append :
    (ds : Text) (t : TimeUnit)
    → ds ≢ []
    → All (λ c. is_digit c ≡ true) ds
    → exec_pattern (ds ++ unit_text t) ≡ some (ds, unit_text t)
unfolding exec_pattern
exec_pattern-append [] t h a = absurd (h refl)
exec_pattern-append (c ∷ ds) t h a =
    ground (arith, span_digits-append (c ∷ ds) t a, is_unit-unit_text t)

exec_pattern-groups :
    (input : Text) {r : Text × Text}
    → exec_pattern input ≡ some r
    → ((span_digits input).0 ≢ []) × (is_unit (span_digits input).1 ≡ true)
unfolding exec_pattern
exec_pattern-groups input e = ground arith

-- What the pattern accepts, the grammar gives a meaning to.
Denotes-exec :
    (input : Text) {r : Text × Text} → exec_pattern input ≡ some r → (n : ℕ) × Denotes input n
Denotes-exec input e =
    let (nonempty, passes) = exec_pattern-groups input e in
    let (layout, decimal) = span_digits_lem input in
    let (t, is_t) = unit_of_is_unit (span_digits input).1 passes in
    (
      value (span_digits input).0 0 * unit_ms t,
      record {
        digits = (span_digits input).0;
        unit = t;
        nonempty = nonempty;
        decimal = decimal;
        layout = rw (← is_t) layout;
        meaning = refl;
      },
    )

-- A text that the grammar gives a meaning to is scaled, or refused as too large.
parse_text_of_Denotes :
    (label input : Text) (n : ℕ)
    → Denotes input n
    → parse_text label input ≡ (if leb n max_safe_integer then ok n else throw (too_large label))
unfolding parse_text
parse_text_of_Denotes label input n g =
    rw (g.layout, g.meaning)
      (rw (exec_pattern-append g.digits g.unit g.nonempty g.decimal, parse_text)
        (rw (factor-unit_text, parse_text, number_from-value)))

-- Every text is in one of two cases. Either the grammar gives it one meaning, and it is scaled
-- exactly, or refused as too large when it exceeds the safe integers; or no meaning fits, and it
-- is refused for its units. So the code's own guard against an unknown unit is never reached.
pub parse_text_cases :
    (label input : Text)
    → ((n : ℕ) × Denotes input n
        × (parse_text label input
            ≡ (if leb n max_safe_integer then ok n else throw (too_large label))))
      ⊎ (((n : ℕ) → ¬ Denotes input n) × (parse_text label input ≡ throw (wrong_units label)))
parse_text_cases label input = elim (Option-cases (exec_pattern input)) [
  | inl miss ↦ inr (
    (λ n g.
        cc (ap exec_pattern g.layout, exec_pattern-append g.digits g.unit g.nonempty g.decimal)),
    unfold parse_text in rw (miss, parse_text),
  )
  | inr (r, hit) ↦
      let (n, g) = Denotes-exec input hit in inl (n, g, parse_text_of_Denotes label input n g)
]
