-- ===== src/Metrics/Totals.antt =====
-- The histograms against the observations they were given.
use safecache.Base.{
  ℕ, suc, ◌+◌, ◌≤◌, ◌≡◌, refl, ◌∙◌, ◌∷◌, List, [], some, length, All, arith, ◌⊎◌, inl, inr, leb,
  Bool-cases,
}
use safecache.Metrics.{Histogram, empty_histogram, observe, at_most, at_least}

pub observe_all : List ℕ → Histogram → Histogram
observe_all [] h = h
observe_all (v ∷ vs) h = observe_all vs (observe v h)

pub total : List ℕ → ℕ
total [] = 0
total (v ∷ vs) = v + total vs

-- The histogram has this lowest and this highest observation.
pub record Spans (h : Histogram) (low high : ℕ) : Type 0 where
  pub lowest : h.lowest ≡ some low
  pub highest : h.highest ≡ some high

-- The value is one of the observations.
pub Observed : ℕ → List ℕ → Type 0
Observed u [] = ⊥
Observed u (v ∷ vs) = (u ≡ v) ⊎ Observed u vs

-- what was the lowest or the highest stays so, or gives way to a later observation
kept_or_later :
    (u u' v : ℕ) (vs : List ℕ)
    → (u' ≡ u) ⊎ (u' ≡ v)
    → (w : ℕ) → (w ≡ u') ⊎ Observed w vs
    → (w ≡ u) ⊎ Observed w (v ∷ vs)
unfolding Observed
kept_or_later u u' v vs (inl same) w (inl kept) = inl (kept ∙ same)
kept_or_later u u' v vs (inr new) w (inl kept) = inr (inl (kept ∙ new))
kept_or_later u u' v vs from w (inr later) = inr (inr later)

at_most_cases : (m v : ℕ) → (at_most (some m) v ≡ m) ⊎ (at_most (some m) v ≡ v)
at_most_cases m v = elim (Bool-cases (leb m v)) [
  | inl under ↦ inl (rw under refl)
  | inr over ↦ inr (rw over refl)
]

at_least_cases : (m v : ℕ) → (at_least (some m) v ≡ m) ⊎ (at_least (some m) v ≡ v)
at_least_cases m v = elim (Bool-cases (leb m v)) [
  | inl under ↦ inr (rw under refl)
  | inr over ↦ inl (rw over refl)
]

observe_all-Spans :
    (vs : List ℕ) (h : Histogram) (low high : ℕ)
    → Spans h low high
    → (low' : ℕ) × (high' : ℕ) × Spans (observe_all vs h) low' high'
      × ((low' ≡ low) ⊎ Observed low' vs)
      × ((high' ≡ high) ⊎ Observed high' vs)
      × (low' ≤ low)
      × (high ≤ high')
      × All (λ v. (low' ≤ v) × (v ≤ high')) vs
unfolding observe_all observe
observe_all-Spans [] h low high s = (low, high, s, inl refl, inl refl, omega arith, omega arith, tt)
observe_all-Spans (v ∷ vs) h low high s =
    let once : Spans (observe v h) (at_most (some low) v) (at_least (some high) v) = record {
      lowest = rw s.lowest refl;
      highest = rw s.highest refl;
    } in
    let (low', high', s', from, to, le, ge, within) = observe_all-Spans vs (observe v h) _ _ once in
    (
      low',
      high',
      s',
      kept_or_later low _ v vs (at_most_cases low v) low' from,
      kept_or_later high _ v vs (at_least_cases high v) high' to,
      ground arith,
      ground arith,
      ((ground arith, ground arith), within),
    )

totals :
    (vs : List ℕ) (h : Histogram)
    → ((observe_all vs h).count ≡ h.count + length vs) × ((observe_all vs h).sum ≡ h.sum + total vs)
unfolding observe_all observe total
totals [] h = (omega arith, omega arith)
totals (v ∷ vs) h = let (c, s) = totals vs (observe v h) in (omega arith, omega arith)

-- After any observations, at least one, a fresh histogram has their number and their sum, and its
-- lowest and highest values are two of them that bound every one of them.
pub histogram_totals :
    (v : ℕ) (vs : List ℕ)
    → ((observe_all (v ∷ vs) empty_histogram).count ≡ suc (length vs))
      × ((observe_all (v ∷ vs) empty_histogram).sum ≡ total (v ∷ vs))
      × ((low : ℕ) × (high : ℕ) × Spans (observe_all (v ∷ vs) empty_histogram) low high
          × Observed low (v ∷ vs)
          × Observed high (v ∷ vs)
          × All (λ u. (low ≤ u) × (u ≤ high)) (v ∷ vs))
unfolding observe_all observe Observed
histogram_totals v vs =
    let (c, s) = totals (v ∷ vs) empty_histogram in
    let (low, high, span, from, to, le, ge, within) =
      observe_all-Spans vs (observe v empty_histogram) v v
        (record { lowest = refl; highest = refl }) in
    (omega arith, omega arith, (low, high, span, from, to, ((le, ge), within)))
