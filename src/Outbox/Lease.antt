-- ===== src/Outbox/Lease.antt =====
-- What a claim of the outbox takes, and that a lease keeps other claims off.
use safecache.Base.{
  ℕ, zero, suc, ◌≤◌, ◌≡◌, ◌&&◌, not, Bool, true, false, Option, some, List, [], ◌∷◌, leb,
  nat_has_eq, length, All, arith, Bool-cases, inl, inr,
}
use safecache.JsSet
use safecache.Outbox.Rows.{
  Row, is_unleased, is_claimable, candidates, insert_by_age, oldest_first, limit, claimed_rows,
  stamp,
}

module _ {Payload : Type 0} (P : Row Payload → Type 0) where
  candidates-All :
      (fits : Row Payload → Bool) (rows : List (Row Payload))
      → All P rows
      → All (λ row. P row × (fits row ≡ true)) (candidates fits rows)
  unfolding candidates
  candidates-All fits [] h = tt
  candidates-All fits (row ∷ rows) h = elim (Bool-cases (fits row)) [
    | inl yes_fits ↦ rw yes_fits ((h.0, yes_fits), candidates-All fits rows h.1)
    | inr no_fit ↦ rw no_fit (candidates-All fits rows h.1)
  ]

  insert_by_age-All :
      (row : Row Payload) (rows : List (Row Payload))
      → P row
      → All P rows
      → All P (insert_by_age row rows)
  unfolding insert_by_age
  insert_by_age-All row [] p h = (p, tt)
  insert_by_age-All row (other ∷ rows) p h =
      elim (Bool-cases (leb row.created_at other.created_at)) [
        | inl older ↦ rw older (p, h)
        | inr newer ↦ rw newer (h.0, insert_by_age-All row rows p h.1)
      ]

  oldest_first-All : (rows : List (Row Payload)) → All P rows → All P (oldest_first rows)
  unfolding oldest_first
  oldest_first-All [] h = tt
  oldest_first-All (row ∷ rows) h =
      insert_by_age-All row (oldest_first rows) h.0 (oldest_first-All rows h.1)

  limit-All : (n : ℕ) (rows : List (Row Payload)) → All P rows → All P (limit n rows)
  unfolding limit
  limit-All zero rows h = tt
  limit-All (suc n) [] h = tt
  limit-All (suc n) (row ∷ rows) h = (h.0, limit-All n rows h.1)

  forget_fits :
      (fits : Row Payload → Bool) (rows : List (Row Payload))
      → All (λ row. P row × (fits row ≡ true)) rows
      → All P rows
  forget_fits fits [] h = tt
  forget_fits fits (row ∷ rows) h = (h.0.0, forget_fits fits rows h.1)

  -- What holds of every row of the table holds of the claimed ones.
  pub claimed_rows-All :
      (batch_size : ℕ) (max_retries : Option ℕ) (boundary : ℕ) (locked : ℕ → Bool)
      (table : List (Row Payload))
      → All P table
      → All P (claimed_rows batch_size max_retries boundary locked table)
  unfolding claimed_rows
  claimed_rows-All batch_size max_retries boundary locked table h =
      limit-All batch_size _ (oldest_first-All _ (forget_fits _ _ (candidates-All _ table h)))

module _ {Payload : Type 0} where
  length-limit : (n : ℕ) (rows : List (Row Payload)) → length (limit n rows) ≤ n
  unfolding limit
  length-limit zero rows = omega arith
  length-limit (suc n) [] = omega arith
  length-limit (suc n) (row ∷ rows) = omega (arith, length-limit n rows)

  -- the lease of a row that a claim stamped
  abbrev Leased : List ℕ → ℕ → Row Payload → Type 0
  Leased claimed now row = JsSet.has claimed row.id ≡ true → row.claimed_at ≡ some now

  stamp-All :
      (claimed : List ℕ) (now : ℕ) (rows : List (Row Payload))
      → All (Leased claimed now) (stamp claimed now rows)
  unfolding stamp
  stamp-All claimed now [] = tt
  stamp-All claimed now (row ∷ rows) = (ground arith, stamp-All claimed now rows)

  unclaimed :
      (claimed : List ℕ) (now : ℕ) (max_retries : Option ℕ) (boundary : ℕ) (locked : ℕ → Bool)
      (rows : List (Row Payload))
      → boundary ≤ now
      → All
          (λ row.
            Leased claimed now row
            × ((is_claimable max_retries boundary row && not (locked row.id)) ≡ true))
          rows
      → All (λ row. JsSet.has claimed row.id ≡ false) rows
  unfolding is_claimable is_unleased
  unclaimed claimed now max_retries boundary locked [] le h = tt
  unclaimed claimed now max_retries boundary locked (row ∷ rows) le h =
      (ground arith, unclaimed claimed now max_retries boundary locked rows le h.1)

  -- A claim takes no more rows than a batch, and none of the rows that another claim stamped with
  -- a time at or after this claim's lease boundary, whatever other transactions hold.
  pub leases_exclude :
      (batch_size : ℕ) (max_retries : Option ℕ) (boundary now : ℕ) (locked : ℕ → Bool)
      (claimed : List ℕ) (table : List (Row Payload))
      → boundary ≤ now
      → let rows : List (Row Payload) =
          claimed_rows batch_size max_retries boundary locked (stamp claimed now table) in
        (length rows ≤ batch_size) × All (λ row. JsSet.has claimed row.id ≡ false) rows
  unfolding claimed_rows
  leases_exclude batch_size max_retries boundary now locked claimed table le =
      let fits =
        λ (row : Row Payload). is_claimable max_retries boundary row && not (locked row.id) in
      let P = λ (row : Row Payload). Leased claimed now row × (fits row ≡ true) in
      let chosen = candidates fits (stamp claimed now table) in
      (
        length-limit batch_size (oldest_first chosen),
        unclaimed claimed now max_retries boundary locked (limit batch_size (oldest_first chosen))
            le
            (limit-All P batch_size (oldest_first chosen) (
              oldest_first-All P chosen (
                candidates-All (Leased claimed now) fits (stamp claimed now table)
                  (stamp-All claimed now table)))),
      )
