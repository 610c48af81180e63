-- ===== src/Outbox/Rows.antt =====
-- The table of packages/postgres-outbox/src/index.ts and what its statements do to it. Times are
-- natural numbers, ids too.
use safecache.Base.{
  ℕ, zero, suc, ◌+◌, ◌&&◌, not, Bool, true, false, Option, none, some, List, [], ◌∷◌, ltb, leb,
  nat_eq, nat_has_eq, if◌then◌else◌,
}
use safecache.Text.{Text}
use safecache.JsSet

-- One row; the payload is what the column holds.
pub record Row (Payload : Type 0) : Type 0 where
  pub id : ℕ
  pub payload : Payload
  pub created_at : ℕ
  pub processed_at : Option ℕ
  pub claimed_at : Option ℕ
  pub retry_count : ℕ
  pub last_error : Option Text

-- `claimed_at is null or claimed_at < boundary`
unfoldable pub is_unleased : ℕ → Option ℕ → Bool
is_unleased boundary none = true
is_unleased boundary (some t) = ltb t boundary

-- `retry_count < maxRetries`, where there is such an option
unfoldable pub below_cap : Option ℕ → ℕ → Bool
below_cap none retry_count = true
below_cap (some max_retries) retry_count = ltb retry_count max_retries

unfoldable pub is_unprocessed : Option ℕ → Bool
is_unprocessed none = true
is_unprocessed (some t) = false

module _ {Payload : Type 0} where
  -- the `where` of the claim
  unfoldable pub is_claimable : Option ℕ → ℕ → Row Payload → Bool
  is_claimable max_retries boundary row =
      is_unprocessed row.processed_at
      && (is_unleased boundary row.claimed_at && below_cap max_retries row.retry_count)

  -- the rows that fit and that no other transaction has locked: `skip locked`
  unfoldable pub candidates : (Row Payload → Bool) → List (Row Payload) → List (Row Payload)
  candidates fits [] = []
  candidates fits (row ∷ rows) =
      if fits row then row ∷ candidates fits rows else candidates fits rows

  -- `order by created_at asc`
  unfoldable pub insert_by_age : Row Payload → List (Row Payload) → List (Row Payload)
  insert_by_age row [] = row ∷ []
  insert_by_age row (other ∷ rows) =
      if leb row.created_at other.created_at
      then row ∷ other ∷ rows
      else other ∷ insert_by_age row rows

  unfoldable pub oldest_first : List (Row Payload) → List (Row Payload)
  oldest_first [] = []
  oldest_first (row ∷ rows) = insert_by_age row (oldest_first rows)

  -- `limit`
  unfoldable pub limit : ℕ → List (Row Payload) → List (Row Payload)
  limit zero rows = []
  limit (suc n) [] = []
  limit (suc n) (row ∷ rows) = row ∷ limit n rows

  -- the rows that a claim returns
  unfoldable pub claimed_rows :
      ℕ → Option ℕ → ℕ → (ℕ → Bool) → List (Row Payload) → List (Row Payload)
  claimed_rows batch_size max_retries boundary locked table = limit batch_size (
      oldest_first
        (candidates (λ row. is_claimable max_retries boundary row && not (locked row.id)) table))

  unfoldable pub ids : List (Row Payload) → List ℕ
  ids [] = []
  ids (row ∷ rows) = row.id ∷ ids rows

  -- `set claimed_at = now()` for these ids
  unfoldable pub stamp : List ℕ → ℕ → List (Row Payload) → List (Row Payload)
  stamp claimed now [] = []
  stamp claimed now (row ∷ rows) =
      (if JsSet.has claimed row.id then record row { claimed_at = some now } else row)
      ∷ stamp claimed now rows

  -- `update … where id = $1`
  unfoldable pub update_row :
      ℕ → (Row Payload → Row Payload) → List (Row Payload) → List (Row Payload)
  update_row id change [] = []
  update_row id change (row ∷ rows) =
      (if nat_eq row.id id then change row else row) ∷ update_row id change rows

  unfoldable pub processed : ℕ → Row Payload → Row Payload
  processed now row = record row { processed_at = some now; claimed_at = none; last_error = none }

  unfoldable pub dead_lettered : ℕ → Text → Row Payload → Row Payload
  dead_lettered now error row = record row {
    processed_at = some now;
    claimed_at = none;
    retry_count = row.retry_count + 1;
    last_error = some error;
  }

  unfoldable pub failed : Text → Row Payload → Row Payload
  failed error row = record row {
    claimed_at = none;
    retry_count = row.retry_count + 1;
    last_error = some error;
  }
