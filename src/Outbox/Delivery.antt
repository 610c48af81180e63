-- ===== src/Outbox/Delivery.antt =====
-- Why a row may be marked processed by a poll of the outbox.
pub mod Poll
use safecache.Base.{
  ℕ, ◌≡◌, ◌≢◌, refl, sym, subst, ◌∙◌, Bool, true, false, not, ◌&&◌, ◌||◌, Option, none, some, List,
  [], ◌∷◌, nat_eq, nat_eq_iff, nat_has_eq, if◌then◌else◌, All, arith, Bool-cases, inl, inr,
}
use safecache.Result.{Result, ok, throw}
use safecache.JsSet
use safecache.Cache.Types.{Error}
use safecache.Cache.Exec.{
  Exec, pure, raise, lift, gets, update, attempt, modify, finally, ◌>>=◌, ◌>>◌,
}
use safecache.Cache.Exec.Rules.{
  Preserves, Preserves-bind, Preserves-bind_when, Preserves-modify, Preserves-update,
  Preserves-pure, Preserves-raise, Preserves-attempt, Preserves-if, Preserves-finally,
  Preserves-gets, preserves_rules,
}
use safecache.Cache.Exec.Yields.{
  Yields, OkAll, Yields-pure, Yields-raise, Yields-gets, Yields-attempt, Yields-bind, Yields-any,
}
use safecache.Outbox.Lease.{claimed_rows-All}
use safecache.Outbox.Rows.{Row, stamp, update_row, processed, dead_lettered, failed}
use safecache.Outbox.Payload.{Payload, CacheOutboxInvalidation}
use safecache.Outbox.Database.{
  OutboxEnv, OutboxState, PostgresOutboxOptions, PollResult, OutboxFailure, parse, cache, Reply,
  done, refused, lost, Operation, notify, read_world, wait, settle_reply, execute, mark,
}
use safecache.Outbox.Worker.{
  run_invalidation, map_row, claim, settle_claim, claim_batch, invalidate_mapped, is_parse,
  error_of, is_exhausted, is_dead, failure_change, mark_failure, settle_mark, notify_dead,
  settle_failure, settle_delivered, settle_row, dispatch, claim_and_dispatch, poll, propagate,
}

-- A reason to mark a row processed: its invalidations were all carried out, its payload has no
-- meaning, or its delivery failed once more and the attempts are used up.
pub data Handled {World : Type 0} (env : OutboxEnv World) (options : PostgresOutboxOptions)
    (row : Row Payload) : Type 0 where
  delivered :
      (inv : CacheOutboxInvalidation) (w : World)
      → map_row env options row.payload ≡ ok inv
      → (run_invalidation env options inv w).0 ≡ ok tt
      → Handled env options row
  unparsable : (e : Error) → map_row env options row.payload ≡ throw e → Handled env options row
  exhausted :
      (inv : CacheOutboxInvalidation) (w : World) (e : Error)
      → map_row env options row.payload ≡ ok inv
      → (run_invalidation env options inv w).0 ≡ throw e
      → is_exhausted env options row.retry_count ≡ true
      → Handled env options row

-- What is known of a row's id, payload and number of attempts.
abbrev pub About : (ℕ → Payload → ℕ → Type 0) → Row Payload → Type 0
About Known row = Known row.id row.payload row.retry_count

-- `Known` holds of each row of the table, and `P` of the id of each processed one.
abbrev pub Accounted : (ℕ → Payload → ℕ → Type 0) → (ℕ → Type 0) → List (Row Payload) → Type 0
Accounted Known P = All (λ row. About Known row × (row.processed_at ≢ none → P row.id))

About-Accounted :
    (Known : ℕ → Payload → ℕ → Type 0) (P : ℕ → Type 0) (rows : List (Row Payload))
    → Accounted Known P rows
    → All (About Known) rows
About-Accounted Known P [] h = tt
About-Accounted Known P (row ∷ rows) h = (h.0.0, About-Accounted Known P rows h.1)

Accounted-stamp :
    (Known : ℕ → Payload → ℕ → Type 0) (P : ℕ → Type 0) (claimed : List ℕ) (now : ℕ)
    (rows : List (Row Payload))
    → Accounted Known P rows
    → Accounted Known P (stamp claimed now rows)
unfolding stamp
Accounted-stamp Known P claimed now [] h = tt
Accounted-stamp Known P claimed now (row ∷ rows) h = elim (Bool-cases (JsSet.has claimed row.id)) [
  | inl taken ↦ rw taken (h.0, Accounted-stamp Known P claimed now rows h.1)
  | inr left ↦ rw left (h.0, Accounted-stamp Known P claimed now rows h.1)
]

-- A change that keeps the id, and processes a row only for a reason.
Accounted-update_row :
    (Known : ℕ → Payload → ℕ → Type 0) (P : ℕ → Type 0) (id : ℕ)
    (change : Row Payload → Row Payload) (rows : List (Row Payload))
    → ((row : Row Payload) → (change row).id ≡ row.id)
    → ((row : Row Payload) → About Known row → About Known (change row))
    → ((row : Row Payload)
        → (row.processed_at ≢ none → P id)
        → (change row).processed_at ≢ none
        → P id)
    → Accounted Known P rows
    → Accounted Known P (update_row id change rows)
unfolding update_row
Accounted-update_row Known P id change [] same keeps reason h = tt
Accounted-update_row Known P id change (row ∷ rows) same keeps reason h =
    elim (Bool-cases (nat_eq row.id id)) [
      | inl here ↦
          let e : row.id ≡ id = (nat_eq_iff row.id id).0 here in
          rw here (
            (
              keeps row h.0.0,
              λ p. subst P (sym (same row ∙ e)) (reason row (λ q. subst P e (h.0.1 q)) p),
            ),
            Accounted-update_row Known P id change rows same keeps reason h.1,
          )
      | inr there ↦
          rw there (h.0, Accounted-update_row Known P id change rows same keeps reason h.1)
    ]

module _ {World : Type 0} (env : OutboxEnv World) (options : PostgresOutboxOptions)
    (Known : ℕ → Payload → ℕ → Type 0) (P : ℕ → Type 0)
    (others_fine : (table : List (Row Payload))
      → Accounted Known P table
      → Accounted Known P (env.others table)) where
  unfoldable pub Fine : OutboxState World → Type 0
  Fine s = Accounted Known P s.table

  pub notify-Fine : (o : Operation) (e : Error) → Preserves Fine (notify o e)
  unfolding notify Fine
  notify-Fine o e = Preserves-modify _ (λ s h. h)

  pub read_world-Fine {κ} : {A : Type κ} (f : World → A × World) → Preserves Fine (read_world f)
  unfolding read_world Fine
  read_world-Fine f = Preserves-update _ (λ s h. h)

  pub wait-Fine : Preserves Fine (wait env)
  unfolding wait Fine
  wait-Fine = Preserves-modify _ (λ s h. others_fine s.table h)

  -- a statement whose change keeps the rows accounted for
  KeepsRows : (List (Row Payload) → List (Row Payload)) → Type 0
  KeepsRows change =
      (table : List (Row Payload)) → Accounted Known P table → Accounted Known P (change table)

  settle_reply-Fine :
      (change : List (Row Payload) → List (Row Payload)) (answer : Reply)
      → KeepsRows change
      → Preserves Fine (settle_reply env change answer)
  unfolding settle_reply Fine KeepsRows
  settle_reply-Fine change done keeps = Preserves-modify _ (λ s h. keeps s.table h)
  settle_reply-Fine change (refused e) keeps = Preserves-raise e
  settle_reply-Fine change (lost e) keeps =
      Preserves-bind _ _ (Preserves-modify _ (λ s h. keeps s.table h)) (λ _. Preserves-raise e)

  execute-Fine :
      (change : List (Row Payload) → List (Row Payload))
      → KeepsRows change
      → Preserves Fine (execute env change)
  unfolding execute
  execute-Fine change keeps = Preserves-bind _ _ wait-Fine (λ _.
      Preserves-bind _ _ (read_world-Fine _) (λ answer. settle_reply-Fine change answer keeps))

  nothing-Fine : KeepsRows (λ table. table)
  unfolding KeepsRows
  nothing-Fine table h = h

  stamp-Fine : (claimed : List ℕ) (now : ℕ) → KeepsRows (stamp claimed now)
  unfolding KeepsRows
  stamp-Fine claimed now table h = Accounted-stamp Known P claimed now table h

  pub mark-Fine :
      (id : ℕ) (change : ℕ → Row Payload → Row Payload)
      → ((now : ℕ) (row : Row Payload) → (change now row).id ≡ row.id)
      → ((now : ℕ) (row : Row Payload) → About Known row → About Known (change now row))
      → ((now : ℕ) (row : Row Payload)
          → (row.processed_at ≢ none → P id)
          → (change now row).processed_at ≢ none
          → P id)
      → Preserves Fine (mark env id change)
  unfolding mark KeepsRows
  mark-Fine id change same keeps reason = Preserves-bind _ _ (read_world-Fine _) (λ now.
      execute-Fine _ (λ table h.
        Accounted-update_row Known P id (change now) table (same now) (keeps now) (reason now) h))

  claim-Fine : Preserves Fine (claim env options)
  unfolding claim
  claim-Fine = Preserves-bind _ _ (read_world-Fine _) (λ now.
      Preserves-bind _ _ (execute-Fine _ nothing-Fine) (λ _.
        Preserves-bind _ _ (read_world-Fine _) (λ stamped.
          Preserves-bind _ _ (Preserves-gets _) (λ s.
            Preserves-bind _ _ (execute-Fine _ (stamp-Fine _ stamped)) (λ _. Preserves-pure _)))))

  -- the claimed rows come from the table
  claim-Known : Yields Fine (All (About Known)) (claim env options)
  unfolding claim Fine
  claim-Known = Yields-bind _ _ (read_world-Fine _) (Yields-any _) (λ now _.
      Yields-bind _ _ (execute-Fine _ nothing-Fine) (Yields-any _) (λ _ _.
        Yields-bind _ _ (read_world-Fine _) (Yields-any _) (λ stamped _.
          Yields-bind _ _ (Preserves-gets _)
            (Yields-gets {Q = λ s. All (About Known) s.table} _
              (λ s held. About-Accounted Known P s.table held))
            (λ s known.
              Yields-bind _ _ (execute-Fine _ (stamp-Fine _ stamped)) (Yields-any _)
                (λ _ _. Yields-pure _ (claimed_rows-All (About Known) _ _ _ _ s.table known))))))

  settle_claim-Known :
      (r : Result Error (List (Row Payload)))
      → OkAll (All (About Known)) r
      → Yields Fine (All (About Known)) (settle_claim env options r)
  unfolding settle_claim
  settle_claim-Known (ok rows) known = Yields-pure rows known
  settle_claim-Known (throw e) known =
      Yields-bind _ _ (Preserves-attempt _ (execute-Fine _ nothing-Fine)) (Yields-any _)
        (λ _ _. Yields-raise e)

  pub claim_batch-Known : Yields Fine (All (About Known)) (claim_batch env options)
  unfolding claim_batch
  claim_batch-Known = Yields-bind _ _ (execute-Fine _ nothing-Fine) (Yields-any _) (λ _ _.
      Yields-bind _ _ (Preserves-attempt _ claim-Fine) (Yields-attempt _ claim-Known)
        settle_claim-Known)

  settle_claim-Fine :
      (r : Result Error (List (Row Payload))) → Preserves Fine (settle_claim env options r)
  unfolding settle_claim
  settle_claim-Fine (ok rows) = Preserves-pure rows
  settle_claim-Fine (throw e) =
      Preserves-bind _ _ (Preserves-attempt _ (execute-Fine _ nothing-Fine))
        (λ _. Preserves-raise e)

  pub claim_batch-Fine : Preserves Fine (claim_batch env options)
  unfolding claim_batch
  claim_batch-Fine =
      Preserves-bind _ _ (execute-Fine _ nothing-Fine)
        (λ _. Preserves-bind _ _ (Preserves-attempt _ claim-Fine) settle_claim-Fine)

  pub settle_mark-Fine : (r : Result Error (Unit {0})) → Preserves Fine (settle_mark env options r)
  unfolding settle_mark
  settle_mark-Fine (ok _) = Preserves-pure true
  settle_mark-Fine (throw e) = Preserves-bind _ _ (notify-Fine _ e) (λ _. Preserves-pure false)

  pub notify_dead-Fine :
      (dead : Bool) (f : OutboxFailure) → Preserves Fine (notify_dead env options dead f)
  unfolding notify_dead
  notify_dead-Fine true f = notify-Fine _ _
  notify_dead-Fine false f = Preserves-pure tt
