-- ===== src/ChangeStreams/Watch/Live.antt =====
-- A collection of packages/mongodb-streams/src/index.ts under any sequence of events.
use safecache.Base.{
  ℕ, ◌≤◌, ◌≡◌, refl, Bool, true, false, not, ◌||◌, Option, none, some, arith, Bool-cases, inl, inr,
}
use safecache.Result.{Result, ok, throw}
use safecache.Cache.Types.{Error}
use safecache.Cache.Exec.{modify}
use safecache.Cache.Exec.Rules.{
  Preserves, Preserves-bind, Preserves-modify, Preserves-update, Preserves-pure, Preserves-lift,
  Preserves-attempt, preserves_rules,
}
use safecache.ChangeStreams.Resumable.{StreamError, is_non_resumable_change_stream_error}
use safecache.ChangeStreams.Mapping.{MongoChangeEvent, MongoCollectionConfig}
use safecache.ChangeStreams.Watch.{
  Reconnect, CollectionState, StreamEnv, change_failed, notify, delay_after, is_waiting,
  forget_dead_token, schedule_reconnect, handle_stream_error, settle_watch, start_watch, fire,
  run_reconnect, shutdown,
}
use safecache.ChangeStreams.Change.{
  await_call, advance, invalidate_for, refuse_delete, handle_change, settle_change, on_change,
}

-- A collection that is not shut down has a stream or will watch again, no later than the maximal
-- delay; one that is shut down has no timer.
pub record IsLive {World Token : Type 0} (reconnect : Reconnect) (s : CollectionState World Token)
    : Type 0 where
  pub stopped : s.is_closed ≡ true → s.reconnect_timer ≡ none
  pub going :
      s.is_closed ≡ false
      → reconnect.enabled ≡ true
      → (s.has_stream || is_waiting s.reconnect_timer) ≡ true
  pub bounded : (delay : ℕ) → s.reconnect_timer ≡ some delay → delay ≤ reconnect.max_delay_ms

module _ {World V Token : Type 0} (env : StreamEnv World Token) (reconnect : Reconnect)
    (config : MongoCollectionConfig V Token) (propagate : Bool) where
  -- what may happen to a collection
  pub data Step : CollectionState World Token → CollectionState World Token → Type 0 where
    changes :
        (s : CollectionState World Token) (change : MongoChangeEvent V Token)
        → Step s (on_change env config propagate change s).1
    fails :
        (s : CollectionState World Token) (e : StreamError)
        → Step s (handle_stream_error reconnect e s)
    fires : (s : CollectionState World Token) → Step s (run_reconnect env reconnect s)
    stops : (s : CollectionState World Token) → Step s (shutdown s)

  -- the states that `setup` and any events lead to
  pub data Reachable : CollectionState World Token → Type 0 where
    sets_up :
        (s : CollectionState World Token)
        → s.reconnect_timer ≡ none
        → s.is_closed ≡ false
        → Reachable (start_watch env reconnect s)
    then_step : (s s' : CollectionState World Token) → Reachable s → Step s s' → Reachable s'

delay_after-le :
    (reconnect : Reconnect) (attempts : ℕ) → delay_after reconnect attempts ≤ reconnect.max_delay_ms
unfolding delay_after
delay_after-le reconnect attempts = ground arith

module _ {World Token : Type 0} (reconnect : Reconnect) where
  -- what is left of the invariant while a collection has neither a stream nor a new timer
  pub record IsIdle (s : CollectionState World Token) : Type 0 where
    pub stopped : s.is_closed ≡ true → s.reconnect_timer ≡ none
    pub bounded : (delay : ℕ) → s.reconnect_timer ≡ some delay → delay ≤ reconnect.max_delay_ms

  schedule_reconnect-IsLive :
      (s : CollectionState World Token)
      → IsIdle s
      → IsLive reconnect (schedule_reconnect reconnect s)
  unfolding schedule_reconnect is_waiting
  schedule_reconnect-IsLive s idle =
      elim (Bool-cases (not reconnect.enabled || s.is_closed || is_waiting s.reconnect_timer)) [
        | inl stays ↦ rw stays (record {
          stopped = idle.stopped;
          going = λ closed enabled. ground arith;
          bounded = idle.bounded;
        })
        | inr schedules ↦ rw schedules (record {
          stopped = λ closed. ground arith;
          going = λ closed enabled. ground arith;
          bounded = λ delay same. ground (arith, delay_after-le reconnect s.reconnect_attempts);
        })
      ]

  pub handle_stream_error-IsLive :
      (e : StreamError) (s : CollectionState World Token)
      → IsIdle s
      → IsLive reconnect (handle_stream_error reconnect e s)
  unfolding handle_stream_error forget_dead_token
  handle_stream_error-IsLive e s idle = elim (Bool-cases (is_non_resumable_change_stream_error e)) [
    | inl dead ↦
        rw dead
          (schedule_reconnect-IsLive _ (record { stopped = idle.stopped; bounded = idle.bounded }))
    | inr alive ↦
        rw alive
          (schedule_reconnect-IsLive _ (record { stopped = idle.stopped; bounded = idle.bounded }))
  ]

module _ {World Token : Type 0} (env : StreamEnv World Token) (reconnect : Reconnect) where
  settle_watch-IsLive :
      (r : Result StreamError (Unit {0})) (s : CollectionState World Token)
      → IsIdle reconnect s
      → IsLive reconnect (settle_watch env reconnect r s)
  unfolding settle_watch
  settle_watch-IsLive (ok _) s idle = record {
    stopped = idle.stopped;
    going = λ closed enabled. refl;
    bounded = idle.bounded;
  }
  settle_watch-IsLive (throw e) s idle = handle_stream_error-IsLive reconnect e s idle

  pub start_watch-IsLive :
      (s : CollectionState World Token)
      → s.reconnect_timer ≡ none
      → IsLive reconnect (start_watch env reconnect s)
  unfolding start_watch
  start_watch-IsLive s no_timer = elim (Bool-cases s.is_closed) [
    | inl closed ↦ rw closed (record {
      stopped = λ _. no_timer;
      going = λ running enabled. ground arith;
      bounded = λ delay same. cc;
    })
    | inr going ↦
        rw going
          (settle_watch-IsLive _ _ (record { stopped = λ _. no_timer; bounded = λ delay same. cc }))
  ]

  fire-IsLive :
      (timer : Option ℕ) (s : CollectionState World Token)
      → IsLive reconnect s
      → IsLive reconnect (fire env reconnect timer s)
  unfolding fire
  fire-IsLive none s live = live
  fire-IsLive (some delay) s live = start_watch-IsLive _ refl

  module _
      (others_live : (s : CollectionState World Token)
        → IsLive reconnect s
        → IsLive reconnect (env.others s)) where
    await_call-IsLive :
        (call : World → Result Error (Unit {0}) × World)
        → Preserves (IsLive reconnect) (await_call env call)
    unfolding await_call
    await_call-IsLive call =
        Preserves-bind _ _
          (Preserves-update _ (λ s live.
            others_live _
              (record { stopped = live.stopped; going = live.going; bounded = live.bounded })))
          (λ r. Preserves-lift r)

    advance-IsLive : (token : Option Token) → Preserves (IsLive reconnect) (advance env token)
    unfolding advance
    advance-IsLive none = Preserves-pure tt
    advance-IsLive (some token) =
        Preserves-bind _ _
          (Preserves-modify _ (λ s live. record {
            stopped = live.stopped;
            going = live.going;
            bounded = live.bounded;
          }))
          (λ _. await_call-IsLive _)

    module _ {V : Type 0} (config : MongoCollectionConfig V Token) (propagate : Bool) where
      report-IsLive :
          (e : Error)
          → Preserves
              (IsLive {World = World} {Token = Token} reconnect)
              (modify (notify (change_failed e)))
      unfolding notify
      report-IsLive e =
          Preserves-modify _ (λ s live. record {
            stopped = live.stopped;
            going = live.going;
            bounded = live.bounded;
          })

      settle_change-IsLive :
          (r : Result Error (Unit {0}))
          → Preserves (IsLive reconnect) (settle_change env config propagate r)
      unfolding settle_change
      settle_change-IsLive (ok _) = Preserves-pure tt
      settle_change-IsLive (throw e) = report-IsLive e

      handle_change-IsLive :
          (change : MongoChangeEvent V Token)
          → Preserves (IsLive reconnect) (handle_change env config propagate change)
      unfolding handle_change invalidate_for refuse_delete
      handle_change-IsLive change =
          search (preserves_rules, report-IsLive, await_call-IsLive, advance-IsLive) depth 8

      on_change-IsLive :
          (change : MongoChangeEvent V Token)
          → Preserves (IsLive reconnect) (on_change env config propagate change)
      unfolding on_change
      on_change-IsLive change =
          Preserves-bind _ _ (Preserves-attempt _ (handle_change-IsLive change))
            settle_change-IsLive

      Step-IsLive :
          (s s' : CollectionState World Token)
          → Step env reconnect config propagate s s'
          → IsLive reconnect s
          → IsLive reconnect s'
      unfolding shutdown
      Step-IsLive _ _ (changes s change) live = (on_change-IsLive change).through s live
      Step-IsLive _ _ (fails s e) live =
          handle_stream_error-IsLive reconnect e s
            (record { stopped = live.stopped; bounded = live.bounded })
      Step-IsLive _ _ (fires s) live = fire-IsLive s.reconnect_timer s live
      Step-IsLive _ _ (stops s) live = record {
        stopped = λ _. refl;
        going = λ running enabled. ground arith;
        bounded = λ delay same. ground arith;
      }

      -- Whatever changes, errors, timers and a shutdown happen to a collection that was set up,
      -- in any order: while it is not shut down and reconnecting is enabled, it has a stream or a
      -- timer that will watch again, no later than the maximal delay, so invalidations do not stop
      -- for good; once it is shut down it has no timer.
      pub Reachable-IsLive :
          (s : CollectionState World Token)
          → Reachable env reconnect config propagate s
          → IsLive reconnect s
      Reachable-IsLive _ (sets_up s' no_timer running) = start_watch-IsLive s' no_timer
      Reachable-IsLive _ (then_step s s' before step) =
          Step-IsLive s s' step (Reachable-IsLive s before)
