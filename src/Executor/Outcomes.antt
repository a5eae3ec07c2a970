-- ===== src/Executor/Outcomes.antt =====
-- How each end of `executeJob` leaves the job's record and the queue.
use oqronkit.Prelude.{
  if_holds, ℕ, ◌+◌, ◌≡◌, ◌≤◌, refl, subst, false, Option, none, some, [], ◌∷◌, Text, leb,
  Option-cases, inl, inr, leb→le,
}
use oqronkit.Job.{Job}
use oqronkit.Backoff.{Jitter, calculate_backoff}
use oqronkit.Lock.{LockAdapter, Reply, granted, refused, threw}
use oqronkit.Dependency.{Jobs}
use oqronkit.Executor.{
  ExecutionContext, effective_max_retries, backoff_of, max_delay_of, is_guaranteed, name_and_tag,
  attempts_override, first_of, PreExecutionState, capture_pre_execution_state, activate, succeeded,
  errored,
}
use oqronkit.Executor.Run.{
  HandlerResult, raised, value, Ended, Listing, World, Ran, Code, fail_attempt, again, conclude,
  run_handler, after_hook, attempt, begin, after_start, with_heartbeat, execute_job,
  discarded_message, cancelled_message,
}
use oqronkit.Executor.Outcome.{
  Outcome, Ends, SameAttempt, IsRespectful, nack_once, skip-Outcome, retry-Outcome, finalize-Ends,
}

module _ (L : LockAdapter) (list : Listing) (parse : Text → Option ℕ) (jitter : Jitter)
    (ctx : ExecutionContext) (code : Code L) where
  again-Ends :
      (job : Job) (message : Text) (before : PreExecutionState) (now most : ℕ) (old : Jobs)
      (w : World L)
      → effective_max_retries ctx job ≡ most
      → job.attempt_made ≤ most
      → (delay : Option ℕ)
      → Ends ctx job before most old (again L list parse jitter ctx code job message now w delay)
  unfolding again
  again-Ends job message before now most old w limit le none = tt
  again-Ends job message before now most old w limit le (some delay) =
      retry-Outcome L list parse jitter ctx code job message before now delay most old w limit le

  -- The record of an execution that is under way: it has the id, the attempts made and the limit.
  fail_attempt-Ends :
      (message : Text) (stack : Option Text) (ran : Ran L) (before : PreExecutionState) (now : ℕ)
      (old : Jobs)
      → Ends ctx ran.job before
          (effective_max_retries ctx ran.job)
          old
          (fail_attempt L list parse jitter ctx code message stack ran now)
  unfolding fail_attempt
  fail_attempt-Ends message stack ran before now old =
      let job : Job = record ran.job {
        stacktrace = some (elim stack [ none ↦ [] | some s ↦ s ∷ [] ]);
      } in
      let most = effective_max_retries ctx ran.job in
      let final = λ (b : Unit {0}).
        finalize-Ends L list parse jitter ctx code job (errored message) ran.aborted before now most
          old ran.world in
      if_holds (Ends ctx ran.job before most old) ran.aborted _ _ (λ a. final tt)
        (λ a.
          if_holds (Ends ctx ran.job before most old) ran.discarded _ _ (λ d. final tt)
            (λ d.
              if_holds (Ends ctx ran.job before most old) (leb ran.job.attempt_made most) _ _
                (λ le.
                  again-Ends job message before now most old ran.world refl
                    (leb→le ran.job.attempt_made most le)
                    (calculate_backoff jitter (some (backoff_of ctx job)) job.attempt_made
                      (some (max_delay_of ctx))))
                (λ gt. final tt)))

  -- The same for the record that the hooks and the handler were given.
  SameAttempt-Ends :
      (j j' : Job) (before : PreExecutionState) (old : Jobs) (r : World L × Ended)
      → SameAttempt j j'
      → Ends ctx j' before (effective_max_retries ctx j') old r
      → Ends ctx j before (effective_max_retries ctx j) old r
  SameAttempt-Ends j j' before old r (id, made, given) e =
      let first : Outcome ctx j.id before j'.attempt_made (effective_max_retries ctx j') old r.1
          r.0 =
        subst (λ i. Outcome ctx i before j'.attempt_made (effective_max_retries ctx j') old r.1 r.0)
          id e in
      let second : Outcome ctx j.id before j.attempt_made (effective_max_retries ctx j') old r.1
          r.0 =
        subst (λ n. Outcome ctx j.id before n (effective_max_retries ctx j') old r.1 r.0) made
          first in
      subst
        (λ a.
          Outcome ctx j.id before j.attempt_made
            (attempts_override a (first_of ctx.handler_config.max ctx.defaults.max 0)) old r.1 r.0)
        given second

  conclude-Ends :
      (ran : Ran L) (result : HandlerResult) (before : PreExecutionState) (now : ℕ) (old : Jobs)
      → Ends ctx ran.job before
          (effective_max_retries ctx ran.job)
          old
          (conclude L list parse jitter ctx code ran result now)
  unfolding conclude
  conclude-Ends ran (raised message stack) before now old =
      fail_attempt-Ends message stack ran before now old
  conclude-Ends ran (value v) before now old =
      let most = effective_max_retries ctx ran.job in
      if_holds (Ends ctx ran.job before most old) ran.discarded _ _
        (λ d.
          fail_attempt-Ends discarded_message (code.stack_of discarded_message) ran before now old)
        (λ d.
          if_holds (Ends ctx ran.job before most old) ran.aborted _ _
            (λ a.
              fail_attempt-Ends cancelled_message (code.stack_of cancelled_message) ran before now
                old)
            (λ a.
              finalize-Ends L list parse jitter ctx code ran.job (succeeded v) false before now most
                old ran.world))

  module _ (respectful : IsRespectful code) where
    run_handler-Ends :
        (job : Job) (before : PreExecutionState) (begun done : ℕ) (old : Jobs) (w : World L)
        → Ends ctx job before
            (effective_max_retries ctx job)
            old
            (run_handler L list parse jitter ctx code job before begun done w)
    unfolding run_handler
    run_handler-Ends job before begun done old w =
        let ran : Ran L = code.handler job w in
        if_holds (Ends ctx job before (effective_max_retries ctx job) old)
          (code.condition_allows job w) _ _
          (λ go.
            SameAttempt-Ends job ran.job before old _ (respectful.handler job w)
              (conclude-Ends ran ran.result before done old))
          (λ stop.
            skip-Outcome L list parse jitter ctx code job before 2000 begun job.attempt_made
              (effective_max_retries ctx job) old w)

    after_hook-Ends :
        (ran : Ran L) (result : HandlerResult) (before : PreExecutionState) (begun done : ℕ)
        (old : Jobs)
        → Ends ctx ran.job before
            (effective_max_retries ctx ran.job)
            old
            (after_hook L list parse jitter ctx code ran result before begun done)
    unfolding after_hook
    after_hook-Ends ran (raised message stack) before begun done old =
        fail_attempt-Ends message stack ran before done old
    after_hook-Ends ran (value v) before begun done old =
        run_handler-Ends ran.job before begun done old ran.world

    attempt-Ends :
        (job : Job) (before : PreExecutionState) (begun done : ℕ) (old : Jobs) (w : World L)
        → Ends ctx job before
            (effective_max_retries ctx job)
            old
            (attempt L list parse jitter ctx code job before begun done w)
    unfolding attempt
    attempt-Ends job before begun done old w =
        if_holds (Ends ctx job before (effective_max_retries ctx job) old)
          (code.limiter_allows job w) _ _
          (λ go. elim (Option-cases code.before_run) [
            | inl none_given ↦ rw none_given (run_handler-Ends job before begun done old w)
            | inr (h, given) ↦ rw given (
                SameAttempt-Ends job (h job w).job before old _ (respectful.hook h job w given)
                  (after_hook-Ends (h job w) (h job w).result before begun done old))
          ])
          (λ stop.
            skip-Outcome L list parse jitter ctx code job before 1000 begun job.attempt_made
              (effective_max_retries ctx job) old w)

    begin-Ends :
        (job : Job) (begun done : ℕ) (old : Jobs) (w : World L)
        → let r = begin L list parse jitter ctx code job begun done w in
          Outcome ctx job.id
            (capture_pre_execution_state job)
            (job.attempt_made + 1)
            (effective_max_retries ctx job)
            old
            r.1
            r.0
    unfolding begin activate
    begin-Ends job begun done old w =
        attempt-Ends (activate ctx.worker_id begun job) (capture_pre_execution_state job) begun done
          old _

    after_start-Ends :
        (job : Job) (begun done : ℕ) (w : World L) (reply : Reply)
        → let r = after_start L list parse jitter ctx code job begun done w reply in
          Outcome ctx job.id
            (capture_pre_execution_state job)
            (job.attempt_made + 1)
            (effective_max_retries ctx job)
            w.jobs
            r.1
            r.0
    unfolding after_start
    after_start-Ends job begun done w granted = begin-Ends job begun done w.jobs _
    after_start-Ends job begun done w refused =
        (refl, nack_once ctx.handler_config.name job.id none job.priority begun w.broker)
    after_start-Ends job begun done w threw = tt

    -- The contract of `executeJob`, for any lock, storage listing and limiter, and any hook and
    -- handler that leave the id, the attempts made and the attempts allowed alone. Not acquired: no
    -- record changed, the job queued once. Skipped: the status, the worker, the dates of the start
    -- and of the processing, the attempts made and the timeline of the record are those before the
    -- claim, and the job is queued once. Retried: the record delayed, with one attempt more, within
    -- the limit, and queued once. Cancelled: the record stays cancelled. Finished: the record has
    -- the final status and one attempt more, or it is pruned. After every end but `not_acquired`
    -- and a throw, the heartbeat and the abort controller are forgotten.
    pub execute_job-Outcome :
        (job : Job) (begun done : ℕ) (w : World L)
        → Outcome ctx job.id
            (capture_pre_execution_state job)
            (job.attempt_made + 1)
            (effective_max_retries ctx job)
            w.jobs
            (execute_job L list parse jitter ctx code job begun done w).1
            (execute_job L list parse jitter ctx code job begun done w).0
    unfolding execute_job with_heartbeat name_and_tag capture_pre_execution_state
    execute_job-Outcome job begun done w =
        if_holds
          (λ (r : World L × Ended).
            Outcome ctx job.id (capture_pre_execution_state job) (job.attempt_made + 1)
              (effective_max_retries ctx job) w.jobs r.1 r.0)
          (is_guaranteed ctx) _ _ (λ g. after_start-Ends (name_and_tag ctx job) begun done _ _)
          (λ g. begin-Ends (name_and_tag ctx job) begun done w.jobs w)
