-- ===== src/Executor/Preflight.antt =====
-- engine/utils/job-executor.ts, the first loop of `executeBatch`: what becomes of each job before
-- `processBatch` is called.
use oqronkit.Prelude.{
  ℕ, Bool, false, Option, none, some, List, [], ◌∷◌, Text, or_else, if◌then◌else◌,
}
use oqronkit.Job.{Job}
use oqronkit.Backoff.{Jitter}
use oqronkit.Lock.{LockAdapter}
use oqronkit.Executor.{
  ExecutionContext, PreExecutionState, capture_pre_execution_state, restore_pre_execution_state,
  activate,
}
use oqronkit.Executor.Run.{
  Listing, HandlerResult, value, raised, World, Ran, Code, save, requeue, drop_key,
}

-- A job of the batch after the handler: its record, and whether it was discarded or aborted.
pub record BatchEntry : Type 0 where
  pub job : Job
  pub discarded : Bool
  pub aborted : Bool

pub data BatchResult : Type 0 where
  fulfilled : Option Text → BatchResult
  rejected : Text → BatchResult

-- What becomes of a job before `processBatch`.
pub data Preflight : Type 0 where
  ready : BatchEntry → Preflight
  rejected_early : BatchEntry → Text → Preflight
  put_back : Preflight

module _ (L : LockAdapter) (list : Listing) (parse : Text → Option ℕ) (jitter : Jitter)
    (ctx : ExecutionContext) (code : Code L) where
  abbrev pub put : Job → Option ℕ → ℕ → World L → World L
  put = requeue L list parse jitter ctx code

  abbrev pub forget : Job → World L → World L
  forget job w = record w { controllers = drop_key job.id w.controllers }

  -- A limiter or a condition refused.
  unfoldable pub put_back_job : Job → PreExecutionState → ℕ → ℕ → World L → World L
  put_back_job job before delay now w =
      let restored = restore_pre_execution_state job before in
      put restored (some delay) now (save L restored (forget job w))

  abbrev pub entry_of : Job → BatchEntry
  entry_of job = record { job = job; discarded = false; aborted = false }

  unfoldable pub check_condition : Job → PreExecutionState → ℕ → World L → World L × Preflight
  check_condition job before now w =
      if code.condition_allows job w
      then (w, ready (entry_of job))
      else (put_back_job job before 2000 now w, put_back)

  unfoldable pub after_before_run :
      Ran L → HandlerResult → PreExecutionState → ℕ → World L × Preflight
  after_before_run ran (raised message stack) before now = (
    ran.world,
    rejected_early (record { job = ran.job; discarded = ran.discarded; aborted = ran.aborted })
        message,
  )
  after_before_run ran (value v) before now = check_condition ran.job before now ran.world

  -- One turn of the first loop.
  unfoldable pub prepare_job : Job → ℕ → World L → World L × Preflight
  prepare_job job now w =
      let named : Job = record job {
        module_name = some (or_else job.module_name ctx.handler_config.name);
      } in
      let before = capture_pre_execution_state named in
      let started = activate ctx.worker_id now named in
      let saved =
        save L started (record w { controllers = job.id ∷ drop_key job.id w.controllers }) in
      if code.limiter_allows started saved
      then elim code.before_run [
        | none ↦ check_condition started before now saved
        | some hook ↦ after_before_run (hook started saved) (hook started saved).result before now
      ]
      else (put_back_job started before 1000 now saved, put_back)

  -- The jobs that are ready and those whose hook threw.
  abbrev pub add_prepared :
      Preflight
      → List BatchEntry × List (BatchEntry × BatchResult)
      → List BatchEntry × List (BatchEntry × BatchResult)
  add_prepared (ready e) (es, fs) = (e ∷ es, fs)
  add_prepared (rejected_early e message) (es, fs) = (es, (e, rejected message) ∷ fs)
  add_prepared put_back (es, fs) = (es, fs)

  unfoldable pub prepare_all :
      List Job → ℕ → World L → World L × (List BatchEntry × List (BatchEntry × BatchResult))
  prepare_all [] now w = (w, ([], []))
  prepare_all (job ∷ jobs) now w =
      let (w', p) = prepare_job job now w in
      let (w'', rest) = prepare_all jobs now w' in (w'', add_prepared p rest)
