-- ===== src/Executor/Run.antt =====
-- engine/utils/job-executor.ts, `executeJob`, over any lock and any listing of the storage. The hooks,
-- the handler, the limiter and the condition are the caller's: what they did is an argument. The
-- clock is read as `begun` before the handler and as `done` after it. Events and logs are left out.
use oqronkit.Prelude.{
  ℕ, suc, Bool, true, false, Option, none, some, List, [], ◌∷◌, ◌++◌, Text, text, text_discrete,
  leb, if◌then◌else◌, length, ite,
}
use oqronkit.JsMap
use oqronkit.JsMap.{JsMap}
use oqronkit.Job.{Job, cancelled}
use oqronkit.Backoff.{Jitter, calculate_backoff}
use oqronkit.Broker.{Broker, ack, nack}
use oqronkit.Lock.{LockAdapter, Reply, granted, refused, threw}
use oqronkit.Heartbeat
use oqronkit.Heartbeat.{Heartbeat}
use oqronkit.Dependency.{Jobs, State, notify_children}
use oqronkit.Retention.{
  FinalStatus, StoredJob, PruneOptions, JobStore, RemoveOnConfig, prune_after_completion,
}
use oqronkit.Retention
use oqronkit.Executor.{
  ExecutionContext, lock_ttl, is_guaranteed, effective_max_retries, backoff_of, max_delay_of,
  name_and_tag, PreExecutionState, capture_pre_execution_state, restore_pre_execution_state,
  activate, delay_job, Ending, succeeded, errored, finish_job,
}

-- The value that the handler returned, or the message and the stack of what it threw; a missing
-- message is `Unknown error`.
pub data HandlerResult : Type 0 where
  value : Text → HandlerResult
  raised : Text → Option Text → HandlerResult

abbrev pub discarded_message : Text
discarded_message = text "Job discarded by handler"

abbrev pub cancelled_message : Text
cancelled_message = text "Cancelled"

-- How the call ends; it throws in `failed_call`.
pub data Ended : Type 0 where
  not_acquired skipped retried honoured failed_call : Ended
  finished : Ending → Ended

-- What the storage lists of a status and a queue, for the pruning.
abbrev pub Listing : Type 0
Listing = FinalStatus → Option Text → Jobs → List StoredJob

abbrev pub job_store : Listing → JobStore
job_store list = record {
  Store = Jobs;
  Record = Job;
  list = list;
  get = JsMap.get;
  delete = JsMap.delete;
  get-delete = JsMap.get-delete;
}

-- `delete` on a set of ids.
unfoldable pub drop_key : Text → List Text → List Text
drop_key id [] = []
drop_key id (x ∷ xs) = ite (text_discrete x id) (drop_key id xs) (x ∷ drop_key id xs)

-- A priority is passed on if there is one; a missing argument is an absent one.
abbrev pub nack_job : Text → Job → Option ℕ → ℕ → Broker → Broker
nack_job name job delay now b = nack name job.id delay job.priority now b

abbrev pub job_lock_key : ExecutionContext → Job → Text
job_lock_key ctx job = ctx.lock_prefix ++ (text ":job:" ++ job.id)

abbrev pub final_status : Ending → FinalStatus
final_status (succeeded v) = Retention.completed
final_status (errored m) = Retention.failed

abbrev pub removal : Ending → Option RemoveOnConfig → Option RemoveOnConfig → Option RemoveOnConfig
removal (succeeded v) on_complete on_fail = on_complete
removal (errored m) on_complete on_fail = on_fail

unfoldable pub prune_options : ExecutionContext → Job → Ending → PruneOptions
prune_options ctx job ending = record {
  job_id = job.id;
  status = final_status ending;
  job_remove_config = removal ending job.remove_on_complete job.remove_on_fail;
  module_remove_config =
      removal ending ctx.handler_config.remove_on_complete ctx.handler_config.remove_on_fail;
  global_remove_config = removal ending ctx.defaults.remove_on_complete ctx.defaults.remove_on_fail;
  filter_value = some ctx.handler_config.name;
}

-- With one more than the number of jobs as fuel; that is always enough.
unfoldable pub notify : ℕ → Text → State → State
notify now id s = elim (notify_children (suc (length s.jobs)) now id s) [ none ↦ s | some s' ↦ s' ]

abbrev pub has_children : Option (List Text) → Bool
has_children none = false
has_children (some []) = false
has_children (some (c ∷ cs)) = true

module _ (L : LockAdapter) where
  pub record World : Type 0 where
    pub jobs : Jobs
    pub broker : Broker
    pub lock : L.State
    -- the keys of `heartbeats` and of `abortControllers`, as sets
    pub heartbeats : List Text
    pub controllers : List Text

  -- What a hook or the handler leaves behind: the world and the record as they changed them, the result,
  -- and whether `discard` was called and the signal aborted by then.
  pub record Ran : Type 0 where
    pub world : World
    pub job : Job
    pub result : HandlerResult
    pub discarded : Bool
    pub aborted : Bool

  -- The parts of the configuration that are code, where a limiter or a condition that throws allows;
  -- and the stack that the runtime gives to an error with a message.
  pub record Code : Type 0 where
    pub limiter_allows : Job → World → Bool
    pub before_run : Option (Job → World → Ran)
    pub condition_allows : Job → World → Bool
    pub handler : Job → World → Ran
    pub stack_of : Text → Option Text

  abbrev pub save : Job → World → World
  save job w = record w { jobs = JsMap.set job.id job w.jobs }

  module _ (list : Listing) (parse : Text → Option ℕ) (jitter : Jitter) (ctx : ExecutionContext)
      (code : Code) where
    -- `heartbeat.stop()`, and the two maps forget the job.
    unfoldable pub cleanup : Job → World → World
    cleanup job w = record w {
      lock =
          if is_guaranteed ctx
          then L.release (job_lock_key ctx job) ctx.worker_id w.lock
          else w.lock;
      heartbeats = if is_guaranteed ctx then drop_key job.id w.heartbeats else w.heartbeats;
      controllers = drop_key job.id w.controllers;
    }

    abbrev pub requeue : Job → Option ℕ → ℕ → World → World
    requeue job delay now w = record w {
      broker = nack_job ctx.handler_config.name job delay now w.broker;
    }

    -- A limiter or a condition refused: the record goes back to what it was.
    unfoldable pub skip : Job → PreExecutionState → ℕ → ℕ → World → World
    skip job before delay now w =
        let restored = restore_pre_execution_state job before in
        requeue restored (some delay) now (save restored (cleanup job w))

    unfoldable pub retry : Job → Text → ℕ → ℕ → World → World
    retry job message now delay w =
        let delayed = delay_job message now delay job in
        requeue delayed (some delay) now (save delayed (cleanup job w))

    -- From `await di.storage.save` on: the record, the broker, the children, the pruning.
    unfoldable pub settle : Job → Ending → ℕ → World → World
    settle job ending now w =
        let acked = ack ctx.handler_config.name job.id w.broker in
        let saved : State = record { jobs = JsMap.set job.id job w.jobs; broker = acked } in
        let told = if has_children job.children_ids then notify now job.id saved else saved in
        record w {
          jobs =
              prune_after_completion parse (job_store list) (prune_options ctx job ending) now
                told.jobs;
          broker = told.broker;
        }

    abbrev pub is_cancelled : Option Job → Bool
    is_cancelled none = false
    is_cancelled (some fresh) = elim fresh.status [ cancelled ↦ true | _ ↦ false ]

    -- From `Clean up abort controller` on.
    unfoldable pub finalize : Job → Ending → Bool → ℕ → World → World × Ended
    finalize job ending aborted now w =
        let cleaned = cleanup job w in
        let ended : World × Ended =
          (settle (finish_job ending now job) ending now cleaned, finished ending) in
        if aborted
        then (if is_cancelled (JsMap.get job.id cleaned.jobs) then (cleaned, honoured) else ended)
        else ended

    -- A retry after the delay that `calculateBackoff` returned; what it throws leaves the call.
    unfoldable pub again : Job → Text → ℕ → World → Option ℕ → World × Ended
    again job message now w none = (w, failed_call)
    again job message now w (some delay) = (retry job message now delay w, retried)

    -- The `catch` of the attempt, and what follows it.
    unfoldable pub fail_attempt : Text → Option Text → Ran → ℕ → World × Ended
    fail_attempt message stack ran now =
        let job = record ran.job {
          stacktrace = some (elim stack [ none ↦ [] | some s ↦ s ∷ [] ]);
        } in
        let final = finalize job (errored message) ran.aborted now ran.world in
        let retrying = again job message now ran.world (
          calculate_backoff jitter (some (backoff_of ctx job)) job.attempt_made
            (some (max_delay_of ctx))) in
        if ran.aborted
        then final
        else if ran.discarded
        then final
        else if leb job.attempt_made (effective_max_retries ctx job)
        then retrying
        else final

    -- After the handler: what it returned counts unless it discarded the job or was aborted.
    unfoldable pub conclude : Ran → HandlerResult → ℕ → World × Ended
    conclude ran (raised message stack) now = fail_attempt message stack ran now
    conclude ran (value v) now =
        if ran.discarded
        then fail_attempt discarded_message (code.stack_of discarded_message) ran now
        else if ran.aborted
        then fail_attempt cancelled_message (code.stack_of cancelled_message) ran now
        else finalize ran.job (succeeded v) false now ran.world

    -- The condition and the handler.
    unfoldable pub run_handler : Job → PreExecutionState → ℕ → ℕ → World → World × Ended
    run_handler job before begun done w =
        let ran = code.handler job w in
        if code.condition_allows job w
        then conclude ran ran.result done
        else (skip job before 2000 begun w, skipped)

    -- What follows the hook: its error ends the attempt as one of the handler does.
    unfoldable pub after_hook : Ran → HandlerResult → PreExecutionState → ℕ → ℕ → World × Ended
    after_hook ran (raised message stack) before begun done = fail_attempt message stack ran done
    after_hook ran (value v) before begun done = run_handler ran.job before begun done ran.world

    -- The attempt of a job that was saved as active; `before` is what it was.
    unfoldable pub attempt : Job → PreExecutionState → ℕ → ℕ → World → World × Ended
    attempt job before begun done w =
        if code.limiter_allows job w
        then elim code.before_run [
          | none ↦ run_handler job before begun done w
          | some hook ↦ after_hook (hook job w) (hook job w).result before begun done
        ]
        else (skip job before 1000 begun w, skipped)

    -- From the abort controller to the attempt.
    unfoldable pub begin : Job → ℕ → ℕ → World → World × Ended
    begin job begun done w =
        let active = activate ctx.worker_id begun job in
        attempt active (capture_pre_execution_state job) begun done
          (save active (record w { controllers = job.id ∷ drop_key job.id w.controllers }))

    abbrev pub heartbeat_of : Job → Heartbeat
    heartbeat_of job = record {
      key = job_lock_key ctx job;
      owner_id = ctx.worker_id;
      ttl_ms = lock_ttl ctx;
      active = false;
      timer = false;
      lost = 0;
    }

    -- What the reply to `heartbeat.start()` leads to.
    unfoldable pub after_start : Job → ℕ → ℕ → World → Reply → World × Ended
    after_start job begun done w granted =
        begin job begun done (record w { heartbeats = job.id ∷ drop_key job.id w.heartbeats })
    after_start job begun done w refused = (requeue job none begun w, not_acquired)
    after_start job begun done w threw = (w, failed_call)

    unfoldable pub with_heartbeat : Job → ℕ → ℕ → World → World × Ended
    with_heartbeat job begun done w =
        let ((lock', h), reply) = Heartbeat.start L (heartbeat_of job) begun w.lock in
        after_start job begun done (record w { lock = lock' }) reply

    unfoldable pub execute_job : Job → ℕ → ℕ → World → World × Ended
    execute_job job begun done w =
        let named = name_and_tag ctx job in
        if is_guaranteed ctx then with_heartbeat named begun done w else begin named begun done w
