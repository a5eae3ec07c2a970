-- ===== src/Executor.antt =====
-- engine/utils/job-executor.ts: the configuration of an execution, and what it writes into the job's
-- record. Child Run is `executeJob`.
pub mod Run
pub mod Outcome
pub mod Outcomes
pub mod Retries
pub mod Preflight
pub mod Batch
pub mod BatchEntries
use oqronkit.Prelude.{
  ℕ, zero, suc, ◌+◌, ◌-◌, Bool, true, false, Option, none, some, List, [], ◌∷◌, ◌++◌, Text, text,
  or_else, ltb, if◌then◌else◌, length, drop,
}
use oqronkit.Backoff.{BackoffType, BackoffOptions, exponential}
use oqronkit.Retention.{RemoveOnConfig}
use oqronkit.Job.{Job, JobStatus, active, delayed, completed, failed, TimelineEntry}

-- The fields of `JobHandlerConfig` and of its `retries` that are read.
pub record HandlerConfig : Type 0 where
  pub name : Text
  pub guaranteed_worker : Option Bool
  pub lock_ttl_ms : Option ℕ
  pub tags : Option (List Text)
  pub max : Option ℕ
  pub strategy : Option BackoffType
  pub base_delay : Option ℕ
  pub max_delay : Option ℕ
  pub backoff_fn : Option (ℕ → ℕ → ℕ)
  pub remove_on_complete : Option RemoveOnConfig
  pub remove_on_fail : Option RemoveOnConfig

pub record ModuleLevelDefaults : Type 0 where
  pub lock_ttl_ms : Option ℕ
  pub max : Option ℕ
  pub strategy : Option BackoffType
  pub base_delay : Option ℕ
  pub max_delay : Option ℕ
  pub remove_on_complete : Option RemoveOnConfig
  pub remove_on_fail : Option RemoveOnConfig

pub record ExecutionContext : Type 0 where
  pub worker_id : Text
  pub lock_prefix : Text
  pub handler_config : HandlerConfig
  pub defaults : ModuleLevelDefaults

-- `a ?? b ?? d`
abbrev pub first_of {ℓ} : {A : Type ℓ} → Option A → Option A → A → A
first_of a b d = or_else a (or_else b d)

abbrev pub lock_ttl : ExecutionContext → ℕ
lock_ttl ctx = first_of ctx.handler_config.lock_ttl_ms ctx.defaults.lock_ttl_ms 30000

abbrev pub is_guaranteed : ExecutionContext → Bool
is_guaranteed ctx = or_else ctx.handler_config.guaranteed_worker true

-- A number of attempts on the job that is not 0 comes first.
abbrev pub attempts_override : Option ℕ → ℕ → ℕ
attempts_override none max_retries = max_retries
attempts_override (some zero) max_retries = max_retries
attempts_override (some (suc n)) max_retries = n

abbrev pub effective_max_retries : ExecutionContext → Job → ℕ
effective_max_retries ctx job =
    attempts_override job.attempts (first_of ctx.handler_config.max ctx.defaults.max 0)

-- `job.opts?.backoff ?? { … }`
abbrev pub backoff_of : ExecutionContext → Job → BackoffOptions
backoff_of ctx job = or_else job.backoff (record {
  kind = first_of ctx.handler_config.strategy ctx.defaults.strategy exponential;
  delay = first_of ctx.handler_config.base_delay ctx.defaults.base_delay 2000;
  backoff_fn = ctx.handler_config.backoff_fn;
})

abbrev pub max_delay_of : ExecutionContext → ℕ
max_delay_of ctx = first_of ctx.handler_config.max_delay ctx.defaults.max_delay 60000

abbrev pub or_tags : List Text → Option (List Text) → List Text
or_tags [] (some tags) = tags
or_tags [] none = []
or_tags (t ∷ ts) _ = t ∷ ts

-- The module's name and the tags, which are set on every path.
unfoldable pub name_and_tag : ExecutionContext → Job → Job
name_and_tag ctx job = record job {
  module_name = some (or_else job.module_name ctx.handler_config.name);
  tags = or_tags job.tags ctx.handler_config.tags;
}

abbrev pub max_timeline_entries : ℕ
max_timeline_entries = 100

-- The entries are cut to the last 100.
unfoldable pub push_entry : Option (List TimelineEntry) → TimelineEntry → List TimelineEntry
push_entry timeline entry =
    let entries = or_else timeline [] ++ entry ∷ [] in
    if ltb max_timeline_entries (length entries)
    then drop (length entries - max_timeline_entries) entries
    else entries

unfoldable pub push_timeline : Job → TimelineEntry → Job
push_timeline job entry = record job { timeline = some (push_entry job.timeline entry) }

pub record PreExecutionState : Type 0 where
  pub status : JobStatus
  pub worker_id : Option Text
  pub started_at : Option ℕ
  pub processed_on : Option ℕ
  pub attempt_made : ℕ
  pub timeline : Option (List TimelineEntry)

unfoldable pub capture_pre_execution_state : Job → PreExecutionState
capture_pre_execution_state job = record {
  status = job.status;
  worker_id = job.worker_id;
  started_at = job.started_at;
  processed_on = job.processed_on;
  attempt_made = job.attempt_made;
  timeline = job.timeline;
}

unfoldable pub restore_pre_execution_state : Job → PreExecutionState → Job
restore_pre_execution_state job state = record job {
  status = state.status;
  worker_id = state.worker_id;
  started_at = state.started_at;
  processed_on = state.processed_on;
  attempt_made = state.attempt_made;
  timeline = state.timeline;
}

-- `Update state to active`
unfoldable pub activate : Text → ℕ → Job → Job
unfolding push_timeline
activate worker now job =
    push_timeline
      (record job {
        status = active;
        worker_id = some worker;
        started_at = some now;
        processed_on = some now;
        attempt_made = job.attempt_made + 1;
      })
      (record {
        ts = now;
        from = job.status;
        to = active;
        reason = some (text "Worker " ++ (worker ++ text " claimed job"));
      })

-- The record that is saved before a retry after `delay`.
unfoldable pub delay_job : Text → ℕ → ℕ → Job → Job
delay_job error now delay job = record job {
  status = delayed;
  run_at = some (now + delay);
  error = some error;
}

-- How the handler ended for the last time: with a value, or with an error's message.
pub data Ending : Type 0 where
  succeeded : Text → Ending
  errored : Text → Ending

abbrev pub set_ending : Ending → Job → Job
set_ending (succeeded value) job = record job {
  status = completed;
  error = none;
  return_value = some value;
  progress_percent = 100;
  progress_label = some (text "Completed");
}
set_ending (errored message) job = record job { status = failed; error = some message }

abbrev pub ending_status : Ending → JobStatus
ending_status (succeeded value) = completed
ending_status (errored message) = failed

abbrev pub ending_reason : Ending → Text
ending_reason (succeeded value) = text "Finished successfully"
ending_reason (errored message) = message

abbrev pub since : ℕ → Option ℕ → Option (ℕ × ℕ)
since now none = none
since now (some start) = some (now, start)

abbrev pub wait_latency : Option ℕ → Option ℕ → Option (ℕ × ℕ) → Option (ℕ × ℕ)
wait_latency (some queued) (some started) old = some (started, queued)
wait_latency _ _ old = old

-- `Finalize`: the record that is saved at the end.
unfoldable pub finish_job : Ending → ℕ → Job → Job
unfolding push_timeline
finish_job ending now job =
    push_timeline
      (record (set_ending ending job) {
        finished_at = some now;
        duration_ms = keep_old (since now job.started_at) job.duration_ms;
        latency_ms = wait_latency job.queued_at job.started_at job.latency_ms;
      })
      (record {
        ts = now;
        from = active;
        to = ending_status ending;
        reason = some (ending_reason ending);
      })
  where
    keep_old : Option (ℕ × ℕ) → Option (ℕ × ℕ) → Option (ℕ × ℕ)
    keep_old none old = old
    keep_old (some d) old = some d
