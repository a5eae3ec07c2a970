-- ===== src/Job.antt =====
-- engine/types/job.types.ts: the statuses and a job's record, with the fields of `opts` that are read,
-- and without `steps`. Dates are in milliseconds. The data and a returned value are texts that
-- nothing looks into.
use oqronkit.Prelude.{ℕ, List, Option, Text}
use oqronkit.Backoff.{BackoffOptions}
use oqronkit.Retention.{RemoveOnConfig}

pub data JobStatus : Type 0 where
  waiting waiting_children active running completed failed cancelled delayed paused stalled :
      JobStatus

pub data ParentFailurePolicy : Type 0 where
  block cascade_fail ignore : ParentFailurePolicy

pub record TimelineEntry : Type 0 where
  pub ts : ℕ
  pub from : JobStatus
  pub to : JobStatus
  pub reason : Option Text

pub data JobType : Type 0 where
  task cron schedule webhook batch workflow : JobType

pub data JobTriggerSource : Type 0 where
  by_cron by_schedule by_api by_manual by_retry by_rerun by_flow : JobTriggerSource

pub data PausedReason : Type 0 where
  manual disabled_hold : PausedReason

pub record JobLogEntry : Type 0 where
  pub ts : ℕ
  pub level : Text
  pub msg : Text

-- The first less the second.
abbrev pub Difference : Type 0
Difference = ℕ × ℕ

pub record Job : Type 0 where
  pub id : Text
  pub type : JobType
  pub queue_name : Text
  pub status : JobStatus
  pub module_name : Option Text
  pub payload : Text
  -- the fields of `opts`
  pub delay : Option ℕ
  pub priority : Option ℕ
  pub attempts : Option ℕ
  pub backoff : Option BackoffOptions
  pub remove_on_complete : Option RemoveOnConfig
  pub remove_on_fail : Option RemoveOnConfig
  pub depends_on : Option (List Text)
  pub parent_failure_policy : Option ParentFailurePolicy
  -- the state of the execution
  pub attempt_made : ℕ
  pub progress_percent : ℕ
  pub progress_label : Option Text
  pub worker_id : Option Text
  pub stalled_count : Option ℕ
  -- the results
  pub return_value : Option Text
  pub error : Option Text
  pub stacktrace : Option (List Text)
  -- the rest
  pub parent_id : Option Text
  pub children_ids : Option (List Text)
  pub schedule_id : Option Text
  pub retried_from_id : Option Text
  pub tags : List Text
  pub environment : Option Text
  pub project : Option Text
  pub paused_reason : Option PausedReason
  pub duration_ms : Option Difference
  pub queued_at : Option ℕ
  pub processed_on : Option ℕ
  pub max_attempts : Option ℕ
  pub retry_reason : Option Text
  pub latency_ms : Option Difference
  pub memory_usage_mb : Option ℕ
  pub triggered_by : Option JobTriggerSource
  pub correlation_id : Option Text
  pub logs : Option (List JobLogEntry)
  pub timeline : Option (List TimelineEntry)
  pub created_at : ℕ
  pub started_at : Option ℕ
  pub finished_at : Option ℕ
  pub run_at : Option ℕ
