-- ===== src/Tests/Sample.antt =====
-- A job record for the tests to build on.
use oqronkit.Prelude.{none, [], text}
use oqronkit.Job.{Job, waiting, task}

abbrev pub sample : Job
sample = record {
  id = text "j";
  type = task;
  payload = [];
  delay = none;
  queue_name = text "q";
  status = waiting;
  module_name = none;
  priority = none;
  attempts = none;
  backoff = none;
  remove_on_complete = none;
  remove_on_fail = none;
  depends_on = none;
  parent_failure_policy = none;
  attempt_made = 0;
  progress_percent = 0;
  progress_label = none;
  worker_id = none;
  stalled_count = none;
  return_value = none;
  error = none;
  stacktrace = none;
  parent_id = none;
  children_ids = none;
  schedule_id = none;
  retried_from_id = none;
  environment = none;
  project = none;
  paused_reason = none;
  max_attempts = none;
  retry_reason = none;
  memory_usage_mb = none;
  triggered_by = none;
  correlation_id = none;
  logs = none;
  tags = [];
  duration_ms = none;
  queued_at = none;
  processed_on = none;
  latency_ms = none;
  timeline = none;
  created_at = 0;
  started_at = none;
  finished_at = none;
  run_at = none;
}
