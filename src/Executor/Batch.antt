-- ===== src/Executor/Batch.antt =====
-- engine/utils/job-executor.ts, `executeBatch`, over any lock, any hooks and any `processBatch`: what
-- they did is an argument. The clock is read as `begun` and as `done`. Hooks after the end, events, logs
-- and the fallback without `processBatch` are left out.
use oqronkit.Prelude.{
  ℕ, ◌+◌, Bool, true, false, Option, none, some, List, [], ◌∷◌, ◌++◌, Text, text, or_else, leb,
  if◌then◌else◌, map,
}
use oqronkit.JsMap
use oqronkit.Job.{Job, delayed, active}
use oqronkit.Backoff.{Jitter, BackoffOptions, exponential, calculate_backoff}
use oqronkit.Broker.{ack}
use oqronkit.Lock.{LockAdapter, Reply, granted, refused, threw}
use oqronkit.Heartbeat
use oqronkit.Heartbeat.{Heartbeat}
use oqronkit.Executor.{
  ExecutionContext, first_of, lock_ttl, is_guaranteed, effective_max_retries, max_delay_of,
  push_timeline, Ending, succeeded, errored, ending_status, since,
}
use oqronkit.Executor.Run.{Listing, World, Code, save, settle, is_cancelled}
use oqronkit.Executor.Preflight.{
  BatchEntry, BatchResult, fulfilled, rejected, put, forget, prepare_all,
}

-- How `processBatch` ended: it threw, or returned a list of results or something else.
pub data Processed : Type 0 where
  batch_threw : Text → Processed
  returned_list : List BatchResult → Processed
  returned_nothing : Processed

pub record BatchRan (L : LockAdapter) : Type 0 where
  pub world : World L
  pub entries : List BatchEntry
  pub processed : Processed

-- How a job of the batch ends; the whole call throws in `batch_failed`.
pub data EntryEnded : Type 0 where
  entry_retried entry_cancelled batch_failed : EntryEnded
  entry_finished : Ending → EntryEnded

pub data BatchEnded : Type 0 where
  batch_done batch_not_acquired batch_rejected : BatchEnded

abbrev pub fewer_results : Text
fewer_results = text "processBatch returned fewer results than jobs"

-- `resolvedResults[i] ?? …`
abbrev pub pair_results : List BatchEntry → List BatchResult → List (BatchEntry × BatchResult)
pair_results [] rs = []
pair_results (e ∷ es) [] = (e, rejected fewer_results) ∷ pair_results es []
pair_results (e ∷ es) (r ∷ rs) = (e, r) ∷ pair_results es rs

abbrev pub process_results : List BatchEntry → Processed → List BatchResult
process_results entries (batch_threw message) = map (λ e. rejected message) entries
process_results entries (returned_list results) = results
process_results entries returned_nothing = map (λ e. fulfilled none) entries

abbrev pub max_retries : ExecutionContext → ℕ
max_retries ctx = first_of ctx.handler_config.max ctx.defaults.max 0

-- The options of the job, and the function of the strategy, are not looked at.
abbrev pub batch_backoff : ExecutionContext → BackoffOptions
batch_backoff ctx = record {
  kind = first_of ctx.handler_config.strategy ctx.defaults.strategy exponential;
  delay = first_of ctx.handler_config.base_delay ctx.defaults.base_delay 2000;
  backoff_fn = none;
}

abbrev pub fulfilled_job : Option Text → Job → Job
fulfilled_job v job = record job {
  return_value = v;
  progress_percent = 100;
  progress_label = some (text "Completed");
}

abbrev pub discarded_job : ExecutionContext → Job → Job
discarded_job ctx job = record job {
  progress_label = some (text "Discarded");
  error = some (text "Job discarded via ctx.discard()");
  attempt_made = max_retries ctx + 1;
}

abbrev pub batch_duration : Option (ℕ × ℕ) → Option (ℕ × ℕ) → Option (ℕ × ℕ)
batch_duration none old = old
batch_duration (some d) old = some d

-- `Completion or permanent failure path`: the record that is saved.
unfoldable pub close_job : Ending → Text → ℕ → Job → Job
unfolding push_timeline
close_job ending reason now job =
    push_timeline
      (record job {
        status = ending_status ending;
        finished_at = some now;
        duration_ms = batch_duration (since now job.started_at) job.duration_ms;
      })
      (record { ts = now; from = active; to = ending_status ending; reason = some reason })

module _ (L : LockAdapter) (list : Listing) (parse : Text → Option ℕ) (jitter : Jitter)
    (ctx : ExecutionContext) (code : Code L) where
  unfoldable pub close : Job → Ending → Text → ℕ → World L → World L × EntryEnded
  close job ending reason now w = (
    settle L list parse jitter ctx code (close_job ending reason now job) ending now w,
    entry_finished ending,
  )

  abbrev pub delay_entry : ℕ → ℕ → Job → Job
  delay_entry now delay job = record job { status = delayed; run_at = some (now + delay) }

  unfoldable pub retry_entry : Job → ℕ → World L → Option ℕ → World L × EntryEnded
  retry_entry job now w none = (w, batch_failed)
  retry_entry job now w (some delay) =
      let later = delay_entry now delay job in
      (put L list parse jitter ctx code later (some delay) now (save L later w), entry_retried)

  unfoldable pub reject_entry : Job → Text → ℕ → World L → World L × EntryEnded
  reject_entry job message now w =
      let job' : Job = record job { error = some message } in
      let closed = close job' (errored message) message now w in
      let retried = retry_entry job' now w (
        calculate_backoff jitter (some (batch_backoff ctx)) job'.attempt_made
          (some (max_delay_of ctx))) in
      if leb job'.attempt_made (effective_max_retries ctx job') then retried else closed

  abbrev pub or_text : Option Text → Text
  or_text v = or_else v []

  unfoldable pub fulfil_entry : BatchEntry → Option Text → ℕ → World L → World L × EntryEnded
  fulfil_entry e v now w =
      let closed =
        close (fulfilled_job v e.job) (succeeded (or_text v)) (text "Batch completed") now w in
      let left : World L = record w { broker = ack ctx.handler_config.name e.job.id w.broker } in
      if e.aborted
      then (if is_cancelled L list parse jitter ctx code (JsMap.get e.job.id w.jobs)
          then (left, entry_cancelled)
          else closed)
      else closed

  abbrev pub resolve_entry : BatchEntry → BatchResult → ℕ → World L → World L × EntryEnded
  resolve_entry e (fulfilled v) now w = fulfil_entry e v now w
  resolve_entry e (rejected message) now w = reject_entry e.job message now w

  -- One turn of the last loop.
  unfoldable pub finish_entry : BatchEntry → BatchResult → ℕ → World L → World L × EntryEnded
  finish_entry e result now w =
      if e.discarded
      then close (discarded_job ctx e.job) (succeeded []) (text "Discarded") now w
      else resolve_entry e result now w

  abbrev pub is_thrown : EntryEnded → Bool
  is_thrown batch_failed = true
  is_thrown _ = false

  unfoldable pub finish_all : List (BatchEntry × BatchResult) → ℕ → World L → World L × BatchEnded
  finish_all [] now w = (w, batch_done)
  finish_all ((e, result) ∷ es) now w =
      let (w', ended) = finish_entry e result now w in
      let rest = finish_all es now w' in if is_thrown ended then (w', batch_rejected) else rest

  abbrev batch_lock_key : Job → Text
  batch_lock_key job = ctx.lock_prefix ++ (text ":batch:" ++ job.id)

  unfoldable pub stop_heartbeat : Job → World L → World L
  stop_heartbeat job w = record w {
    lock =
        if is_guaranteed ctx then L.release (batch_lock_key job) ctx.worker_id w.lock else w.lock;
  }

  unfoldable pub forget_all : List (BatchEntry × BatchResult) → World L → World L
  forget_all [] w = w
  forget_all ((e, r) ∷ es) w = forget_all es (forget L list parse jitter ctx code e.job w)

  unfoldable pub requeue_all : List Job → ℕ → World L → World L
  requeue_all [] now w = w
  requeue_all (job ∷ jobs) now w =
      requeue_all jobs now (put L list parse jitter ctx code job none now w)

  module _ (process : List BatchEntry → World L → BatchRan L) where
    -- With no job that is ready, `processBatch` is not called.
    unfoldable pub process_ready : List BatchEntry → World L → BatchRan L
    process_ready [] w = record { world = w; entries = []; processed = returned_list [] }
    process_ready (e ∷ es) w = process (e ∷ es) w

    -- From the preflight on; `first` names the lock.
    unfoldable pub run_batch : Job → List Job → ℕ → ℕ → World L → World L × BatchEnded
    run_batch first jobs begun done w =
        let (prepared, (entries, early)) = prepare_all L list parse jitter ctx code jobs begun w in
        let ran = process_ready entries prepared in
        let all = early ++ pair_results ran.entries (process_results ran.entries ran.processed) in
        finish_all all done (forget_all all (stop_heartbeat first ran.world))

    abbrev batch_heartbeat : Job → Heartbeat
    batch_heartbeat job = record {
      key = batch_lock_key job;
      owner_id = ctx.worker_id;
      ttl_ms = lock_ttl ctx;
      active = false;
      timer = false;
      lost = 0;
    }

    unfoldable pub after_batch_start :
        Job → List Job → ℕ → ℕ → World L → Reply → World L × BatchEnded
    after_batch_start first jobs begun done w granted = run_batch first jobs begun done w
    after_batch_start first jobs begun done w refused =
        (requeue_all jobs begun w, batch_not_acquired)
    after_batch_start first jobs begun done w threw = (w, batch_rejected)

    unfoldable pub with_batch_heartbeat : Job → List Job → ℕ → ℕ → World L → World L × BatchEnded
    with_batch_heartbeat first jobs begun done w =
        let ((lock', h), reply) = Heartbeat.start L (batch_heartbeat first) begun w.lock in
        after_batch_start first jobs begun done (record w { lock = lock' }) reply

    unfoldable pub execute_batch : List Job → ℕ → ℕ → World L → World L × BatchEnded
    execute_batch [] begun done w = (w, batch_done)
    execute_batch (job ∷ jobs) begun done w =
        if is_guaranteed ctx
        then with_batch_heartbeat job (job ∷ jobs) begun done w
        else run_batch job (job ∷ jobs) begun done w
