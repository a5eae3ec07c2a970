-- ===== src/Tests/Executions.antt =====
-- engine/utils/job-executor.ts and engine/utils/backoffs.ts at small inputs: a handler that fails, and one
-- that returns.
use oqronkit.Prelude.{
  ℕ, suc, ◌+◌, ◌*◌, ◌^◌, ◌≡◌, ◌≤◌, ◌<◌, ◌⊎◌, refl, true, false, none, some, [], ◌∷◌, Option, Text,
  text, text_discrete, arith, ℕ_discrete,
}
use oqronkit.JsMap
use oqronkit.JsMap.{JsMap}
use oqronkit.Job.{Job, cancelled, delayed}
use oqronkit.Backoff.{
  Jitter, fixed, exponential, calculate_backoff, exponential_delay, fixed_backoff, max_number,
}
use oqronkit.Backoff.Bounds.{calculate_backoff-capped, exponential_backoff_lem}
use oqronkit.Broker.{publish, nack, ack}
use oqronkit.Broker.Sorted.{empty_broker}
use oqronkit.Broker.Queued.{queued}
use oqronkit.Lock.Memory.{memory_lock, acquire, release}
use oqronkit.Heartbeat
use oqronkit.Retention
use oqronkit.Tests.Sample.{sample}
use oqronkit.Executor.{
  ExecutionContext, name_and_tag, activate, capture_pre_execution_state, effective_max_retries,
  restore_pre_execution_state, delay_job, finish_job, push_entry,
}
use oqronkit.Executor.Run.{
  Ended, retried, World, Ran, Code, raised, Listing, execute_job, with_heartbeat, after_start,
  begin, attempt, run_handler, conclude, fail_attempt, again, retry, finalize, cleanup, settle,
  skip, drop_key, prune_options, notify,
}
use oqronkit.Executor.Preflight.{
  BatchEntry, fulfilled, rejected, prepare_all, prepare_job, check_condition,
}
use oqronkit.Executor.Batch.{
  entry_cancelled, finish_entry, fulfil_entry, reject_entry, retry_entry, close, close_job,
  returned_nothing, batch_done, execute_batch, with_batch_heartbeat, after_batch_start, run_batch,
  process_ready, forget_all, stop_heartbeat, finish_all,
}
use oqronkit.Executor.BatchEntries.{
  EntryOutcome, finish_entry-EntryOutcome, cancelled_entry_retried,
}
use oqronkit.Executor.Outcome.{Queued, Outcome, IsRespectful}
use oqronkit.Executor.Outcomes.{execute_job-Outcome}
use oqronkit.Executor.Retries.{Retries, first, next, retries_bounded}

program : Unit {0}
unfolding finish_entry fulfil_entry reject_entry retry_entry close close_job execute_batch
    with_batch_heartbeat after_batch_start run_batch process_ready prepare_all prepare_job
    check_condition forget_all stop_heartbeat finish_all text_discrete ℕ_discrete JsMap.get
    JsMap.set JsMap.delete acquire release publish nack ack Heartbeat.start execute_job
    with_heartbeat after_start begin attempt run_handler conclude fail_attempt again retry finalize
    cleanup settle skip drop_key prune_options notify name_and_tag activate
    capture_pre_execution_state restore_pre_execution_state delay_job finish_job push_entry
    calculate_backoff exponential_delay Retention.prune_after_completion Retention.prune_by
    Retention.resolve_config queued max_number
program = tt

abbrev even : Jitter
even = record { num = 1; den = 1 }

calculate_backoff-capped_example :
    ((d : ℕ) × (calculate_backoff even (some (fixed_backoff 50)) 3 (some 40) ≡ some d)
      × (0 < d)
      × (d ≤ 40))
    ⊎ ((calculate_backoff even (some (fixed_backoff 50)) 3 (some 40) ≡ none)
        × (10 * max_number < 12 * (2 ^ 2 * 50) + 5))
calculate_backoff-capped_example =
    calculate_backoff-capped even (fixed_backoff 50) 3 40 (omega arith) (omega arith) (cc)
      (omega arith)

exponential_backoff_lem_example :
    (d : ℕ) × (calculate_backoff even
        (some (record { kind = exponential; delay = 50; backoff_fn = none }))
        3
        none
      ≡ some d)
    × (8 * (2 ^ 2 * 50) < 10 * d + 5)
    × (10 * d ≤ 12 * (2 ^ 2 * 50) + 5)
exponential_backoff_lem_example =
    exponential_backoff_lem even 50 3 none (omega arith) (omega arith) (omega arith) (omega arith)

abbrev ctx : ExecutionContext
ctx = record {
  worker_id = text "w";
  lock_prefix = text "queue";
  handler_config = record {
    name = text "q";
    guaranteed_worker = none;
    lock_ttl_ms = none;
    tags = none;
    max = some 1;
    strategy = some fixed;
    base_delay = some 50;
    max_delay = none;
    backoff_fn = none;
    remove_on_complete = none;
    remove_on_fail = none;
  };
  defaults = record {
    lock_ttl_ms = none;
    max = none;
    strategy = none;
    base_delay = none;
    max_delay = none;
    remove_on_complete = none;
    remove_on_fail = none;
  };
}

abbrev fails : Code memory_lock
fails = record {
  limiter_allows = λ j w. true;
  before_run = none;
  condition_allows = λ j w. true;
  handler = λ j w. record {
    world = w;
    job = j;
    result = raised (text "no") none;
    discarded = false;
    aborted = false;
  };
  stack_of = λ m. none;
}

fails-IsRespectful : IsRespectful fails
fails-IsRespectful = record { handler = λ j w. (refl, refl, refl); hook = λ h j w e. cc }

abbrev nothing_listed : Listing
nothing_listed = λ status scope jobs. []

abbrev no_dates : Text → Option ℕ
no_dates s = none

abbrev start : World memory_lock
start = record {
  jobs = (text "j", sample) ∷ [];
  broker = empty_broker;
  lock = [];
  heartbeats = [];
  controllers = [];
}

abbrev once : World memory_lock × Ended
once = execute_job memory_lock nothing_listed no_dates even ctx fails sample 100 200 start

put_back : once.1 ≡ retried
unfolding program
put_back = refl

execute_job-Outcome_example :
    Outcome ctx (text "j") (capture_pre_execution_state sample) 1 1 start.jobs retried once.0
unfolding program
execute_job-Outcome_example =
    execute_job-Outcome memory_lock nothing_listed no_dates even ctx fails fails-IsRespectful sample
      100 200 start

abbrev one_retry : Retries memory_lock nothing_listed no_dates even ctx fails 1 sample
unfolding program
one_retry = next 100 200 start refl refl first

retries_bounded_example : ((suc 0) ≡ 0) ⊎ (0 + 1 ≤ effective_max_retries ctx sample)
unfolding program
retries_bounded_example =
    retries_bounded memory_lock nothing_listed no_dates even ctx fails fails-IsRespectful one_retry

abbrev no_delay : ExecutionContext
no_delay = record ctx { handler_config = record (ctx.handler_config) { base_delay = some 0 } }

abbrev ran : Ran memory_lock
ran = record {
  world = start;
  job = activate (text "w") 100 sample;
  result = raised (text "no") none;
  discarded = false;
  aborted = false;
}

abbrev given_back : World memory_lock
given_back = record start {
  jobs = (text "j", record (activate (text "w") 100 sample) { status = cancelled }) ∷ [];
}

abbrev aborted_entry : BatchEntry
aborted_entry = record { job = activate (text "w") 100 sample; discarded = false; aborted = true }

finish_entry-EntryOutcome_example :
    EntryOutcome ctx aborted_entry entry_cancelled
      (finish_entry memory_lock nothing_listed no_dates even ctx fails aborted_entry
        (fulfilled none)
        200
        given_back).0
unfolding program
finish_entry-EntryOutcome_example =
    finish_entry-EntryOutcome memory_lock nothing_listed no_dates even ctx fails aborted_entry
      (fulfilled none) 200 given_back

cancelled_entry_retried_example :
    let w' =
      (finish_entry memory_lock nothing_listed no_dates even ctx fails aborted_entry
        (rejected (text "no"))
        200
        given_back).0 in
    ((j' : Job) × (JsMap.get (text "j") w'.jobs ≡ some j') × (j'.status ≡ delayed))
    × Queued ctx (text "j") w'
unfolding program
cancelled_entry_retried_example =
    cancelled_entry_retried memory_lock nothing_listed no_dates even ctx fails aborted_entry
      (text "no") 50 200 given_back (record (activate (text "w") 100 sample) { status = cancelled })
      refl refl refl refl (omega arith) refl

batch_run :
    (execute_batch memory_lock nothing_listed no_dates even ctx fails
      (λ es w. record { world = w; entries = es; processed = returned_nothing })
      (sample ∷ [])
      100
      200
      start).1
    ≡ batch_done
unfolding program
batch_run = refl
