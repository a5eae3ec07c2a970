-- ===== src/Tests/Reconciles.antt =====
-- engine/utils/reconciliation-engine.ts at small inputs.
use oqronkit.Prelude.{◌≡◌, refl, none, some, [], ◌∷◌, text, text_discrete, arith, ℕ_discrete}
use oqronkit.JsMap
use oqronkit.Job.{Job, waiting}
use oqronkit.Broker.{publish, remove_queued_id}
use oqronkit.Broker.Sorted.{empty_broker}
use oqronkit.Broker.Queued.{queued}
use oqronkit.Lock.Memory.{memory_lock, acquire, release}
use oqronkit.Dependency.{State}
use oqronkit.Executor.{delay_job}
use oqronkit.Tests.Sample.{sample}
use oqronkit.Reconcile.{
  ReconciliationConfig, Stats, select, is_due, is_allowed, republish, republish_all,
  reconcile_waiting, reconcile_delayed, reconcile_stalled, reconcile, after_acquire, run_scan,
}
use oqronkit.Reconcile.Recovered.{recovered}
use oqronkit.Reconcile.Crash.{run_scan-delay_job}
use oqronkit.JobList.{list_stale, list_stale-IsListing}

program : Unit {0}
unfolding text_discrete ℕ_discrete JsMap.get JsMap.set JsMap.delete acquire release publish
    delay_job select is_due is_allowed republish republish_all reconcile_waiting reconcile_delayed
    reconcile_stalled reconcile after_acquire run_scan recovered queued remove_queued_id
program = tt

abbrev config : ReconciliationConfig
config = record {
  interval_ms = none;
  waiting_threshold_ms = none;
  delayed_grace_ms = some 10;
  batch_size = none;
  queue_names = none;
}

abbrev no_stats : Stats
no_stats = record {
  total_scans = 0;
  total_republished = 0;
  last_scan_at = none;
  last_scan_duration_ms = 0;
  last_scan_republished = 0;
}

abbrev crashed : Job
crashed = delay_job (text "no") 100 50 sample

abbrev start : State
start = record { jobs = (text "j", crashed) ∷ []; broker = empty_broker }

run_scan-delay_job_example :
    let s' = (run_scan list_stale config memory_lock (text "r") 200 210 start no_stats []).state in
    (j : Job) × (JsMap.get sample.id s'.jobs ≡ some j)
    × (j.status ≡ waiting)
    × (j.attempt_made ≡ sample.attempt_made)
    × (queued sample.queue_name sample.id s'.broker ≡ 1)
unfolding program
run_scan-delay_job_example =
    run_scan-delay_job list_stale config 200 start memory_lock (text "r") 210 no_stats []
      (text "no") 100 50 sample list_stale-IsListing refl ((refl, tt), (refl, tt)) (omega arith)
      refl refl (omega arith)
