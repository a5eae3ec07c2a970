-- ===== src/Reconcile/Crash.antt =====
-- A process that stops in a retry, after it saved the record and before it put the job back.
use oqronkit.Prelude.{
  ℕ, ◌+◌, ◌≡◌, ◌≤◌, refl, ◌∙◌, if_pos, true, none, some, Option, List, [], ◌∷◌, or_else, length,
  Text, text_discrete, le→leb,
}
use oqronkit.JsMap
use oqronkit.Job.{Job, waiting}
use oqronkit.Lock.{LockAdapter, granted}
use oqronkit.Broker.Queued.{queued}
use oqronkit.Dependency.{State}
use oqronkit.Executor.{delay_job}
use oqronkit.Reconcile.{
  ReconciliationConfig, Stats, Listing, is_allowed, is_due, mark_delayed, run_scan, leader_lock_key,
  lock_ttl,
}
use oqronkit.Reconcile.Recovered.{IsTable, IsListing, recovered}
use oqronkit.Reconcile.Scan.{run_scan-recover}

-- The queue's name is what `filterByQueues` looks at.
is_allowed-delay_job :
    (names : Option (List Text)) (message : Text) (failed delay : ℕ) (job : Job)
    → is_allowed names (delay_job message failed delay job) ≡ is_allowed names job
unfolding is_allowed delay_job
is_allowed-delay_job none message failed delay job = refl
is_allowed-delay_job (some []) message failed delay job = refl
is_allowed-delay_job (some (q ∷ qs)) message failed delay job = refl

recovered-delay_job :
    (config : ReconciliationConfig) (now : ℕ) (message : Text) (failed delay : ℕ) (job : Job)
    → is_allowed config.queue_names job ≡ true
    → failed + delay + or_else config.delayed_grace_ms 120000 ≤ now
    → recovered config now (delay_job message failed delay job)
      ≡ some (mark_delayed now (delay_job message failed delay job))
unfolding recovered is_due delay_job
recovered-delay_job config now message failed delay job allowed past =
    let due = le→leb (failed + delay + or_else config.delayed_grace_ms 120000) now past in
    rw (is_allowed-delay_job config.queue_names message failed delay job ∙ allowed, due) refl

-- Let the record of a job be as a retry of `executeJob` saves it, whether the job got back to the
-- in-memory broker or not, and let its queue be allowed. When the lock is granted, the records
-- stand under their own ids and are no more than the batch size, the listing returns what matches,
-- and the delay and the grace have passed, `runScan` leaves it waiting, with the same attempts
-- made, and queued exactly once.
pub run_scan-delay_job :
    (list : Listing) (config : ReconciliationConfig) (now : ℕ) (s : State) (L : LockAdapter)
    (owner : Text) (done : ℕ) (stats : Stats) (lock : L.State) (message : Text) (failed delay : ℕ)
    (job : Job)
    → IsListing list
    → (L.acquire leader_lock_key owner (lock_ttl config) now lock).1 ≡ granted
    → IsTable s.jobs
    → length s.jobs ≤ or_else config.batch_size 500
    → JsMap.get job.id s.jobs ≡ some (delay_job message failed delay job)
    → is_allowed config.queue_names job ≡ true
    → failed + delay + or_else config.delayed_grace_ms 120000 ≤ now
    → let s' = (run_scan list config L owner now done s stats lock).state in
      (j : Job) × (JsMap.get job.id s'.jobs ≡ some j)
      × (j.status ≡ waiting)
      × (j.attempt_made ≡ job.attempt_made)
      × (queued job.queue_name job.id s'.broker ≡ 1)
unfolding delay_job
run_scan-delay_job list config now s L owner done stats lock message failed delay job listing won t
      fits stored allowed past =
    let (record_eq, queue_eq) =
      run_scan-recover list listing config now s L owner done stats lock won t fits job.id in
    let e = recovered-delay_job config now message failed delay job allowed past in
    (
      mark_delayed now (delay_job message failed delay job),
      record_eq ∙ rw (stored, e) refl,
      refl,
      refl,
      queue_eq job.queue_name
          ∙ rw (stored, e) (if_pos (text_discrete job.queue_name job.queue_name) refl _ _),
    )
