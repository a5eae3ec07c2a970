-- ===== src/Tests/Stalls.antt =====
-- engine/lock/cross-node-stall-scanner.ts at small inputs: of two active jobs one has its lock.
use oqronkit.Prelude.{
  ℕ, ◌+◌, ◌≡◌, refl, none, some, [], ◌∷◌, Text, text, text_discrete, ℕ_discrete, length, arith,
}
use oqronkit.JsMap
use oqronkit.JsMap.{JsMap}
use oqronkit.Job.{Job, active, failed}
use oqronkit.Tests.Sample.{sample}
use oqronkit.Lock.Memory.{memory_lock, is_owner, Locks}
use oqronkit.StallScanner.{
  ScanConfig, Scanned, scan, scan_jobs, is_orphan, reclaim, active_jobs, list_queues,
}
use oqronkit.Reconcile.{select}
use oqronkit.Reconcile.Passes.{find}
use oqronkit.Reconcile.Recovered.{IsTable}
use oqronkit.JobList.{insert_newest, sort_newest, list_jobs, list_active, list_active-ListsActive}
use oqronkit.StallScanner.Orphans.{reclaimed}
use oqronkit.StallScanner.Scans.{After, scan-After}
use oqronkit.StallScanner.Counts.{reclaim_times}

program : Unit {0}
unfolding text_discrete ℕ_discrete JsMap.get JsMap.set is_owner scan scan_jobs is_orphan reclaim
    active_jobs list_queues select insert_newest sort_newest list_jobs find
program = tt

abbrev digits : ℕ → Text
digits n = (48 + n) ∷ []

abbrev job : Text → Text → Job
job id worker = record sample { id = id; status = active; worker_id = some worker }

abbrev dead : Job
dead = job (text "a") (text "w1")

abbrev alive : Job
alive = job (text "b") (text "w2")

abbrev jobs : JsMap Job
jobs = (text "a", dead) ∷ (text "b", alive) ∷ []

jobs-IsTable : IsTable jobs
unfolding program
jobs-IsTable = ((refl, (refl, tt)), (refl, (refl, tt)))

abbrev locks : Locks
locks = (text "queue:job:b", record { owner = text "w2"; expires_at = 20 }) ∷ []

abbrev config : ScanConfig
config = record { lock_prefix = text "queue"; max_stalled_count = none; queue_names = none }

abbrev scanned : Scanned
scanned = scan digits memory_lock list_active config 10 locks jobs

one_stalled : scanned.stalled_count ≡ 1
unfolding program
one_stalled = refl

abbrev resume : Job → Job
resume j = record j { status = active }

failed_third : (reclaim_times digits resume (text "w1") 3 10 2 dead).status ≡ failed
unfolding program reclaim_times
failed_third = refl

scan-After_example :
    ((k : Text)
      → After digits memory_lock
          (text "queue")
          10
          locks
          none
          3
          (JsMap.get k jobs)
          (JsMap.get k scanned.jobs)
          (find k scanned.reported))
    × (scanned.stalled_count ≡ length scanned.reported)
scan-After_example =
    scan-After digits memory_lock list_active config 10 locks jobs list_active-ListsActive
      jobs-IsTable (omega arith) tt

-- The job whose worker lost the lock is stalled once more, and the other is as it was.
scanned_jobs :
    (JsMap.get (text "a") scanned.jobs ≡ some (reclaimed digits 3 10 dead))
    × (JsMap.get (text "b") scanned.jobs ≡ some alive)
unfolding program
scanned_jobs = (refl, refl)
