-- ===== src/StallScanner.antt =====
-- engine/lock/cross-node-stall-scanner.ts, `CrossNodeStallScanner.scan`, over the jobs of the storage
-- and any lock. `list` is the storage's list of the jobs of a status, and of a queue if one is given,
-- up to a limit; `show` prints a number. The scan reads the clock once, as `now`.
pub mod Orphans
pub mod Appended
pub mod Listed
pub mod Scans
pub mod Counts
use oqronkit.Prelude.{
  ℕ, zero, suc, ◌+◌, Bool, true, false, Option, none, some, List, [], ◌∷◌, ◌++◌, Text, text,
  or_else, leb, if◌then◌else◌,
}
use oqronkit.JsMap
use oqronkit.JsMap.{JsMap}
use oqronkit.Job.{Job, JobStatus, active, running, stalled, failed, TimelineEntry}
use oqronkit.Lock.{LockAdapter}

pub record ScanConfig : Type 0 where
  pub lock_prefix : Text
  pub max_stalled_count : Option ℕ
  pub queue_names : Option (List Text)

pub record Scanned : Type 0 where
  pub jobs : JsMap Job
  -- the jobs that `onStalled` was called with
  pub reported : List Job
  pub stalled_count : ℕ

module _ (list : JsMap Job → JobStatus → Option Text → ℕ → List Job) where
  unfoldable pub list_queues : List Text → JsMap Job → List Job
  list_queues [] jobs = []
  list_queues (q ∷ qs) jobs =
      list jobs active (some q) 1000 ++ list jobs running (some q) 1000 ++ list_queues qs jobs

  unfoldable pub active_jobs : Option (List Text) → JsMap Job → List Job
  active_jobs none jobs = list jobs active none 10000 ++ list jobs running none 10000
  active_jobs (some []) jobs = list jobs active none 10000 ++ list jobs running none 10000
  active_jobs (some (q ∷ qs)) jobs = list_queues (q ∷ qs) jobs

abbrev pub job_lock_key : Text → Text → Text
job_lock_key prefix id = prefix ++ text ":job:" ++ id

module _ (show : ℕ → Text) where
  abbrev pub stall_entry : Text → ℕ → TimelineEntry
  stall_entry worker now = record {
    ts = now;
    from = stalled;
    to = stalled;
    reason = some (text "Cross-node scan: Worker " ++ worker ++ text " lock expired");
  }

  abbrev pub fail_entry : ℕ → ℕ → TimelineEntry
  fail_entry count now = record {
    ts = now;
    from = stalled;
    to = failed;
    reason = some (text "Stalled " ++ show count ++ text " times — permanently failed");
  }

  -- What is saved of a job whose lock was lost. The status is set before the entry reads it.
  unfoldable pub reclaim : Text → ℕ → ℕ → Job → Job
  reclaim worker max_stalled now job =
      if leb max_stalled count
      then record job {
        stalled_count = some count;
        status = failed;
        error =
            some
              (text "Exceeded maxStalledCount (" ++ show max_stalled ++ text "). Job abandoned.");
        finished_at = some now;
        timeline = some (seen ++ fail_entry count now ∷ []);
      }
      else record job { stalled_count = some count; status = stalled; timeline = some seen }
    where
      count : ℕ
      count = or_else job.stalled_count 0 + 1

      seen : List TimelineEntry
      seen = or_else job.timeline [] ++ stall_entry worker now ∷ []

  module _ (L : LockAdapter) where
    -- Whether the loop reclaims the job: with no worker, or the empty one, it goes on.
    unfoldable pub is_orphan : Text → ℕ → L.State → Job → Bool
    is_orphan prefix now lock job = orphan job.worker_id
      where
        orphan : Option Text → Bool
        orphan none = false
        orphan (some []) = false
        orphan (some (c ∷ cs)) =
            if L.is_owner (job_lock_key prefix job.id) (c ∷ cs) now lock then false else true

    unfoldable pub scan_jobs : Text → ℕ → ℕ → L.State → List Job → Scanned → Scanned
    scan_jobs prefix max_stalled now lock [] acc = acc
    scan_jobs prefix max_stalled now lock (job ∷ rest) acc =
        let job' = reclaim (or_else job.worker_id []) max_stalled now job in
        let kept = scan_jobs prefix max_stalled now lock rest acc in
        let found = scan_jobs prefix max_stalled now lock rest (record {
          jobs = JsMap.set job.id job' acc.jobs;
          reported = acc.reported ++ job' ∷ [];
          stalled_count = acc.stalled_count + 1;
        }) in
        if is_orphan prefix now lock job then found else kept

    unfoldable pub scan :
        (JsMap Job → JobStatus → Option Text → ℕ → List Job)
        → ScanConfig
        → ℕ
        → L.State
        → JsMap Job
        → Scanned
    scan list config now lock jobs =
        scan_jobs config.lock_prefix (or_else config.max_stalled_count 3) now lock
          (active_jobs list config.queue_names jobs)
          (record { jobs = jobs; reported = []; stalled_count = 0 })
