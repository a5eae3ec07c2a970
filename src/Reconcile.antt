-- ===== src/Reconcile.antt =====
-- engine/utils/reconciliation-engine.ts, `runScan`, over any lock and any listing of the storage. The
-- clock is read as `now` and, at the end, as `done`. Logs and events are left out; the storage and the
-- broker do not throw.
pub mod Passes
pub mod Recovered
pub mod Scan
pub mod Crash
pub mod Values
use oqronkit.Prelude.{
  ℕ, zero, suc, ◌+◌, ◌-◌, ◌*◌, max, Bool, true, false, ◌&&◌, Option, none, some, List, [], ◌∷◌,
  ◌++◌, Text, text, or_else, ltb, leb, mem, if◌then◌else◌,
}
use oqronkit.JsMap
use oqronkit.Job.{Job, JobStatus, waiting, delayed, stalled, TimelineEntry}
use oqronkit.Broker.{publish}
use oqronkit.Dependency.{Jobs, State}
use oqronkit.Lock.{LockAdapter, Reply, granted, refused, threw}

pub record ReconciliationConfig : Type 0 where
  pub interval_ms : Option ℕ
  pub waiting_threshold_ms : Option ℕ
  pub delayed_grace_ms : Option ℕ
  pub batch_size : Option ℕ
  pub queue_names : Option (List Text)

pub record Stats : Type 0 where
  pub total_scans : ℕ
  pub total_republished : ℕ
  pub last_scan_at : Option ℕ
  pub last_scan_duration_ms : ℕ
  pub last_scan_republished : ℕ

-- What the three passes ask the storage for: a status, and for `waiting` a date that `queuedAt` is below.
pub data Query : Type 0 where
  waiting_before : ℕ → Query
  all_delayed all_stalled : Query

abbrev pub Listing : Type 0
Listing = Query → ℕ → Jobs → List Job

abbrev pub add_entry : Job → ℕ → JobStatus → JobStatus → Text → Option (List TimelineEntry)
add_entry job now from to reason = some (
    or_else job.timeline [] ++ record { ts = now; from = from; to = to; reason = some reason } ∷ [])

abbrev pub mark_waiting : ℕ → Job → Job
mark_waiting now job = record job {
  timeline =
      add_entry job now waiting waiting
        (text "Reconciliation: re-published to broker (stale waiting job)");
}

abbrev pub mark_delayed : ℕ → Job → Job
mark_delayed now job = record job {
  status = waiting;
  timeline =
      add_entry job now delayed waiting
        (text "Reconciliation: delay expired, re-published to broker");
}

abbrev pub mark_stalled : ℕ → Job → Job
mark_stalled now job = record job {
  status = waiting;
  worker_id = none;
  timeline =
      add_entry job now stalled waiting (text "Reconciliation: stalled job re-published to broker");
}

-- The date of the retry, else that of the delay of the options, else a minute after the start.
abbrev pub ready_at : Option ℕ → Option ℕ → ℕ → Option ℕ → Option ℕ
ready_at (some t) delay created started = some t
ready_at none (some (suc d)) created started = some (created + suc d)
ready_at none none created (some s) = some (s + 60000)
ready_at none (some zero) created (some s) = some (s + 60000)
ready_at none none created none = none
ready_at none (some zero) created none = none

abbrev pub past : ℕ → ℕ → Option ℕ → Bool
past now grace none = false
past now grace (some t) = leb (t + grace) now

-- Whether the pass over the delayed jobs goes on to publish this one.
unfoldable pub is_due : ReconciliationConfig → ℕ → Job → Bool
is_due config now job =
    past now (or_else config.delayed_grace_ms 120000)
      (ready_at job.run_at job.delay job.created_at job.started_at)

abbrev pub always : Job → Bool
always job = true

-- `filterByQueues`: no names, or an empty list of them, let every job through.
unfoldable pub is_allowed : Option (List Text) → Job → Bool
is_allowed none job = true
is_allowed (some []) job = true
is_allowed (some (q ∷ qs)) job = mem job.queue_name (q ∷ qs)

unfoldable pub select : (Job → Bool) → List Job → List Job
select ok [] = []
select ok (job ∷ jobs) = let rest = select ok jobs in if ok job then job ∷ rest else rest

abbrev pub filter_by_queues : ReconciliationConfig → List Job → List Job
filter_by_queues config = select (is_allowed config.queue_names)

-- The record is saved and the job published with no delay.
unfoldable pub republish : (Job → Job) → ℕ → Job → State → State
republish mark now job s = record {
  jobs = JsMap.set job.id (mark job) s.jobs;
  broker = publish job.queue_name job.id none job.priority now s.broker;
}

unfoldable pub republish_all : (Job → Bool) → (Job → Job) → ℕ → List Job → State → State × ℕ
republish_all due mark now [] s = (s, 0)
republish_all due mark now (job ∷ jobs) s =
    let (published, n) = republish_all due mark now jobs (republish mark now job s) in
    let passed = republish_all due mark now jobs s in if due job then (published, suc n) else passed

abbrev pub count_scan : ℕ → ℕ → ℕ → Stats → Stats
count_scan now done n stats = record {
  total_scans = stats.total_scans + 1;
  total_republished = stats.total_republished + n;
  last_scan_at = some done;
  last_scan_duration_ms = done - now;
  last_scan_republished = n;
}

pub record Scanned (LockState : Type 0) : Type 0 where
  pub state : State
  pub lock : LockState
  pub stats : Stats
  -- the number returned; none where the call throws
  pub result : Option ℕ

abbrev pub leader_lock_key : Text
leader_lock_key = text "oqron:reconciler"

abbrev pub lock_ttl : ReconciliationConfig → ℕ
lock_ttl config = max (or_else config.interval_ms 120000 * 2) 60000

module _ (list : Listing) (config : ReconciliationConfig) where
  unfoldable pub reconcile_waiting : ℕ → ℕ → State → State × ℕ
  reconcile_waiting now batch s =
      republish_all always (mark_waiting now) now
        (filter_by_queues config
          (list (waiting_before (now - or_else config.waiting_threshold_ms 300000)) batch s.jobs))
        s

  unfoldable pub reconcile_delayed : ℕ → ℕ → State → State × ℕ
  reconcile_delayed now batch s =
      republish_all (is_due config now) (mark_delayed now) now
        (filter_by_queues config (list all_delayed batch s.jobs)) s

  unfoldable pub reconcile_stalled : ℕ → ℕ → State → State × ℕ
  reconcile_stalled now batch s =
      republish_all always (mark_stalled now) now
        (filter_by_queues config (list all_stalled batch s.jobs)) s

  -- The three passes in turn.
  unfoldable pub reconcile : ℕ → State → State × ℕ
  reconcile now s =
      let batch = or_else config.batch_size 500 in
      let (s1, n1) = reconcile_waiting now batch s in
      let (s2, n2) = reconcile_delayed now batch s1 in
      let (s3, n3) = reconcile_stalled now batch s2 in (s3, n1 + n2 + n3)

  module _ (L : LockAdapter) (owner : Text) (now done : ℕ) (s : State) (stats : Stats) where
    -- What the lock's reply leads to.
    unfoldable pub after_acquire : L.State → Reply → Scanned L.State
    after_acquire lock threw = record { state = s; lock = lock; stats = stats; result = none }
    after_acquire lock refused = record { state = s; lock = lock; stats = stats; result = some 0 }
    after_acquire lock granted =
        let (s', n) = reconcile now s in
        record {
          state = s';
          lock = L.release leader_lock_key owner lock;
          stats = count_scan now done n stats;
          result = some n;
        }

    unfoldable pub run_scan : L.State → Scanned L.State
    run_scan lock =
        let (lock', reply) = L.acquire leader_lock_key owner (lock_ttl config) now lock in
        after_acquire lock' reply
