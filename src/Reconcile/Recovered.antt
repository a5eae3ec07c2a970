-- ===== src/Reconcile/Recovered.antt =====
-- Which records a scan recovers, and what the three passes make of one record.
use oqronkit.Prelude.{
  ℕ, ◌-◌, ◌≡◌, ◌≤◌, inl, inr, refl, Bool, true, false, ◌&&◌, Option, none, some, [], ◌∷◌, Text,
  text_discrete, ite, if◌then◌else◌, length, arith, Bool-cases, or_else, ltb,
}
use oqronkit.JsMap
use oqronkit.JsMap.{JsMap, get-set, set-Distinct}
use oqronkit.Job.{Job, JobStatus, waiting, delayed, stalled}
use oqronkit.Dependency.{Jobs}
use oqronkit.Reconcile.{
  ReconciliationConfig, Query, waiting_before, all_delayed, all_stalled, Listing, mark_waiting,
  mark_delayed, mark_stalled, is_due, is_allowed, always,
}
use oqronkit.StallScanner.Orphans.{DistinctIds}
use oqronkit.Reconcile.Passes.{find, keep, republished, requeued}

abbrev pub is_waiting : JobStatus → Bool
is_waiting waiting = true
is_waiting _ = false

abbrev pub is_delayed : JobStatus → Bool
is_delayed delayed = true
is_delayed _ = false

abbrev pub is_stalled : JobStatus → Bool
is_stalled stalled = true
is_stalled _ = false

abbrev pub before : ℕ → Option ℕ → Bool
before cutoff none = false
before cutoff (some t) = ltb t cutoff

abbrev pub matches : Query → Job → Bool
matches (waiting_before cutoff) job = is_waiting job.status && before cutoff job.queued_at
matches all_delayed job = is_delayed job.status
matches all_stalled job = is_stalled job.status

-- Every record stands under its own id, and no id twice.
abbrev pub Keyed : Jobs → Type 0
Keyed [] = Unit {0}
Keyed ((k, job) ∷ jobs) = (job.id ≡ k) × Keyed jobs

abbrev pub IsTable : Jobs → Type 0
IsTable jobs = Keyed jobs × JsMap.Distinct jobs

-- What a listing of the storage promises, with a limit that is not reached.
pub record IsListing (list : Listing) : Type 0 where
  pub find-list :
      (q : Query) (limit : ℕ) (jobs : Jobs) (k : Text)
      → IsTable jobs
      → length jobs ≤ limit
      → find k (list q limit jobs) ≡ keep (matches q) (JsMap.get k jobs)
  pub list-DistinctIds :
      (q : Query) (limit : ℕ) (jobs : Jobs)
      → IsTable jobs
      → length jobs ≤ limit
      → DistinctIds (list q limit jobs)

-- The record that a scan makes of a job that is stale.
unfoldable pub recovered : ReconciliationConfig → ℕ → Job → Option Job
recovered config now job =
    if is_allowed config.queue_names job
    then if is_waiting job.status
        && before (now - or_else config.waiting_threshold_ms 300000) job.queued_at
      then some (mark_waiting now job)
      else if is_delayed job.status && is_due config now job
      then some (mark_delayed now job)
      else if is_stalled job.status
      then some (mark_stalled now job)
      else none
    else none

abbrev pub recover : ReconciliationConfig → ℕ → Option Job → Option Job
recover config now none = none
recover config now (some job) = some (or_else (recovered config now job) job)

-- A job that is recovered is queued once at its queue.
abbrev pub once_if : Option Job → ℕ → ℕ
once_if none n = n
once_if (some job) n = 1

abbrev pub queue_after : ReconciliationConfig → ℕ → Text → Option Job → ℕ → ℕ
queue_after config now name none n = n
queue_after config now name (some job) n =
    ite (text_discrete job.queue_name name) (once_if (recovered config now job) n) n

waiting-apart :
    (s : JobStatus) → is_waiting s ≡ true → (is_delayed s ≡ false) × (is_stalled s ≡ false)
waiting-apart waiting h = (refl, refl)
waiting-apart _ h = ground arith

delayed-apart : (s : JobStatus) → is_delayed s ≡ true → is_stalled s ≡ false
delayed-apart delayed h = refl
delayed-apart _ h = ground arith

module _ (config : ReconciliationConfig) (now : ℕ) where
  -- What a pass takes of an id, from the record of it.
  abbrev pub taken : (Job → Bool) → Query → Option Job → Option Job
  taken due q o = keep due (keep (is_allowed config.queue_names) (keep (matches q) o))

  abbrev pub pass : (Job → Bool) → Query → (Job → Job) → Option Job → Option Job
  pass due q mark o = republished mark (taken due q o) o

  abbrev pub cutoff : ℕ
  cutoff = now - or_else config.waiting_threshold_ms 300000

  abbrev pub first_pass : Option Job → Option Job
  first_pass = pass always (waiting_before cutoff) (mark_waiting now)

  abbrev pub second_pass : Option Job → Option Job
  second_pass = pass (is_due config now) all_delayed (mark_delayed now)

  abbrev pub third_pass : Option Job → Option Job
  third_pass = pass always all_stalled (mark_stalled now)

  -- How often an id is queued at a broker after the three passes, from the record before them.
  abbrev pub requeue_all : Text → Option Job → ℕ → ℕ
  requeue_all name o n = requeued name (taken always all_stalled (second_pass (first_pass o))) (
      requeued name (taken (is_due config now) all_delayed (first_pass o))
        (requeued name (taken always (waiting_before cutoff) o) n))

  pub passes-recover :
      (o : Option Job)
      → (third_pass (second_pass (first_pass o)) ≡ recover config now o)
        × ((name : Text) (n : ℕ) → requeue_all name o n ≡ queue_after config now name o n)
  unfolding recovered
  passes-recover none = (refl, λ name n. refl)
  passes-recover (some job) =
      let w = waiting-apart job.status in
      let d = delayed-apart job.status in
      elim (Bool-cases (is_allowed config.queue_names job)) [
        | inr kept ↦ (ground (arith, kept), λ name n. ground (arith, kept))
        | inl allowed ↦ elim (Bool-cases (is_waiting job.status)) [
          | inl waits ↦ elim (Bool-cases (before cutoff job.queued_at)) [
            | inl old ↦ (
              ground (arith, w waits, old, allowed),
              λ name n. ground (arith, w waits, old, allowed),
            )
            | inr fresh ↦ (
              ground (arith, w waits, fresh, allowed),
              λ name n. ground (arith, w waits, fresh, allowed),
            )
          ]
          | inr other ↦ elim (Bool-cases (is_delayed job.status)) [
            | inl late ↦ elim (Bool-cases (is_due config now job)) [
              | inl due ↦ (
                ground (arith, d late, due, allowed),
                λ name n. ground (arith, d late, due, allowed),
              )
              | inr early ↦ (
                ground (arith, d late, early, allowed),
                λ name n. ground (arith, d late, early, allowed),
              )
            ]
            | inr third ↦ elim (Bool-cases (is_stalled job.status)) [
              | inl stalled_job ↦ (
                ground (arith, third, stalled_job, allowed),
                λ name n. ground (arith, third, stalled_job, allowed),
              )
              | inr none_of ↦ (
                ground (arith, third, none_of, allowed),
                λ name n. ground (arith, third, none_of, allowed),
              )
            ]
          ]
        ]
      ]
