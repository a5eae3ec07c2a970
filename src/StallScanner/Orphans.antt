-- ===== src/StallScanner/Orphans.antt =====
-- The loop of a scan, from the list of the jobs that it reclaims.
use oqronkit.Prelude.{
  ℕ, suc, ◌+◌, ◌≡◌, refl, ◌∙◌, true, false, List, [], ◌∷◌, ◌++◌, Text, or_else, if◌then◌else◌,
  if_pos, if_neg, text_discrete, map, arith, Bool-cases, inl, inr, length, mem,
}
use mathlib.Core.List.{append-nil, append_assoc}
use oqronkit.JsMap
use oqronkit.JsMap.{JsMap}
use oqronkit.Job.{Job}
use oqronkit.Lock.{LockAdapter}
use oqronkit.StallScanner.{Scanned, reclaim, is_orphan, scan_jobs}

-- The job as the scan saves it.
abbrev pub reclaimed : (ℕ → Text) → ℕ → ℕ → Job → Job
reclaimed show max_stalled now job = reclaim show (or_else job.worker_id []) max_stalled now job

-- No two of the jobs have the same id.
abbrev pub DistinctIds : List Job → Type 0
DistinctIds [] = Unit {0}
DistinctIds (job ∷ rest) = (mem job.id (map (λ j. j.id) rest) ≡ false) × DistinctIds rest

-- The listed jobs that the scan takes for orphans, in order.
module _ (show : ℕ → Text) (L : LockAdapter) (prefix : Text) (now : ℕ) (lock : L.State) where
  unfoldable pub orphans : List Job → List Job
  orphans [] = []
  orphans (job ∷ rest) =
      let others = orphans rest in
      if is_orphan show L prefix now lock job then job ∷ others else others

  -- The orphans saved under their ids, in turn.
  unfoldable pub save_all : ℕ → List Job → JsMap Job → JsMap Job
  save_all max_stalled [] jobs = jobs
  save_all max_stalled (job ∷ rest) jobs =
      save_all max_stalled rest (JsMap.set job.id (reclaimed show max_stalled now job) jobs)

  -- The result of the loop, from what the orphans are.
  abbrev pub outcome : ℕ → List Job → Scanned → Scanned
  outcome max_stalled found acc = record {
    jobs = save_all max_stalled found acc.jobs;
    reported = acc.reported ++ map (reclaimed show max_stalled now) found;
    stalled_count = acc.stalled_count + length found;
  }

  pub scan_jobs-orphans :
      (max_stalled : ℕ) (listed : List Job) (acc : Scanned)
      → scan_jobs show L prefix max_stalled now lock listed acc
        ≡ outcome max_stalled (orphans listed) acc
  unfolding scan_jobs orphans save_all
  scan_jobs-orphans max_stalled [] acc =
      let none_more : acc.stalled_count + 0 ≡ acc.stalled_count = omega arith in
      rw (append-nil acc.reported, none_more)
  scan_jobs-orphans max_stalled (job ∷ rest) acc =
      elim (Bool-cases (is_orphan show L prefix now lock job)) [
        | inl lost ↦
            let job' : Job = reclaimed show max_stalled now job in
            let acc' : Scanned = record {
              jobs = JsMap.set job.id job' acc.jobs;
              reported = acc.reported ++ job' ∷ [];
              stalled_count = acc.stalled_count + 1;
            } in
            let count : acc.stalled_count + 1 + length (orphans rest)
                ≡ acc.stalled_count + suc (length (orphans rest)) =
              omega arith in
            let list_eq =
              append_assoc acc.reported (job' ∷ [])
                (map (reclaimed show max_stalled now) (orphans rest)) in
            rw lost (scan_jobs-orphans max_stalled rest acc' ∙ rw (list_eq, count))
        | inr held ↦ rw held (scan_jobs-orphans max_stalled rest acc)
      ]

  pub save_all-other :
      (max_stalled : ℕ) (k : Text) (found : List Job) (jobs : JsMap Job)
      → mem k (map (λ j. j.id) found) ≡ false
      → JsMap.get k (save_all max_stalled found jobs) ≡ JsMap.get k jobs
  unfolding save_all
  save_all-other max_stalled k [] jobs h = refl
  save_all-other max_stalled k (job ∷ rest) jobs h = elim (text_discrete job.id k) [
    | yes here ↦
        let never : true ≡ false = rw (if_pos (text_discrete job.id k) here) at h in ground arith
    | no away ↦
        let later : mem k (map (λ j. j.id) rest) ≡ false =
          rw (if_neg (text_discrete job.id k) away) at h in
        let kept = JsMap.get-set k job.id (reclaimed show max_stalled now job) jobs in
        save_all-other max_stalled k rest
          (JsMap.set job.id (reclaimed show max_stalled now job) jobs) later
        ∙ kept
        ∙ if_neg (text_discrete job.id k) away _ _
  ]
