-- ===== src/StallScanner/Counts.antt =====
-- What a scan takes for an orphan with the in-memory lock, and how often a job may stall.
use oqronkit.Prelude.{
  ℕ, zero, suc, ◌+◌, ◌≡◌, ◌≤◌, ◌<◌, ◌↔◌, refl, ap, ◌∙◌, true, false, none, some, ◌∷◌, Text, or_else,
  leb, arith, Bool-cases, inl, inr, leb→le, leb→lt,
}
use oqronkit.JsMap
use oqronkit.Job.{Job, failed}
use oqronkit.Lock.{Lease}
use oqronkit.Lock.Memory.{Locks, memory_lock, is_owner, is_owner_lem}
use oqronkit.StallScanner.{job_lock_key, reclaim, is_orphan}

-- A job that was reclaimed `n + 1` times, and was taken up again by `resume` in between.
unfoldable pub reclaim_times : (ℕ → Text) → (Job → Job) → Text → ℕ → ℕ → ℕ → Job → Job
reclaim_times show resume worker max_stalled now zero job = reclaim show worker max_stalled now job
reclaim_times show resume worker max_stalled now (suc n) job =
    reclaim show worker max_stalled now
      (resume (reclaim_times show resume worker max_stalled now n job))

reclaim-stalled_count :
    (show : ℕ → Text) (worker : Text) (max_stalled now : ℕ) (job : Job)
    → (reclaim show worker max_stalled now job).stalled_count
      ≡ some (or_else job.stalled_count 0 + 1)
unfolding reclaim
reclaim-stalled_count show worker max_stalled now job = ground arith

reclaim_times-stalled_count :
    (show : ℕ → Text) (resume : Job → Job) (worker : Text) (max_stalled now n : ℕ) (job : Job)
    → ((j : Job) → (resume j).stalled_count ≡ j.stalled_count)
    → job.stalled_count ≡ none
    → (reclaim_times show resume worker max_stalled now n job).stalled_count ≡ some (n + 1)
unfolding reclaim_times
reclaim_times-stalled_count show resume worker max_stalled now zero job keeps fresh =
    rw (reclaim-stalled_count show worker max_stalled now job, fresh)
reclaim_times-stalled_count show resume worker max_stalled now (suc n) job keeps fresh =
    let before : Job = reclaim_times show resume worker max_stalled now n job in
    let count = reclaim_times-stalled_count show resume worker max_stalled now n job keeps fresh in
    rw (reclaim-stalled_count show worker max_stalled now (resume before), keeps before, count)
      (ap some (omega arith))

reclaim-failed :
    (show : ℕ → Text) (worker : Text) (max_stalled now n : ℕ) (job : Job)
    → or_else job.stalled_count 0 ≡ n
    → ((reclaim show worker max_stalled now job).status ≡ failed) ↔ (max_stalled ≤ n + 1)
unfolding reclaim
reclaim-failed show worker max_stalled now n job e =
    elim (Bool-cases (leb max_stalled (or_else job.stalled_count 0 + 1))) [
      | inl over ↦
          let le = leb→le max_stalled (or_else job.stalled_count 0 + 1) over in
          rw over ((λ failing. rw e at le), λ small. refl)
      | inr under ↦
          let lt = leb→lt max_stalled (or_else job.stalled_count 0 + 1) under in
          rw under ((λ failing. ground arith), λ small. ground arith)
    ]

-- A job with no stalled count that is reclaimed `n + 1` times, taken up again in between by code
-- that keeps the count, is failed exactly if `maxStalledCount` is at most `n + 1`.
pub failed_after_stalls :
    (show : ℕ → Text) (resume : Job → Job) (worker : Text) (max_stalled now n : ℕ) (job : Job)
    → ((j : Job) → (resume j).stalled_count ≡ j.stalled_count)
    → job.stalled_count ≡ none
    → ((reclaim_times show resume worker max_stalled now n job).status ≡ failed)
      ↔ (max_stalled ≤ n + 1)
unfolding reclaim_times
failed_after_stalls show resume worker max_stalled now zero job keeps fresh =
    reclaim-failed show worker max_stalled now 0 job (rw fresh)
failed_after_stalls show resume worker max_stalled now (suc n) job keeps fresh =
    let before : Job = reclaim_times show resume worker max_stalled now n job in
    let count : (resume before).stalled_count ≡ some (n + 1) =
      keeps before
      ∙ reclaim_times-stalled_count show resume worker max_stalled now n job keeps fresh in
    reclaim-failed show worker max_stalled now (suc n) (resume before) (rw count (omega arith))

is_owner_held :
    (key owner : Text) (now : ℕ) (locks : Locks) (l : Lease)
    → JsMap.get key locks ≡ some l
    → l.owner ≡ owner
    → now < l.expires_at
    → is_owner key owner now locks ≡ true
unfolding is_owner
is_owner_held key owner now locks l e o lt = ground arith

-- With the in-memory lock, a job with a worker is taken for an orphan exactly if that worker holds
-- no lease on the key of the job that is still to expire.
pub memory_orphan_iff :
    (show : ℕ → Text) (prefix : Text) (now : ℕ) (locks : Locks) (job : Job) (c : ℕ) (cs : Text)
    → job.worker_id ≡ some (c ∷ cs)
    → (is_orphan show memory_lock prefix now locks job ≡ true)
      ↔ ¬ (
          (l : Lease) × (JsMap.get (job_lock_key prefix job.id) locks ≡ some l)
          × (l.owner ≡ c ∷ cs)
          × (now < l.expires_at))
unfolding is_orphan
memory_orphan_iff show prefix now locks job c cs claimed =
    let key : Text = job_lock_key prefix job.id in
    elim (Bool-cases (is_owner key (c ∷ cs) now locks)) [
      | inl held ↦
          rw (claimed, is_orphan)
            (rw held (
              (λ lost. ground arith),
              λ none_live. elim (none_live (is_owner_lem key (c ∷ cs) now locks held)) [ ],
            ))
      | inr free ↦
          rw (claimed, is_orphan)
            (rw free (
              (λ lost live.
                  let (l, at, mine, alive) = live in
                  let never : true ≡ false =
                    rw (is_owner_held key (c ∷ cs) now locks l at mine alive) at free in
                  ground arith),
              λ none_live. refl,
            ))
    ]
