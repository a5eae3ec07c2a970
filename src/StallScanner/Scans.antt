-- ===== src/StallScanner/Scans.antt =====
-- What a scan makes of the record of any one job.
use oqronkit.Prelude.{
  ℕ, ◌+◌, ◌≡◌, ◌≢◌, ◌≤◌, ◌<◌, ◌⊎◌, inl, inr, refl, sym, ap, ◌∙◌, subst, Bool, true, false, Option,
  none, some, List, [], ◌∷◌, ◌++◌, Text, text, text_discrete, or_else, leb, if_pos, if_neg, mem,
  map, length, arith, Bool-cases, leb→le, leb→lt, suc, ◌&&◌,
}
use oqronkit.JsMap
use oqronkit.JsMap.{JsMap}
use oqronkit.Job.{Job, JobStatus, active, running, stalled, failed}
use oqronkit.Lock.{LockAdapter}
use oqronkit.Reconcile.{select}
use oqronkit.Reconcile.Passes.{find, keep, ids, find-select, select-DistinctIds}
use oqronkit.Reconcile.Recovered.{IsTable}
use oqronkit.StallScanner.{ScanConfig, active_jobs, reclaim, is_orphan, scan}
use oqronkit.StallScanner.Listed.{
  ActiveListing, ListsActive, DistinctNames, is_running, in_scope, is_scanned, active_jobs-Lists,
}
use oqronkit.StallScanner.Orphans.{
  DistinctIds, orphans, reclaimed, save_all, save_all-other, scan_jobs-orphans,
}

is_running-cases : (st : JobStatus) → is_running st ≡ true → (st ≡ active) ⊎ (st ≡ running)
is_running-cases active h = inl refl
is_running-cases running h = inr refl
is_running-cases _ h = ground (arith, h)

is_running-true : (st : JobStatus) → (st ≡ active) ⊎ (st ≡ running) → is_running st ≡ true
is_running-true st (inl e) = rw e refl
is_running-true st (inr e) = rw e refl

and_parts : (a b : Bool) → (a && b) ≡ true → (a ≡ true) × (b ≡ true)
and_parts true b h = (refl, h)
and_parts false b h = ground (arith, h)

-- What the loop saves and reports of the job that it took with an id.
abbrev taken_or : (Job → Job) → Option Job → Option Job → Option Job
taken_or mark none old = old
taken_or mark (some job) old = some (mark job)

module _ (show : ℕ → Text) (L : LockAdapter) (prefix : Text) (now : ℕ) (lock : L.State) where
  -- A worker is named, and the lock denies that it owns the lease of the job.
  abbrev pub LostWorker : Job → Type 0
  LostWorker job =
      (w : Text) × (job.worker_id ≡ some w)
      × (w ≢ [])
      × (L.is_owner (prefix ++ text ":job:" ++ job.id) w now lock ≡ false)

  orphan_iff :
      (job : Job) (o : Option Text)
      → job.worker_id ≡ o
      → ((is_orphan show L prefix now lock job ≡ true) × LostWorker job)
        ⊎ ((is_orphan show L prefix now lock job ≡ false) × ¬ LostWorker job)
  unfolding is_orphan
  orphan_iff job none e =
      inr (rw (e, is_orphan) refl, λ lost. let (w, e', ne, free) = lost in cc (e, e'))
  orphan_iff job (some []) e = inr (
    rw (e, is_orphan) refl,
    λ lost. let (w, e', ne, free) = lost in let same : [] ≡ w = cc (e, e') in ne (sym same),
  )
  orphan_iff job (some (c ∷ cs)) e =
      elim (Bool-cases (L.is_owner (prefix ++ text ":job:" ++ job.id) (c ∷ cs) now lock)) [
        | inl owned ↦ inr (
          rw (e, is_orphan) (rw owned refl),
          λ lost.
              let (w, e', ne, free) = lost in
              let same : c ∷ cs ≡ w = cc (e, e') in
              let denied : L.is_owner (prefix ++ text ":job:" ++ job.id) (c ∷ cs) now lock ≡ false =
                subst (λ x. L.is_owner (prefix ++ text ":job:" ++ job.id) x now lock ≡ false)
                  (sym same) free in
              cc (owned, denied),
        )
        | inr free ↦ inl (rw (e, is_orphan) (rw free refl), (c ∷ cs, e, (λ x. cc), free))
      ]

  orphans-select :
      (xs : List Job)
      → orphans show L prefix now lock xs ≡ select (is_orphan show L prefix now lock) xs
  unfolding orphans select
  orphans-select [] = refl
  orphans-select (x ∷ xs) = rw (orphans-select xs) refl

  find-orphans :
      (k : Text) (xs : List Job)
      → DistinctIds xs
      → find k (orphans show L prefix now lock xs)
        ≡ keep (is_orphan show L prefix now lock) (find k xs)
  find-orphans k xs d =
      ap (find k) (orphans-select xs) ∙ find-select k (is_orphan show L prefix now lock) xs d

  get-save_all :
      (max_stalled : ℕ) (k : Text) (found : List Job) (jobs : JsMap Job)
      → DistinctIds found
      → JsMap.get k (save_all show L prefix now lock max_stalled found jobs)
        ≡ taken_or (reclaimed show max_stalled now) (find k found) (JsMap.get k jobs)
  unfolding save_all find
  get-save_all max_stalled k [] jobs d = refl
  get-save_all max_stalled k (job ∷ rest) jobs d =
      let job' : Job = reclaimed show max_stalled now job in
      let saved : JsMap Job = JsMap.set job.id job' jobs in
      elim (text_discrete job.id k) [
        | yes here ↦
            let gone = subst (λ i. mem i (ids rest) ≡ false) here d.0 in
            save_all-other show L prefix now lock max_stalled k rest saved gone
            ∙ JsMap.get-set k job.id job' jobs
            ∙ if_pos (text_discrete job.id k) here _ _
            ∙ rw (if_pos (text_discrete job.id k) here) refl
        | no away ↦
            get-save_all max_stalled k rest saved d.1
            ∙ ap (taken_or (reclaimed show max_stalled now) (find k rest))
                (JsMap.get-set k job.id job' jobs ∙ if_neg (text_discrete job.id k) away _ _)
            ∙ rw (if_neg (text_discrete job.id k) away) refl
      ]

  reclaimed-id : (max_stalled : ℕ) (job : Job) → (reclaimed show max_stalled now job).id ≡ job.id
  unfolding reclaim
  reclaimed-id max_stalled job = ground arith

  find-reported :
      (max_stalled : ℕ) (k : Text) (xs : List Job)
      → find k (map (reclaimed show max_stalled now) xs)
        ≡ taken_or (reclaimed show max_stalled now) (find k xs) none
  unfolding find
  find-reported max_stalled k [] = refl
  find-reported max_stalled k (x ∷ xs) = elim (text_discrete x.id k) [
    | yes here ↦
        if_pos (text_discrete (reclaimed show max_stalled now x).id k)
          (reclaimed-id max_stalled x ∙ here) _ _
        ∙ rw (if_pos (text_discrete x.id k) here) refl
    | no away ↦
        if_neg (text_discrete (reclaimed show max_stalled now x).id k)
          (λ e. away (sym (reclaimed-id max_stalled x) ∙ e)) _ _
        ∙ find-reported max_stalled k xs
        ∙ rw (if_neg (text_discrete x.id k) away) refl
  ]

  -- One stall more; at the limit the job is failed, and below it stalled.
  abbrev pub Counted : ℕ → Job → Job → Type 0
  Counted max_stalled job j =
      (j.id ≡ job.id)
      × (j.worker_id ≡ job.worker_id)
      × (j.stalled_count ≡ some (or_else job.stalled_count 0 + 1))
      × (((max_stalled ≤ or_else job.stalled_count 0 + 1)
            × (j.status ≡ failed)
            × (j.finished_at ≡ some now))
          ⊎ ((or_else job.stalled_count 0 + 1 < max_stalled) × (j.status ≡ stalled)))

  reclaimed-Counted :
      (max_stalled : ℕ) (job : Job) → Counted max_stalled job (reclaimed show max_stalled now job)
  unfolding reclaim
  reclaimed-Counted max_stalled job =
      elim (Bool-cases (leb max_stalled (or_else job.stalled_count 0 + 1))) [
        | inl over ↦ rw over (refl, refl, refl, inl (leb→le max_stalled _ over, refl, refl))
        | inr under ↦ rw under (refl, refl, refl, inr (leb→lt max_stalled _ under, refl))
      ]

  -- An active or running job of a queue that the scan is about, whose worker lost the lease.
  abbrev pub Lost : Option (List Text) → Job → Type 0
  Lost queues job =
      ((job.status ≡ active) ⊎ (job.status ≡ running))
      × (in_scope queues job.queue_name ≡ true)
      × LostWorker job

  -- What becomes of a record: what is stored after the scan, and what it reported.
  abbrev pub After : Option (List Text) → ℕ → Option Job → Option Job → Option Job → Type 0
  After queues max_stalled none stored reported = (stored ≡ none) × (reported ≡ none)
  After queues max_stalled (some job) stored reported =
      (Lost queues job
        × ((j : Job) × (stored ≡ some j) × (reported ≡ some j) × Counted max_stalled job j))
      ⊎ (¬ Lost queues job × (stored ≡ some job) × (reported ≡ none))

  taken-After :
      (queues : Option (List Text)) (max_stalled : ℕ) (o : Option Job)
      → let mark = reclaimed show max_stalled now in
        let taken = keep (is_orphan show L prefix now lock) (keep (is_scanned queues) o) in
        After queues max_stalled o (taken_or mark taken o) (taken_or mark taken none)
  taken-After queues max_stalled none = (refl, refl)
  taken-After queues max_stalled (some job) = elim (Bool-cases (is_scanned queues job)) [
    | inr away ↦ rw away (
        inr (
          λ lost.
              let (st, scope, worker) = lost in
              let never : true ≡ false = rw (is_running-true job.status st, scope) at away in
              ground (arith, never),
          refl,
          refl,
        ))
    | inl looked ↦
        let (st, scope) = and_parts (is_running job.status) _ looked in
        elim (orphan_iff job job.worker_id refl) [
          | inl (is, lost) ↦
              rw (looked, is)
                (inl (
                  (is_running-cases job.status st, scope, lost),
                  (
                    reclaimed show max_stalled now job,
                    refl,
                    refl,
                    reclaimed-Counted max_stalled job,
                  ),
                ))
          | inr (isnt, kept) ↦
              rw (looked, isnt)
                (inr (λ lost. let (st', scope', worker) = lost in kept worker, refl, refl))
        ]
  ]

length-map : {A B : Type 0} (f : A → B) (xs : List A) → length (map f xs) ≡ length xs
length-map f [] = refl
length-map f (x ∷ xs) = ap suc (length-map f xs)

-- Let the records stand under their own ids and be no more than 1000, let no queue be named twice,
-- and let the listing return the active and the running records that match. A job is lost if it is
-- active or running, at a queue that the scan is about, and names a worker which by the lock does
-- not own the lease of the job. For every id, a scan leaves the record as it is and reports nothing
-- unless its job is lost. A lost job is stored and reported with one stall more: failed, with the
-- date of its end, if that reaches `maxStalledCount`, and stalled below. The number returned is
-- that of the jobs reported.
pub scan-After :
    (show : ℕ → Text) (L : LockAdapter) (list : ActiveListing) (config : ScanConfig) (now : ℕ)
    (lock : L.State) (jobs : JsMap Job)
    → ListsActive list
    → IsTable jobs
    → length jobs ≤ 1000
    → DistinctNames (or_else config.queue_names [])
    → let s = scan show L list config now lock jobs in
      ((k : Text)
        → After show L config.lock_prefix now lock config.queue_names
            (or_else config.max_stalled_count 3)
            (JsMap.get k jobs)
            (JsMap.get k s.jobs)
            (find k s.reported))
      × (s.stalled_count ≡ length s.reported)
unfolding scan
scan-After show L list config now lock jobs listing t fits names =
    let max_stalled : ℕ = or_else config.max_stalled_count 3 in
    let listed : List Job = active_jobs list config.queue_names jobs in
    let lost : List Job = orphans show L config.lock_prefix now lock listed in
    let (found, d) = active_jobs-Lists list listing jobs t fits config.queue_names names in
    let d' : DistinctIds lost =
      subst DistinctIds (sym (orphans-select show L config.lock_prefix now lock listed))
        (select-DistinctIds _ listed d) in
    let taken : (k : Text)
        → find k lost
          ≡ keep (is_orphan show L config.lock_prefix now lock)
              (keep (is_scanned config.queue_names) (JsMap.get k jobs)) =
      λ k.
        find-orphans show L config.lock_prefix now lock k listed d
        ∙ ap (keep (is_orphan show L config.lock_prefix now lock)) (found k) in
    rw
      (scan_jobs-orphans show L config.lock_prefix now lock max_stalled listed
        (record { jobs = jobs; reported = []; stalled_count = 0 }))
      (
        λ k.
            rw
              (
                get-save_all show L config.lock_prefix now lock max_stalled k lost jobs d',
                find-reported show L config.lock_prefix now lock max_stalled k lost,
                taken k,
              )
              (taken-After show L config.lock_prefix now lock config.queue_names max_stalled
                (JsMap.get k jobs)),
        omega (arith, length-map (reclaimed show max_stalled now) lost),
      )
