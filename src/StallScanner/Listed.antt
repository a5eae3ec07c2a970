-- ===== src/StallScanner/Listed.antt =====
-- Which jobs a scan looks at: those that are active or running, at the queues that it is about.
use oqronkit.Prelude.{
  ℕ, ◌≡◌, ◌≤◌, ◌⊎◌, inl, inr, refl, sym, ◌∙◌, subst, Bool, true, false, ◌&&◌, Option, none, some,
  List, [], ◌∷◌, ◌++◌, Text, text_discrete, ite, or_else, if_pos, if_neg, if◌then◌else◌, mem,
  length, arith,
}
use oqronkit.JsMap
use oqronkit.JsMap.{JsMap}
use oqronkit.Job.{
  Job, JobStatus, waiting, waiting_children, active, running, completed, failed, cancelled, delayed,
  paused, stalled,
}
use oqronkit.Reconcile.Passes.{find, keep}
use oqronkit.Reconcile.Recovered.{IsTable}
use oqronkit.StallScanner.{list_queues, active_jobs}
use oqronkit.StallScanner.Appended.{Lists, append-Lists}
use oqronkit.StallScanner.Orphans.{DistinctIds}

-- The status, and the queue if one is asked for.
abbrev pub has_status : JobStatus → JobStatus → Bool
has_status active active = true
has_status running running = true
has_status _ _ = false

abbrev pub in_queue : Option Text → Text → Bool
in_queue none name = true
in_queue (some q) name = ite (text_discrete q name) true false

abbrev pub is_listed : JobStatus → Option Text → Job → Bool
is_listed status queue job = has_status status job.status && in_queue queue job.queue_name

abbrev pub ActiveListing : Type 0
ActiveListing = JsMap Job → JobStatus → Option Text → ℕ → List Job

-- What a listing of the storage promises of the active and the running, with a limit that is not reached.
pub record ListsActive (list : ActiveListing) : Type 0 where
  pub find-list :
      (status : JobStatus) (queue : Option Text) (limit : ℕ) (jobs : JsMap Job) (k : Text)
      → (status ≡ active) ⊎ (status ≡ running)
      → IsTable jobs
      → length jobs ≤ limit
      → find k (list jobs status queue limit) ≡ keep (is_listed status queue) (JsMap.get k jobs)
  pub list-DistinctIds :
      (status : JobStatus) (queue : Option Text) (limit : ℕ) (jobs : JsMap Job)
      → (status ≡ active) ⊎ (status ≡ running)
      → IsTable jobs
      → length jobs ≤ limit
      → DistinctIds (list jobs status queue limit)

-- No queue is named twice.
abbrev pub DistinctNames : List Text → Type 0
DistinctNames [] = Unit {0}
DistinctNames (q ∷ qs) = (mem q qs ≡ false) × DistinctNames qs

abbrev pub is_running : JobStatus → Bool
is_running active = true
is_running running = true
is_running _ = false

-- Whether the scan is about the queue.
abbrev pub in_scope : Option (List Text) → Text → Bool
in_scope none name = true
in_scope (some []) name = true
in_scope (some (q ∷ qs)) name = mem name (q ∷ qs)

abbrev pub is_scanned : Option (List Text) → Job → Bool
is_scanned queues job = is_running job.status && in_scope queues job.queue_name

abbrev of_queues : List Text → Job → Bool
of_queues qs job = is_running job.status && mem job.queue_name qs

-- Active or running at the queue, and what is left for the queues after it.
split_status :
    (st : JobStatus) (here later : Bool)
    → (is_running st && (if here then true else later)) ≡ (
        if (if has_status active st && here then true else has_status running st && here)
        then true
        else is_running st && later)
split_status active true later = refl
split_status active false later = refl
split_status running true later = refl
split_status running false later = refl
split_status waiting here later = refl
split_status waiting_children here later = refl
split_status completed here later = refl
split_status failed here later = refl
split_status cancelled here later = refl
split_status delayed here later = refl
split_status paused here later = refl
split_status stalled here later = refl

split_all :
    (st : JobStatus)
    → is_running st ≡ (if has_status active st && true then true else has_status running st && true)
split_all active = refl
split_all running = refl
split_all waiting = refl
split_all waiting_children = refl
split_all completed = refl
split_all failed = refl
split_all cancelled = refl
split_all delayed = refl
split_all paused = refl
split_all stalled = refl

-- An active job is not running; one at the queue is at none of the queues after it.
running_apart :
    (st : JobStatus) (here : Bool)
    → (has_status active st && here) ≡ true
    → (has_status running st && here) ≡ false
running_apart active here h = refl
running_apart running here h = ground (arith, h)
running_apart waiting here h = refl
running_apart waiting_children here h = refl
running_apart completed here h = refl
running_apart failed here h = refl
running_apart cancelled here h = refl
running_apart delayed here h = refl
running_apart paused here h = refl
running_apart stalled here h = refl

split_queue :
    (st : JobStatus) (q name : Text) (qs : List Text)
    → (is_running st && mem name (q ∷ qs)) ≡ (
        if (if has_status active st && in_queue (some q) name
          then true
          else has_status running st && in_queue (some q) name)
        then true
        else is_running st && mem name qs)
split_queue st q name qs = elim (text_discrete q name) [
  | yes same ↦
      rw (if_pos (text_discrete q name) same, if_pos (text_discrete q name) same)
        (split_status st true (mem name qs))
  | no other ↦
      rw (if_neg (text_discrete q name) other, if_neg (text_discrete q name) other)
        (split_status st false (mem name qs))
]

later_apart :
    (q : Text) (qs : List Text) (name : Text) (a b c : Bool)
    → mem q qs ≡ false
    → (if a && in_queue (some q) name then true else b && in_queue (some q) name) ≡ true
    → (c && mem name qs) ≡ false
later_apart q qs name a b c absent h = elim (text_discrete q name) [
  | yes same ↦
      let gone : mem name qs ≡ false = subst (λ x. mem x qs ≡ false) same absent in
      ground (arith, gone)
  | no other ↦ ground (arith, h, other)
]

none_kept : (o : Option Job) → none ≡ keep (of_queues []) o
none_kept none = refl
none_kept (some j) = ground arith

and-true : (a : Bool) → a ≡ (a && true)
and-true true = refl
and-true false = refl

module _ (list : ActiveListing) (listing : ListsActive list) (jobs : JsMap Job) (t : IsTable jobs)
    (fits : length jobs ≤ 1000) where
  listed-Lists :
      (status : JobStatus) (queue : Option Text) (limit : ℕ)
      → (status ≡ active) ⊎ (status ≡ running)
      → 1000 ≤ limit
      → Lists (is_listed status queue) (list jobs status queue limit) jobs
  listed-Lists status queue limit s large = (
    λ k. listing.find-list status queue limit jobs k s t (omega arith),
    listing.list-DistinctIds status queue limit jobs s t (omega arith),
  )

  all-Lists :
      Lists
        (λ j. is_running j.status && true)
        (list jobs active none 10000 ++ list jobs running none 10000)
        jobs
  all-Lists =
      append-Lists (is_listed active none) (is_listed running none)
        (λ j. is_running j.status && true) _ _ jobs
        (listed-Lists active none 10000 (inl refl) (omega arith))
        (listed-Lists running none 10000 (inr refl) (omega arith))
        (λ j. sym (and-true (is_running j.status)) ∙ split_all j.status)
        (λ j h. running_apart j.status true h)

  list_queues-Lists :
      (qs : List Text) → DistinctNames qs → Lists (of_queues qs) (list_queues list qs jobs) jobs
  unfolding list_queues find
  list_queues-Lists [] d = (λ k. none_kept (JsMap.get k jobs), tt)
  list_queues-Lists (q ∷ qs) (absent, d) =
      let here : Job → Bool =
        λ j. if is_listed active (some q) j then true else is_listed running (some q) j in
      append-Lists here (of_queues qs) (of_queues (q ∷ qs)) _ _ jobs
        (append-Lists (is_listed active (some q)) (is_listed running (some q)) here _ _ jobs
          (listed-Lists active (some q) 1000 (inl refl) (omega arith))
          (listed-Lists running (some q) 1000 (inr refl) (omega arith)) (λ j. refl)
          (λ j h. running_apart j.status (in_queue (some q) j.queue_name) h))
        (list_queues-Lists qs d) (λ j. split_queue j.status q j.queue_name qs)
        (λ j h. later_apart q qs j.queue_name _ _ (is_running j.status) absent h)

  pub active_jobs-Lists :
      (queues : Option (List Text))
      → DistinctNames (or_else queues [])
      → Lists (is_scanned queues) (active_jobs list queues jobs) jobs
  unfolding active_jobs
  active_jobs-Lists none d = all-Lists
  active_jobs-Lists (some []) d = all-Lists
  active_jobs-Lists (some (q ∷ qs)) d = list_queues-Lists (q ∷ qs) d
