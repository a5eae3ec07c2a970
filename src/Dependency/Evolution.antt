-- ===== src/Dependency/Evolution.antt =====
-- What `notifyChildren` does to each job record, seen from the jobs before and after the whole call
-- with its cascades.
use oqronkit.Prelude.{
  ℕ, ◌≡◌, refl, Bool, true, false, Option, none, some, List, [], ◌∷◌, Text, or_else, arith,
  Option-cases, Bool-cases, inl, inr, ◌⊎◌,
}
use oqronkit.JsMap
use oqronkit.JsMap.{JsMap}
use oqronkit.Job.{Job, JobStatus, ParentFailurePolicy, cascade_fail}
use oqronkit.Dependency.{
  Jobs, is_waiting_children, is_failed, policy_of, fail_child, promote_child, all_ready,
  parent_done,
}

abbrev pub job_failed : Option Job → Bool
job_failed none = false
job_failed (some job) = is_failed job.status

abbrev pub ready_in : Jobs → Job → Bool
ready_in jobs j = all_ready (policy_of j) (or_else j.depends_on []) jobs

-- A waiting job was promoted, with all of its parents done in `final`, or failed by a parent that
-- is `failed` in `final`.
abbrev pub Decided : ℕ → Jobs → Job → Option Job → Type 0
Decided now final j after =
    ((after ≡ some (promote_child j)) × (ready_in final j ≡ true))
    ⊎ ((p : Text) × (policy_of j ≡ cascade_fail)
        × (job_failed (JsMap.get p final) ≡ true)
        × (after ≡ some (fail_child p now j)))

-- A record is as before, or it waited and was decided.
abbrev pub Outcome : ℕ → Jobs → Option Job → Option Job → Type 0
Outcome now final before after =
    (after ≡ before)
    ⊎ ((j : Job) × (before ≡ some j)
        × (is_waiting_children j.status ≡ true)
        × Decided now final j after)

abbrev pub Outcomes : ℕ → Jobs → Jobs → Type 0
Outcomes now jobs jobs' = (k : Text) → Outcome now jobs' (JsMap.get k jobs) (JsMap.get k jobs')

-- Jobs that do not wait for their parents stay as they are.
abbrev pub Keeps : Jobs → Jobs → Type 0
Keeps jobs jobs' =
    (k : Text) (j : Job)
    → JsMap.get k jobs ≡ some j
    → is_waiting_children j.status ≡ false
    → JsMap.get k jobs' ≡ some j

pub Outcomes→Keeps : (now : ℕ) (jobs jobs' : Jobs) → Outcomes now jobs jobs' → Keeps jobs jobs'
Outcomes→Keeps now jobs jobs' o k j e w = ground (arith, o k)

pub set-Keeps :
    (c : Text) (old new : Job) (jobs : Jobs)
    → JsMap.get c jobs ≡ some old
    → is_waiting_children old.status ≡ true
    → Keeps jobs (JsMap.set c new jobs)
set-Keeps c old new jobs found waits k j e w = ground (arith, JsMap.get-set k c new jobs)

done_not_waiting :
    (policy : ParentFailurePolicy) (j : Job)
    → parent_done policy (some j) ≡ true
    → is_waiting_children j.status ≡ false
done_not_waiting policy j h = ground arith

failed_not_waiting : (s : JobStatus) → is_failed s ≡ true → is_waiting_children s ≡ false
failed_not_waiting s h = ground arith

parent_done-Keeps :
    (policy : ParentFailurePolicy) (p : Text) (jobs jobs' : Jobs)
    → Keeps jobs jobs'
    → parent_done policy (JsMap.get p jobs) ≡ true
    → parent_done policy (JsMap.get p jobs') ≡ true
parent_done-Keeps policy p jobs jobs' keeps h = elim (Option-cases (JsMap.get p jobs)) [
  | inl gone ↦ ground arith
  | inr (j, found) ↦
      let done : parent_done policy (some j) ≡ true = rw found at h in
      rw (keeps p j found (done_not_waiting policy j done)) done
]

pub job_failed-Keeps :
    (p : Text) (jobs jobs' : Jobs)
    → Keeps jobs jobs'
    → job_failed (JsMap.get p jobs) ≡ true
    → job_failed (JsMap.get p jobs') ≡ true
job_failed-Keeps p jobs jobs' keeps h = elim (Option-cases (JsMap.get p jobs)) [
  | inl gone ↦ ground arith
  | inr (j, found) ↦
      let bad : is_failed j.status ≡ true = rw found at h in
      rw (keeps p j found (failed_not_waiting j.status bad)) bad
]

all_ready-Keeps :
    (policy : ParentFailurePolicy) (ps : List Text) (jobs jobs' : Jobs)
    → Keeps jobs jobs'
    → all_ready policy ps jobs ≡ true
    → all_ready policy ps jobs' ≡ true
unfolding all_ready
all_ready-Keeps policy [] jobs jobs' keeps h = refl
all_ready-Keeps policy (p ∷ ps) jobs jobs' keeps h =
    elim (Bool-cases (parent_done policy (JsMap.get p jobs))) [
      | inl done ↦
          rw (parent_done-Keeps policy p jobs jobs' keeps done)
            (all_ready-Keeps policy ps jobs jobs' keeps (rw done at h))
      | inr pending ↦ ground arith
    ]

pub Decided-Keeps :
    (now : ℕ) (jobs jobs' : Jobs) (j : Job) (after : Option Job)
    → Keeps jobs jobs'
    → Decided now jobs j after
    → Decided now jobs' j after
Decided-Keeps now jobs jobs' j after keeps (inl (e, ready)) =
    inl (e, all_ready-Keeps (policy_of j) (or_else j.depends_on []) jobs jobs' keeps ready)
Decided-Keeps now jobs jobs' j after keeps (inr (p, policy, bad, e)) =
    inr (p, policy, job_failed-Keeps p jobs jobs' keeps bad, e)

Decided-is_waiting_children :
    (now : ℕ) (jobs : Jobs) (j j' : Job)
    → Decided now jobs j (some j')
    → is_waiting_children j'.status ≡ false
Decided-is_waiting_children now jobs j j' d = ground arith

pub Outcomes-trans :
    (now : ℕ) (a b c : Jobs) → Outcomes now a b → Outcomes now b c → Outcomes now a c
Outcomes-trans now a b c first second k = go (first k) (second k)
  where
    go :
        Outcome now b (JsMap.get k a) (JsMap.get k b)
        → Outcome now c (JsMap.get k b) (JsMap.get k c)
        → Outcome now c (JsMap.get k a) (JsMap.get k c)
    go (inl e) o = rw (← e) o
    go (inr (j, was, waits, d)) (inl e) = inr (
      j,
      was,
      waits,
      rw e (Decided-Keeps now b c j (JsMap.get k b) (Outcomes→Keeps now b c second) d),
    )
    go (inr (j, was, waits, d)) (inr (j', was', waits', d')) =
        let over = Decided-is_waiting_children now b j j' (rw (← was') d) in ground arith
