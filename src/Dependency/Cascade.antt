-- ===== src/Dependency/Cascade.antt =====
-- Each step of `notifyChildren`, and the whole call, leaves an outcome for every job record.
use oqronkit.Prelude.{
  ℕ, zero, suc, ◌≡◌, refl, true, Option, none, some, List, [], ◌∷◌, Text, or_else, arith,
  Option-cases, Bool-cases, inl, inr, text_discrete,
}
use oqronkit.JsMap
use oqronkit.JsMap.{JsMap}
use oqronkit.Job.{Job, JobStatus, ParentFailurePolicy, block, cascade_fail, ignore}
use oqronkit.Dependency.{
  Jobs, State, is_waiting_children, is_failed, policy_of, fail_child, promote_child,
  promote_if_ready, visit_waiting, visit, visit_all, notify_children,
}
use oqronkit.Dependency.Evolution.{
  Outcomes, Decided, job_failed, ready_in, Outcomes→Keeps, set-Keeps, job_failed-Keeps,
  Decided-Keeps, Outcomes-trans,
}

refl-Outcomes : (now : ℕ) (jobs : Jobs) → Outcomes now jobs jobs
refl-Outcomes now jobs k = inl refl

set-Outcomes :
    (now : ℕ) (c : Text) (old new : Job) (jobs : Jobs)
    → JsMap.get c jobs ≡ some old
    → is_waiting_children old.status ≡ true
    → Decided now jobs old (some new)
    → Outcomes now jobs (JsMap.set c new jobs)
set-Outcomes now c old new jobs found waits d k = elim (text_discrete c k) [
  | yes here ↦
      let kept =
        Decided-Keeps now jobs (JsMap.set c new jobs) old (some new)
          (set-Keeps c old new jobs found waits) d in
      let now_new : JsMap.get k (JsMap.set c new jobs) ≡ some new =
        ground (arith, JsMap.get-set k c new jobs) in
      inr (old, rw (← here) found, waits, rw now_new kept)
  | no away ↦ inl (ground (arith, JsMap.get-set k c new jobs))
]

promote_if_ready-Outcomes :
    (child_id : Text) (now : ℕ) (child : Job) (s : State)
    → JsMap.get child_id s.jobs ≡ some child
    → is_waiting_children child.status ≡ true
    → Outcomes now s.jobs (promote_if_ready child_id now child s).jobs
unfolding promote_if_ready
promote_if_ready-Outcomes child_id now child s found waits =
    elim (Bool-cases (ready_in s.jobs child)) [
      | inl ready ↦ rw ready (
          set-Outcomes now child_id child (promote_child child) s.jobs found waits
            (inl (refl, ready)))
      | inr pending ↦ rw pending (refl-Outcomes now s.jobs)
    ]

-- `status` is that of the parent's record in `jobs`, as far as it says that the parent failed.
abbrev ReadFrom : Text → JobStatus → Jobs → Type 0
ReadFrom parent_id status jobs =
    is_failed status ≡ true → job_failed (JsMap.get parent_id jobs) ≡ true

abbrev SelfOutcomes : ℕ → (Text → State → Option State) → Type 0
SelfOutcomes now self =
    (id : Text) (s s' : State) → self id s ≡ some s' → Outcomes now s.jobs s'.jobs

ends_at :
    (now : ℕ) (jobs : Jobs) (t s' : State)
    → some t ≡ some s'
    → Outcomes now jobs t.jobs
    → Outcomes now jobs s'.jobs
ends_at now jobs t s' e o = let same : t ≡ s' = cc in rw (← same) o

visit_waiting-Outcomes :
    (self : Text → State → Option State) (parent_id : Text) (status : JobStatus) (child_id : Text)
    (now : ℕ) (child : Job) (policy : ParentFailurePolicy) (s s' : State)
    → SelfOutcomes now self
    → ReadFrom parent_id status s.jobs
    → policy_of child ≡ policy
    → JsMap.get child_id s.jobs ≡ some child
    → is_waiting_children child.status ≡ true
    → visit_waiting self parent_id status child_id now child policy s ≡ some s'
    → Outcomes now s.jobs s'.jobs
unfolding visit_waiting
visit_waiting-Outcomes self parent_id status child_id now child cascade_fail s s' rec reads pol
      found waits run =
    elim (Bool-cases (is_failed status)) [
      | inl bad ↦
          let failing : Jobs = JsMap.set child_id (fail_child parent_id now child) s.jobs in
          Outcomes-trans now s.jobs failing s'.jobs
            (set-Outcomes now child_id child (fail_child parent_id now child) s.jobs found waits
              (inr (parent_id, pol, reads bad, refl)))
            (rec child_id (record s { jobs = failing }) s' (rw bad at run))
      | inr good ↦
          ends_at now s.jobs (promote_if_ready child_id now child s) s' (rw good at run)
            (promote_if_ready-Outcomes child_id now child s found waits)
    ]
visit_waiting-Outcomes self parent_id status child_id now child block s s' rec reads pol found waits
      run =
    elim (Bool-cases (is_failed status)) [
      | inl bad ↦ ends_at now s.jobs s s' (rw bad at run) (refl-Outcomes now s.jobs)
      | inr good ↦
          ends_at now s.jobs (promote_if_ready child_id now child s) s' (rw good at run)
            (promote_if_ready-Outcomes child_id now child s found waits)
    ]
visit_waiting-Outcomes self parent_id status child_id now child ignore s s' rec reads pol found
      waits run =
    ends_at now s.jobs (promote_if_ready child_id now child s) s' run
      (promote_if_ready-Outcomes child_id now child s found waits)

visit-Outcomes :
    (self : Text → State → Option State) (parent_id : Text) (status : JobStatus) (now : ℕ)
    (child_id : Text) (s s' : State)
    → SelfOutcomes now self
    → ReadFrom parent_id status s.jobs
    → visit self parent_id status now child_id s ≡ some s'
    → Outcomes now s.jobs s'.jobs
unfolding visit
visit-Outcomes self parent_id status now child_id s s' rec reads run =
    elim (Option-cases (JsMap.get child_id s.jobs)) [
      | inl gone ↦ ends_at now s.jobs s s' (rw (gone, visit) at run) (refl-Outcomes now s.jobs)
      | inr (child, found) ↦ elim (Bool-cases (is_waiting_children child.status)) [
        | inl waits ↦
            visit_waiting-Outcomes self parent_id status child_id now child (policy_of child) s s'
              rec reads refl found waits (rw (found, waits, visit) at run)
        | inr other ↦
            ends_at now s.jobs s s' (rw (found, other, visit) at run) (refl-Outcomes now s.jobs)
      ]
    ]

visit_all-Outcomes :
    (self : Text → State → Option State) (parent_id : Text) (status : JobStatus) (now : ℕ)
    (ids : List Text) (s s' : State)
    → SelfOutcomes now self
    → ReadFrom parent_id status s.jobs
    → visit_all self parent_id status now ids s ≡ some s'
    → Outcomes now s.jobs s'.jobs
unfolding visit_all
visit_all-Outcomes self parent_id status now [] s s' rec reads run =
    ends_at now s.jobs s s' run (refl-Outcomes now s.jobs)
visit_all-Outcomes self parent_id status now (c ∷ cs) s s' rec reads run =
    elim (Option-cases (visit self parent_id status now c s)) [
      | inl out ↦ let never : none ≡ some s' = rw (out, visit_all) at run in ground arith
      | inr (m, one) ↦
          let first = visit-Outcomes self parent_id status now c s m rec reads one in
          let second =
            visit_all-Outcomes self parent_id status now cs m s' rec
              (λ bad.
                job_failed-Keeps parent_id s.jobs m.jobs (Outcomes→Keeps now s.jobs m.jobs first)
                  (reads bad))
              (rw (one, visit_all) at run) in
          Outcomes-trans now s.jobs m.jobs s'.jobs first second
    ]

pub notify_children-Outcomes :
    (fuel now : ℕ) (id : Text) (s s' : State)
    → notify_children fuel now id s ≡ some s'
    → Outcomes now s.jobs s'.jobs
unfolding notify_children
notify_children-Outcomes zero now id s s' run = ground arith
notify_children-Outcomes (suc fuel) now id s s' run = elim (Option-cases (JsMap.get id s.jobs)) [
  | inl gone ↦
      ends_at now s.jobs s s' (rw (gone, notify_children) at run) (refl-Outcomes now s.jobs)
  | inr (job, found) ↦
      visit_all-Outcomes (notify_children fuel now) id job.status now (or_else job.children_ids [])
        s s' (notify_children-Outcomes fuel now) (λ bad. rw found bad)
        (rw (found, notify_children) at run)
]
