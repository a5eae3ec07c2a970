-- ===== src/Dependency/Termination.antt =====
-- `notifyChildren` ends: each cascade takes one more job out of `waiting-children`.
use oqronkit.Prelude.{
  ℕ, zero, suc, ◌+◌, ◌≡◌, ◌≤◌, ◌<◌, refl, true, Option, some, List, [], ◌∷◌, Text, or_else, arith,
  Option-cases, Bool-cases, inl, inr, if◌then◌else◌, text_discrete,
}
use oqronkit.JsMap
use oqronkit.JsMap.{JsMap}
use oqronkit.Job.{Job, JobStatus, ParentFailurePolicy, block, cascade_fail, ignore}
use oqronkit.Dependency.{
  Jobs, State, is_waiting_children, is_failed, policy_of, fail_child, promote_child,
  promote_if_ready, visit_waiting, visit, visit_all, notify_children,
}

abbrev weight : Job → ℕ
weight j = if is_waiting_children j.status then 1 else 0

-- The number of jobs in `waiting-children`.
unfoldable pub waiting_count : Jobs → ℕ
waiting_count [] = 0
waiting_count ((_, j) ∷ jobs) = weight j + waiting_count jobs

waiting_count-set :
    (k : Text) (j old : Job) (jobs : Jobs)
    → JsMap.get k jobs ≡ some old
    → waiting_count (JsMap.set k j jobs) + weight old ≡ waiting_count jobs + weight j
unfolding waiting_count JsMap.get JsMap.set
waiting_count-set k j old [] e = cc
waiting_count-set k j old ((i, x) ∷ jobs) e = elim (text_discrete i k) [
  | yes here ↦ ground arith
  | no away ↦ ground (arith, waiting_count-set k j old jobs)
]

-- A call that ends with no more waiting jobs than there were.
abbrev Ends : State → Option State → Type 0
Ends s o = (s' : State) × (o ≡ some s') × (waiting_count s'.jobs ≤ waiting_count s.jobs)

-- The recursive call ends on states with fewer waiting jobs than `n`.
abbrev EndsBelow : ℕ → (Text → State → Option State) → Type 0
EndsBelow n self = (id : Text) (s : State) → waiting_count s.jobs < n → Ends s (self id s)

promote_if_ready-le :
    (child_id : Text) (now : ℕ) (child : Job) (s : State)
    → JsMap.get child_id s.jobs ≡ some child
    → waiting_count (promote_if_ready child_id now child s).jobs ≤ waiting_count s.jobs
unfolding promote_if_ready
promote_if_ready-le child_id now child s e =
    ground (arith, waiting_count-set child_id (promote_child child) child s.jobs e)

visit_waiting-Ends :
    (n : ℕ) (self : Text → State → Option State) (parent_id : Text) (status : JobStatus)
    (child_id : Text) (now : ℕ) (child : Job) (policy : ParentFailurePolicy) (s : State)
    → EndsBelow n self
    → waiting_count s.jobs ≤ n
    → JsMap.get child_id s.jobs ≡ some child
    → is_waiting_children child.status ≡ true
    → Ends s (visit_waiting self parent_id status child_id now child policy s)
unfolding visit_waiting
visit_waiting-Ends n self parent_id status child_id now child cascade_fail s below room e w =
    elim (Bool-cases (is_failed status)) [
      | inl bad ↦
          let fewer : waiting_count (JsMap.set child_id (fail_child parent_id now child) s.jobs)
              < waiting_count s.jobs =
            ground
              (arith, waiting_count-set child_id (fail_child parent_id now child) child s.jobs e) in
          let (s', runs, le) =
            below child_id
              (record s { jobs = JsMap.set child_id (fail_child parent_id now child) s.jobs })
              (omega arith) in
          (s', rw bad runs, omega arith)
      | inr good ↦ (
        promote_if_ready child_id now child s,
        rw good,
        promote_if_ready-le child_id now child s e,
      )
    ]
visit_waiting-Ends n self parent_id status child_id now child block s below room e w =
    elim (Bool-cases (is_failed status)) [
      | inl bad ↦ (s, rw bad, omega arith)
      | inr good ↦ (
        promote_if_ready child_id now child s,
        rw good,
        promote_if_ready-le child_id now child s e,
      )
    ]
visit_waiting-Ends n self parent_id status child_id now child ignore s below room e w =
    (promote_if_ready child_id now child s, refl, promote_if_ready-le child_id now child s e)

visit-Ends :
    (n : ℕ) (self : Text → State → Option State) (parent_id : Text) (status : JobStatus) (now : ℕ)
    (child_id : Text) (s : State)
    → EndsBelow n self
    → waiting_count s.jobs ≤ n
    → Ends s (visit self parent_id status now child_id s)
unfolding visit
visit-Ends n self parent_id status now child_id s below room =
    elim (Option-cases (JsMap.get child_id s.jobs)) [
      | inl gone ↦ (s, rw (gone, visit), omega arith)
      | inr (child, found) ↦ elim (Bool-cases (is_waiting_children child.status)) [
        | inl waits ↦
            let (s', runs, le) =
              visit_waiting-Ends n self parent_id status child_id now child (policy_of child) s
                below room found waits in
            (s', rw (found, waits, visit) runs, le)
        | inr other ↦ (s, rw (found, other, visit), omega arith)
      ]
    ]

visit_all-Ends :
    (n : ℕ) (self : Text → State → Option State) (parent_id : Text) (status : JobStatus) (now : ℕ)
    (ids : List Text) (s : State)
    → EndsBelow n self
    → waiting_count s.jobs ≤ n
    → Ends s (visit_all self parent_id status now ids s)
unfolding visit_all
visit_all-Ends n self parent_id status now [] s below room = (s, refl, omega arith)
visit_all-Ends n self parent_id status now (c ∷ cs) s below room =
    let (s', runs, le) = visit-Ends n self parent_id status now c s below room in
    let (s2, rest, le2) = visit_all-Ends n self parent_id status now cs s' below (omega arith) in
    (s2, rw (runs, visit_all) rest, omega arith)

notify_children-Ends : (fuel now : ℕ) → EndsBelow fuel (notify_children fuel now)
unfolding notify_children
notify_children-Ends zero now id s room = let never : ⊥ = omega arith in elim never [ ]
notify_children-Ends (suc fuel) now id s room = elim (Option-cases (JsMap.get id s.jobs)) [
  | inl gone ↦ (s, rw (gone, notify_children), omega arith)
  | inr (job, found) ↦
      let (s', runs, le) =
        visit_all-Ends fuel (notify_children fuel now) id job.status now
          (or_else job.children_ids []) s (notify_children-Ends fuel now) (omega arith) in
      (s', rw (found, notify_children) runs, le)
]

-- With more fuel than there are jobs in `waiting-children`, cyclic dependencies or not,
-- `notifyChildren` returns, and leaves no more jobs waiting than there were.
pub notify_children-terminates :
    (fuel now : ℕ) (id : Text) (s : State)
    → waiting_count s.jobs < fuel
    → (s' : State) × (notify_children fuel now id s ≡ some s')
      × (waiting_count s'.jobs ≤ waiting_count s.jobs)
notify_children-terminates fuel now id s room = notify_children-Ends fuel now id s room
