-- ===== src/Dependency.antt =====
-- engine/utils/dependency-resolver.ts, `DependencyResolver`, over the jobs of the storage and the
-- in-memory broker.
pub mod Termination
pub mod Evolution
pub mod Cascade
pub mod Settled
pub mod Registration
use oqronkit.Prelude.{
  ℕ, zero, suc, ◌+◌, Bool, true, false, Option, none, some, List, [], ◌∷◌, ◌++◌, Text, text,
  or_else, mem, not, if◌then◌else◌,
}
use oqronkit.JsMap
use oqronkit.JsMap.{JsMap}
use oqronkit.Job.{
  Job, JobStatus, waiting, waiting_children, active, running, completed, failed, cancelled, delayed,
  paused, stalled, ParentFailurePolicy, block, cascade_fail, ignore,
}
use oqronkit.Broker.{Broker, publish}

abbrev pub Jobs : Type 0
Jobs = JsMap Job

abbrev pub is_completed : JobStatus → Bool
is_completed completed = true
is_completed _ = false

abbrev pub is_failed : JobStatus → Bool
is_failed failed = true
is_failed _ = false

abbrev pub is_waiting_children : JobStatus → Bool
is_waiting_children waiting_children = true
is_waiting_children _ = false

-- `assertParentsExist`: the ids that it reports; it throws unless there are none.
unfoldable pub missing_parents : List Text → Jobs → List Text
missing_parents [] jobs = []
missing_parents (p ∷ ps) jobs = elim (JsMap.get p jobs) [
  | none ↦ p ∷ missing_parents ps jobs
  | some _ ↦ missing_parents ps jobs
]

abbrev pub job_completed : Option Job → Bool
job_completed none = false
job_completed (some parent) = is_completed parent.status

unfoldable pub can_proceed : List Text → Jobs → Bool
can_proceed [] jobs = true
can_proceed (p ∷ ps) jobs = if job_completed (JsMap.get p jobs) then can_proceed ps jobs else false

abbrev pub is_ignore : ParentFailurePolicy → Bool
is_ignore ignore = true
is_ignore _ = false

-- One parent in the loop that computes `allReady`.
abbrev pub parent_done : ParentFailurePolicy → Option Job → Bool
parent_done policy none = false
parent_done policy (some parent) =
    if is_completed parent.status
    then true
    else if is_failed parent.status
    then is_ignore policy
    else false

unfoldable pub all_ready : ParentFailurePolicy → List Text → Jobs → Bool
all_ready policy [] jobs = true
all_ready policy (p ∷ ps) jobs =
    if parent_done policy (JsMap.get p jobs) then all_ready policy ps jobs else false

pub record State : Type 0 where
  pub jobs : Jobs
  pub broker : Broker

abbrev pub policy_of : Job → ParentFailurePolicy
policy_of child = or_else child.parent_failure_policy block

abbrev pub failure_message : Text → Text
failure_message parent_id = text "Parent job \"" ++ parent_id ++ text "\" failed"

abbrev pub fail_child : Text → ℕ → Job → Job
fail_child parent_id now child = record child {
  status = failed;
  error = some (failure_message parent_id);
  finished_at = some now;
}

abbrev pub promote_child : Job → Job
promote_child child = record child { status = waiting }

-- The last part of the loop's body.
unfoldable pub promote_if_ready : Text → ℕ → Job → State → State
promote_if_ready child_id now child s =
    if all_ready (policy_of child) (or_else child.depends_on []) s.jobs
    then record {
      jobs = JsMap.set child_id (promote_child child) s.jobs;
      broker = publish child.queue_name child_id none child.priority now s.broker;
    }
    else s

-- What the loop does with a child that waits: `self` is the recursive call.
unfoldable pub visit_waiting :
    (Text → State → Option State)
    → Text
    → JobStatus
    → Text
    → ℕ
    → Job
    → ParentFailurePolicy
    → State
    → Option State
visit_waiting self parent_id parent_status child_id now child cascade_fail s =
    if is_failed parent_status
    then self child_id
        (record s { jobs = JsMap.set child_id (fail_child parent_id now child) s.jobs })
    else some (promote_if_ready child_id now child s)
visit_waiting self parent_id parent_status child_id now child block s =
    if is_failed parent_status then some s else some (promote_if_ready child_id now child s)
visit_waiting self parent_id parent_status child_id now child ignore s =
    some (promote_if_ready child_id now child s)

unfoldable pub visit :
    (Text → State → Option State) → Text → JobStatus → ℕ → Text → State → Option State
visit self parent_id parent_status now child_id s = elim (JsMap.get child_id s.jobs) [
  | none ↦ some s
  | some child ↦
      if is_waiting_children child.status
      then visit_waiting self parent_id parent_status child_id now child (policy_of child) s
      else some s
]

unfoldable pub visit_all :
    (Text → State → Option State) → Text → JobStatus → ℕ → List Text → State → Option State
visit_all self parent_id parent_status now [] s = some s
visit_all self parent_id parent_status now (c ∷ cs) s =
    elim (visit self parent_id parent_status now c s) [
      | none ↦ none
      | some s' ↦ visit_all self parent_id parent_status now cs s'
    ]

-- `notifyChildren`; `none` is fuel that ran out. The parent is read once, before the loop.
unfoldable pub notify_children : ℕ → ℕ → Text → State → Option State
notify_children zero now id s = none
notify_children (suc fuel) now id s = elim (JsMap.get id s.jobs) [
  | none ↦ some s
  | some job ↦
      visit_all (notify_children fuel now) id job.status now (or_else job.children_ids []) s
]
