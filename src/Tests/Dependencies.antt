-- ===== src/Tests/Dependencies.antt =====
-- engine/utils/dependency-resolver.ts at small inputs: `a` failed, `b` waits for it and fails with
-- it, `c` waits for `b` and ignores failures.
use oqronkit.Prelude.{
  ◌≡◌, ◌≤◌, ◌⊎◌, refl, true, none, some, [], ◌∷◌, List, Option, Text, text, text_discrete, arith,
  ℕ_discrete,
}
use oqronkit.JsMap
use oqronkit.JsMap.{JsMap}
use oqronkit.Job.{
  Job, JobStatus, ParentFailurePolicy, waiting_children, failed, cascade_fail, ignore, block,
}
use oqronkit.Broker.{publish}
use oqronkit.Tests.Sample.{sample}
use oqronkit.Lock.Memory.{memory_lock, acquire, release}
use oqronkit.Dependency.{
  State, notify_children, visit_all, visit, visit_waiting, promote_if_ready, all_ready,
  missing_parents, can_proceed, fail_child, promote_child,
}
use oqronkit.Dependency.Termination.{notify_children-terminates, waiting_count}
use oqronkit.Dependency.Settled.{notify_children-Settled, Settled}
use oqronkit.Dependency.Registration.{
  register_dependencies, try_lock, link_parent, get-register_dependencies,
}

program : Unit {0}
unfolding text_discrete ℕ_discrete JsMap.get JsMap.set JsMap.delete notify_children visit_all visit
    visit_waiting promote_if_ready all_ready missing_parents can_proceed waiting_count publish
    acquire release register_dependencies try_lock link_parent
program = tt

abbrev job : JobStatus → List Text → List Text → ParentFailurePolicy → Job
job status parents children policy = record sample {
  status = status;
  children_ids = some children;
  depends_on = some parents;
  parent_failure_policy = some policy;
}

abbrev a : Text
a = text "a"

abbrev b : Text
b = text "b"

abbrev c : Text
c = text "c"

abbrev job_a : Job
job_a = job failed [] (b ∷ []) block

abbrev job_b : Job
job_b = job waiting_children (a ∷ []) (c ∷ []) cascade_fail

abbrev job_c : Job
job_c = job waiting_children (b ∷ []) [] ignore

abbrev family : State
family = record {
  jobs = (a, job_a) ∷ (b, job_b) ∷ (c, job_c) ∷ [];
  broker = record {
    wait_lists = [];
    priority_lists = [];
    delayed = [];
    active_locks = [];
    paused = [];
    events = [];
  };
}

abbrev settled : Option State
settled = notify_children 3 7 a family

abbrev job_in : Text → Option State → Option Job
job_in k none = none
job_in k (some s) = JsMap.get k s.jobs

b_fails : job_in b settled ≡ some (fail_child a 7 job_b)
unfolding program
b_fails = refl

c_runs : job_in c settled ≡ some (promote_child job_c)
unfolding program
c_runs = refl

missing : missing_parents (a ∷ text "z" ∷ []) family.jobs ≡ text "z" ∷ []
unfolding program
missing = refl

unlocked : (register_dependencies memory_lock c (a ∷ []) 0 family.jobs (some [])).returned ≡ true
unfolding program
unlocked = refl

notify_children-terminates_example :
    (s' : State) × (settled ≡ some s') × (waiting_count s'.jobs ≤ waiting_count family.jobs)
unfolding program
notify_children-terminates_example = notify_children-terminates 3 7 a family (omega arith)

abbrev after : State
after = record {
  jobs = (a, job_a) ∷ (b, fail_child a 7 job_b) ∷ (c, promote_child job_c) ∷ [];
  broker = publish (text "q") c none none 7 family.broker;
}

abbrev linked_jobs : JsMap Job
linked_jobs = (register_dependencies memory_lock c (a ∷ []) 0 family.jobs (some [])).jobs

get-register_dependencies_example :
    JsMap.get a linked_jobs ≡ some (record job_a { children_ids = some (b ∷ c ∷ []) })
unfolding program
get-register_dependencies_example =
    get-register_dependencies memory_lock c a (a ∷ []) 0 family.jobs (some []) refl

notify_children-Settled_example :
    (JsMap.get b after.jobs ≡ JsMap.get b family.jobs)
    ⊎ ((j : Job) × (JsMap.get b family.jobs ≡ some j)
        × (j.status ≡ waiting_children)
        × Settled 7 after.jobs j (JsMap.get b after.jobs))
unfolding program
notify_children-Settled_example = notify_children-Settled 3 7 a family after b refl
