-- ===== src/Dependency/Settled.antt =====
-- The outcome of `notifyChildren` for each job record, in terms of the statuses.
use oqronkit.Prelude.{
  ℕ, ◌≡◌, ◌⊎◌, refl, true, false, Option, none, some, List, [], ◌∷◌, Text, or_else, arith,
  Option-cases, Bool-cases, inl, inr, if◌then◌else◌,
}
use oqronkit.JsMap
use oqronkit.Job.{
  Job, JobStatus, ParentFailurePolicy, waiting, waiting_children, completed, failed, cascade_fail,
  ignore,
}
use oqronkit.Dependency.{
  Jobs, State, policy_of, notify_children, all_ready, parent_done, failure_message, is_completed,
  is_failed, is_ignore, is_waiting_children,
}
use oqronkit.Dependency.Evolution.{Decided, job_failed}
use oqronkit.Dependency.Cascade.{notify_children-Outcomes}

-- A parent that holds up no child of this policy.
abbrev pub Done : ParentFailurePolicy → Job → Type 0
Done policy parent = (parent.status ≡ completed) ⊎ ((parent.status ≡ failed) × (policy ≡ ignore))

abbrev pub AllDone : ParentFailurePolicy → Jobs → List Text → Type 0
AllDone policy jobs [] = Unit {0}
AllDone policy jobs (p ∷ ps) =
    ((parent : Job) × (JsMap.get p jobs ≡ some parent) × Done policy parent)
    × AllDone policy jobs ps

-- The job was promoted, or it was failed by a parent.
abbrev pub Settled : ℕ → Jobs → Job → Option Job → Type 0
Settled now final j after =
    ((after ≡ some (record j { status = waiting }))
      × AllDone (policy_of j) final (or_else j.depends_on []))
    ⊎ ((p : Text) × (parent : Job) × (policy_of j ≡ cascade_fail)
        × (JsMap.get p final ≡ some parent)
        × (parent.status ≡ failed)
        × (after
            ≡ some (record j {
              status = failed;
              error = some (failure_message p);
              finished_at = some now;
            })))

is_completed_status : (s : JobStatus) → is_completed s ≡ true → s ≡ completed
is_completed_status s h = ground arith

is_failed_status : (s : JobStatus) → is_failed s ≡ true → s ≡ failed
is_failed_status s h = ground arith

failed_ignored :
    (s : JobStatus) (policy : ParentFailurePolicy)
    → is_completed s ≡ false
    → (if is_completed s then true else if is_failed s then is_ignore policy else false) ≡ true
    → (s ≡ failed) × (policy ≡ ignore)
failed_ignored failed ignore c h = (refl, refl)
failed_ignored s policy c h = ground arith

is_waiting_children_status : (s : JobStatus) → is_waiting_children s ≡ true → s ≡ waiting_children
is_waiting_children_status s h = ground arith

parent_done-Done :
    (policy : ParentFailurePolicy) (parent : Job)
    → parent_done policy (some parent) ≡ true
    → Done policy parent
parent_done-Done policy parent h = elim (Bool-cases (is_completed parent.status)) [
  | inl over ↦ inl (is_completed_status parent.status over)
  | inr open_one ↦ inr (failed_ignored parent.status policy open_one h)
]

all_ready-AllDone :
    (policy : ParentFailurePolicy) (jobs : Jobs) (ps : List Text)
    → all_ready policy ps jobs ≡ true
    → AllDone policy jobs ps
unfolding all_ready
all_ready-AllDone policy jobs [] h = tt
all_ready-AllDone policy jobs (p ∷ ps) h =
    elim (Bool-cases (parent_done policy (JsMap.get p jobs))) [
      | inl done ↦ elim (Option-cases (JsMap.get p jobs)) [
        | inl gone ↦ ground arith
        | inr (parent, found) ↦ (
          (parent, found, parent_done-Done policy parent (rw found at done)),
          all_ready-AllDone policy jobs ps (rw done at h),
        )
      ]
      | inr pending ↦ ground arith
    ]

job_failed-parent :
    (o : Option Job)
    → job_failed o ≡ true
    → (parent : Job) × (o ≡ some parent) × (parent.status ≡ failed)
job_failed-parent none h = ground arith
job_failed-parent (some parent) h = (parent, refl, is_failed_status parent.status h)

Decided-Settled :
    (now : ℕ) (final : Jobs) (j : Job) (after : Option Job)
    → Decided now final j after
    → Settled now final j after
Decided-Settled now final j after (inl (e, ready)) =
    inl (e, all_ready-AllDone (policy_of j) final (or_else j.depends_on []) ready)
Decided-Settled now final j after (inr (p, policy, bad, e)) =
    let (parent, found, is) = job_failed-parent (JsMap.get p final) bad in
    inr (p, parent, policy, found, is, e)

-- When `notifyChildren` returns, cascades included, each job record is as before, or it was in
-- `waiting-children` and differs in one of two ways: its status is `waiting`, and in the final
-- state each parent it depends on is completed, or failed while its policy is `ignore`; or its
-- status, error and finishing time are those of a failure, its policy is `cascade-fail`, and the
-- parent that the error names is failed in the final state.
pub notify_children-Settled :
    (fuel now : ℕ) (id : Text) (s s' : State) (k : Text)
    → notify_children fuel now id s ≡ some s'
    → (JsMap.get k s'.jobs ≡ JsMap.get k s.jobs)
      ⊎ ((j : Job) × (JsMap.get k s.jobs ≡ some j)
          × (j.status ≡ waiting_children)
          × Settled now s'.jobs j (JsMap.get k s'.jobs))
notify_children-Settled fuel now id s s' k run =
    elim (notify_children-Outcomes fuel now id s s' run k) [
      | inl e ↦ inl e
      | inr (j, was, waits, d) ↦ inr (
        j,
        was,
        is_waiting_children_status j.status waits,
        Decided-Settled now s'.jobs j (JsMap.get k s'.jobs) d,
      )
    ]
