-- ===== src/Reconcile/Passes.antt =====
-- One pass over a list of jobs with distinct ids.
use oqronkit.Prelude.{
  ℕ, ◌≡◌, ◌⊎◌, inl, inr, refl, sym, ap, ◌∙◌, subst, Bool, true, false, Option, none, some, List, [],
  ◌∷◌, Text, text_discrete, ite, if_pos, if_neg, if◌then◌else◌, mem, map, length, arith, Bool-cases,
}
use oqronkit.JsMap
use oqronkit.JsMap.{get-set, length-set}
use oqronkit.Job.{Job}
use oqronkit.Broker.Queued.{queued, publish-Once}
use oqronkit.Dependency.{State}
use oqronkit.Reconcile.{select, republish, republish_all}
use oqronkit.StallScanner.Orphans.{DistinctIds}

-- The first job of the list with the id.
unfoldable pub find : Text → List Job → Option Job
find k [] = none
find k (job ∷ jobs) = ite (text_discrete job.id k) (some job) (find k jobs)

abbrev pub ids : List Job → List Text
ids = map (λ (j : Job). j.id)

abbrev pub keep : (Job → Bool) → Option Job → Option Job
keep ok none = none
keep ok (some job) = if ok job then some job else none

pub find_absent : (k : Text) (jobs : List Job) → mem k (ids jobs) ≡ false → find k jobs ≡ none
unfolding find
find_absent k [] h = refl
find_absent k (job ∷ jobs) h = ground (arith, find_absent k jobs)

mem-select :
    (k : Text) (ok : Job → Bool) (jobs : List Job)
    → mem k (ids jobs) ≡ false
    → mem k (ids (select ok jobs)) ≡ false
unfolding select
mem-select k ok [] h = refl
mem-select k ok (job ∷ jobs) h = ground (arith, mem-select k ok jobs)

pub select-DistinctIds :
    (ok : Job → Bool) (jobs : List Job) → DistinctIds jobs → DistinctIds (select ok jobs)
unfolding select
select-DistinctIds ok [] d = tt
select-DistinctIds ok (job ∷ jobs) d = elim (Bool-cases (ok job)) [
  | inl good ↦ rw good (mem-select job.id ok jobs d.0, select-DistinctIds ok jobs d.1)
  | inr bad ↦ rw bad (select-DistinctIds ok jobs d.1)
]

pub find-select :
    (k : Text) (ok : Job → Bool) (jobs : List Job)
    → DistinctIds jobs
    → find k (select ok jobs) ≡ keep ok (find k jobs)
unfolding find select
find-select k ok [] d = refl
find-select k ok (job ∷ jobs) d = elim (text_discrete job.id k) [
  | yes here ↦ elim (Bool-cases (ok job)) [
    | inl good ↦ rw good (
        if_pos (text_discrete job.id k) here _ _
        ∙ rw (if_pos (text_discrete job.id k) here) (rw good refl))
    | inr bad ↦
        let gone = find_absent k (select ok jobs) (
          subst (λ i. mem i (ids (select ok jobs)) ≡ false) here (mem-select job.id ok jobs d.0)) in
        rw (bad, if_pos (text_discrete job.id k) here) (gone ∙ rw bad refl)
  ]
  | no away ↦ let rest = find-select k ok jobs d.1 in ground (arith, rest)
]

-- What a pass makes of the record of an id, and of how often it is queued at a broker.
abbrev pub republished : (Job → Job) → Option Job → Option Job → Option Job
republished mark none old = old
republished mark (some job) old = some (mark job)

abbrev pub requeued : Text → Option Job → ℕ → ℕ
requeued name none n = n
requeued name (some job) n = ite (text_discrete job.queue_name name) 1 n

-- The records and the queues after a pass, by id: `found` is the job that it took.
abbrev pub Passed : (Job → Job) → (Text → Option Job) → State → State → Type 0
Passed mark found s s' =
    (k : Text)
    → (JsMap.get k s'.jobs ≡ republished mark (found k) (JsMap.get k s.jobs))
      × ((name : Text) → queued name k s'.broker ≡ requeued name (found k) (queued name k s.broker))

module _ (mark : Job → Job) (now : ℕ) where
  republish-Passed :
      (job : Job) (s : State)
      → Passed mark (λ k. ite (text_discrete job.id k) (some job) none) s (republish mark now job s)
  unfolding republish
  republish-Passed job s k = elim (text_discrete job.id k) [
    | yes here ↦ rw (if_pos (text_discrete job.id k) here) (
      get-set k job.id (mark job) s.jobs ∙ if_pos (text_discrete job.id k) here _ _,
      λ name.
          publish-Once job.queue_name job.id none job.priority now s.broker name k
          ∙ rw (if_pos (text_discrete job.id k) here) refl,
    )
    | no away ↦ rw (if_neg (text_discrete job.id k) away) (
      get-set k job.id (mark job) s.jobs ∙ if_neg (text_discrete job.id k) away _ _,
      λ name.
          publish-Once job.queue_name job.id none job.priority now s.broker name k
          ∙ ground (arith, away),
    )
  ]

  -- Two passes one after the other, where the second leaves what the first took.
  Passed-join :
      (f g : Text → Option Job) (h : Text → Option Job) (s s1 s2 : State)
      → ((k : Text) → ((g k ≡ none) × (h k ≡ f k)) ⊎ ((f k ≡ none) × (h k ≡ g k)))
      → Passed mark f s s1
      → Passed mark g s1 s2
      → Passed mark h s s2
  Passed-join f g h s s1 s2 apart p q k =
      let (r1, n1) = p k in
      let (r2, n2) = q k in
      elim (apart k) [
        | inl (e, e') ↦ rw e' (r2 ∙ rw e r1, λ name. n2 name ∙ rw e (n1 name))
        | inr (e, e') ↦ rw e' (
          r2 ∙ ap (republished mark (g k)) (r1 ∙ rw e refl),
          λ name. n2 name ∙ ap (requeued name (g k)) (n1 name ∙ rw e refl),
        )
      ]

  Passed-none : (s : State) → Passed mark (λ k. none) s s
  Passed-none s k = (refl, λ name. refl)

  pub republish_all-Passed :
      (due : Job → Bool) (jobs : List Job) (s : State)
      → DistinctIds jobs
      → Passed mark (λ k. find k (select due jobs)) s (republish_all due mark now jobs s).0
  unfolding republish_all select find
  republish_all-Passed due [] s d = Passed-none s
  republish_all-Passed due (job ∷ jobs) s d = elim (Bool-cases (due job)) [
    | inr passed ↦ rw passed (republish_all-Passed due jobs s d.1)
    | inl good ↦ rw good (
        Passed-join (λ k. ite (text_discrete job.id k) (some job) none)
          (λ k. find k (select due jobs)) _ s (republish mark now job s) _
          (λ k. elim (text_discrete job.id k) [
            | yes here ↦
                let gone =
                  subst (λ i. mem i (ids (select due jobs)) ≡ false) here
                    (mem-select job.id due jobs d.0) in
                inl (
                  find_absent k (select due jobs) gone,
                  if_pos (text_discrete job.id k) here _ _
                      ∙ sym (if_pos (text_discrete job.id k) here _ _),
                )
            | no away ↦
                inr (
                  if_neg (text_discrete job.id k) away _ _,
                  if_neg (text_discrete job.id k) away _ _,
                )
          ])
          (republish-Passed job s) (republish_all-Passed due jobs (republish mark now job s) d.1))
  ]

  -- The ids of the list stay stored.
  abbrev pub Stored : List Job → State → Type 0
  Stored jobs s = (k : Text) (j : Job) → find k jobs ≡ some j → JsMap.has k s.jobs ≡ true

  Stored-rest : (job : Job) (jobs : List Job) (s : State) → Stored (job ∷ jobs) s → Stored jobs s
  unfolding find
  Stored-rest job jobs s stored k j found = elim (text_discrete job.id k) [
    | yes here ↦ stored k job (if_pos (text_discrete job.id k) here _ _)
    | no away ↦ stored k j (if_neg (text_discrete job.id k) away _ _ ∙ found)
  ]

  Stored-republish :
      (job : Job) (jobs : List Job) (s : State)
      → Stored jobs s
      → Stored jobs (republish mark now job s)
  unfolding republish
  Stored-republish job jobs s stored k j found =
      ground (arith, get-set k job.id (mark job) s.jobs, stored k j found)

  -- No record is added.
  pub length-republish_all :
      (due : Job → Bool) (jobs : List Job) (s : State)
      → Stored jobs s
      → DistinctIds jobs
      → length (republish_all due mark now jobs s).0.jobs ≡ length s.jobs
  unfolding republish_all republish find
  length-republish_all due [] s stored d = refl
  length-republish_all due (job ∷ jobs) s stored d =
      let there : JsMap.has job.id s.jobs ≡ true =
        stored job.id job (if_pos (text_discrete job.id job.id) refl _ _) in
      let kept : length (JsMap.set job.id (mark job) s.jobs) ≡ length s.jobs =
        ground (arith, length-set job.id (mark job) s.jobs, there) in
      elim (Bool-cases (due job)) [
        | inr passed ↦
            rw passed (length-republish_all due jobs s (Stored-rest job jobs s stored) d.1)
        | inl good ↦ rw good (
            length-republish_all due jobs (republish mark now job s)
              (Stored-republish job jobs s (Stored-rest job jobs s stored)) d.1
            ∙ kept)
      ]
