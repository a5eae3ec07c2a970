-- ===== src/StallScanner/Appended.antt =====
-- Two lists of jobs one after the other that have no id in common.
use oqronkit.Prelude.{
  ◌≡◌, ◌≢◌, ◌⊎◌, inl, inr, refl, sym, ◌∙◌, subst, Bool, true, false, Option, none, some, List, [],
  ◌∷◌, ◌++◌, Text, text_discrete, if_pos, if_neg, if◌then◌else◌, mem, Bool-cases,
}
use oqronkit.JsMap
use oqronkit.JsMap.{JsMap}
use oqronkit.Job.{Job}
use oqronkit.Reconcile.Passes.{find, keep, ids, find_absent}
use oqronkit.StallScanner.Orphans.{DistinctIds}

abbrev first_found : Option Job → Option Job → Option Job
first_found none o = o
first_found (some job) o = some job

find-append :
    (k : Text) (xs ys : List Job) → find k (xs ++ ys) ≡ first_found (find k xs) (find k ys)
unfolding find
find-append k [] ys = refl
find-append k (x ∷ xs) ys = elim (text_discrete x.id k) [
  | yes here ↦ rw (if_pos (text_discrete x.id k) here, if_pos (text_discrete x.id k) here) refl
  | no away ↦
      rw (if_neg (text_discrete x.id k) away, if_neg (text_discrete x.id k) away)
        (find-append k xs ys)
]

mem-find : (k : Text) (xs : List Job) → find k xs ≡ none → mem k (ids xs) ≡ false
unfolding find
mem-find k [] e = refl
mem-find k (x ∷ xs) e = elim (text_discrete x.id k) [
  | yes here ↦ cc (rw (if_pos (text_discrete x.id k) here) at e)
  | no away ↦
      rw (if_neg (text_discrete x.id k) away)
        (mem-find k xs (rw (if_neg (text_discrete x.id k) away) at e))
]

find-head : (x : Job) (xs : List Job) → find x.id (x ∷ xs) ≡ some x
unfolding find
find-head x xs = if_pos (text_discrete x.id x.id) refl _ _

find-tail : (y : Job) (zs : List Job) (k : Text) → y.id ≢ k → find k zs ≡ find k (y ∷ zs)
unfolding find
find-tail y zs k away = sym (if_neg (text_discrete y.id k) away _ _)

-- Lists with distinct ids and none in common.
abbrev Apart : List Job → List Job → Type 0
Apart xs ys = (k : Text) → (find k xs ≡ none) ⊎ (find k ys ≡ none)

append-DistinctIds :
    (xs ys : List Job) → DistinctIds xs → DistinctIds ys → Apart xs ys → DistinctIds (xs ++ ys)
append-DistinctIds [] ys d d' apart = d'
append-DistinctIds (x ∷ xs) ys d d' apart =
    let absent : find x.id ys ≡ none = elim (apart x.id) [
      | inl gone ↦ cc (find-head x xs, gone)
      | inr gone ↦ gone
    ] in
    (
      mem-find x.id (xs ++ ys) (find-append x.id xs ys ∙ rw (find_absent x.id xs d.0) absent),
      append-DistinctIds xs ys d.1 d' (λ k. elim (apart k) [
        | inl gone ↦ elim (text_discrete x.id k) [
          | yes here ↦ inl (subst (λ i. find i xs ≡ none) here (find_absent x.id xs d.0))
          | no away ↦ inl (find-tail x xs k away ∙ gone)
        ]
        | inr gone ↦ inr gone
      ]),
    )

keep-first :
    (p q s : Job → Bool) (o : Option Job)
    → ((j : Job) → s j ≡ (if p j then true else q j))
    → first_found (keep p o) (keep q o) ≡ keep s o
keep-first p q s none joined = refl
keep-first p q s (some j) joined = elim (Bool-cases (p j)) [
  | inl first ↦ rw (joined j, first) refl
  | inr later ↦ elim (Bool-cases (q j)) [
    | inl second ↦ rw (joined j, later, second) refl
    | inr never ↦ rw (joined j, later, never) refl
  ]
]

keep-apart :
    (p q : Job → Bool) (o : Option Job)
    → ((j : Job) → p j ≡ true → q j ≡ false)
    → (keep p o ≡ none) ⊎ (keep q o ≡ none)
keep-apart p q none apart = inl refl
keep-apart p q (some j) apart = elim (Bool-cases (p j)) [
  | inl first ↦ inr (rw (apart j first) refl)
  | inr later ↦ inl (rw later refl)
]

-- The list has the records that meet the test, and no id twice.
abbrev pub Lists : (Job → Bool) → List Job → JsMap Job → Type 0
Lists p xs jobs = ((k : Text) → find k xs ≡ keep p (JsMap.get k jobs)) × DistinctIds xs

pub append-Lists :
    (p q s : Job → Bool) (xs ys : List Job) (jobs : JsMap Job)
    → Lists p xs jobs
    → Lists q ys jobs
    → ((j : Job) → s j ≡ (if p j then true else q j))
    → ((j : Job) → p j ≡ true → q j ≡ false)
    → Lists s (xs ++ ys) jobs
append-Lists p q s xs ys jobs (f, d) (g, d') joined apart = (
  λ k. find-append k xs ys ∙ rw (f k, g k) (keep-first p q s (JsMap.get k jobs) joined),
  append-DistinctIds xs ys d d' (λ k. rw (f k, g k) (keep-apart p q (JsMap.get k jobs) apart)),
)
