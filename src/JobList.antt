-- ===== src/JobList.antt =====
-- engine/memory/memory-store.ts, `list`, on the namespace `jobs`: the records that meet the filter and the
-- conditions, latest `createdAt` first, up to a limit. What the scans ask of it is a test of the record.
use oqronkit.Prelude.{
  ℕ, zero, suc, ◌≡◌, ◌≤◌, refl, sym, ap, ◌∙◌, subst, Bool, true, false, List, [], ◌∷◌, Text,
  text_discrete, if_pos, if_neg, if◌then◌else◌, mem, length, take, leb, arith, Bool-cases, inl, inr,
}
use oqronkit.JsMap
use oqronkit.JsMap.{JsMap}
use oqronkit.Job.{Job}
use oqronkit.Reconcile.{select, Listing}
use oqronkit.Reconcile.Passes.{find, keep, ids, find-select, select-DistinctIds}
use oqronkit.Reconcile.Recovered.{IsTable, IsListing, matches}
use oqronkit.Reconcile.Values.{values, find-values, values-DistinctIds}
use oqronkit.StallScanner.Listed.{ActiveListing, ListsActive, is_listed}
use oqronkit.StallScanner.Orphans.{DistinctIds}

unfoldable pub insert_newest : Job → List Job → List Job
insert_newest x [] = x ∷ []
insert_newest x (y ∷ ys) =
    let rest = insert_newest x ys in if leb y.created_at x.created_at then x ∷ y ∷ ys else y ∷ rest

unfoldable pub sort_newest : List Job → List Job
sort_newest [] = []
sort_newest (x ∷ xs) = insert_newest x (sort_newest xs)

unfoldable pub list_jobs : (Job → Bool) → ℕ → JsMap Job → List Job
list_jobs ok limit jobs = take limit (sort_newest (select ok (values jobs)))

mem-insert_newest :
    (k : Text) (x : Job) (ys : List Job) → mem k (ids (insert_newest x ys)) ≡ mem k (ids (x ∷ ys))
unfolding insert_newest
mem-insert_newest k x [] = refl
mem-insert_newest k x (y ∷ ys) = elim (Bool-cases (leb y.created_at x.created_at)) [
  | inl late ↦ rw late refl
  | inr early ↦ rw (early, mem-insert_newest k x ys) (ground arith)
]

mem-sort_newest : (k : Text) (xs : List Job) → mem k (ids (sort_newest xs)) ≡ mem k (ids xs)
unfolding sort_newest
mem-sort_newest k [] = refl
mem-sort_newest k (x ∷ xs) = mem-insert_newest k x (sort_newest xs) ∙ rw (mem-sort_newest k xs) refl

find-insert_newest :
    (k : Text) (x : Job) (ys : List Job)
    → mem x.id (ids ys) ≡ false
    → find k (insert_newest x ys) ≡ find k (x ∷ ys)
unfolding insert_newest find
find-insert_newest k x [] h = refl
find-insert_newest k x (y ∷ ys) h = elim (Bool-cases (leb y.created_at x.created_at)) [
  | inl late ↦ rw late refl
  | inr early ↦ elim (text_discrete y.id x.id) [
    | yes same ↦
        let never : true ≡ false = rw (if_pos (text_discrete y.id x.id) same) at h in
        ground (arith, never)
    | no other ↦
        let rest = find-insert_newest k x ys (rw (if_neg (text_discrete y.id x.id) other) at h) in
        rw (early, rest) (ground (arith, other))
  ]
]

find-sort_newest : (k : Text) (xs : List Job) → DistinctIds xs → find k (sort_newest xs) ≡ find k xs
unfolding sort_newest find
find-sort_newest k [] d = refl
find-sort_newest k (x ∷ xs) d =
    find-insert_newest k x (sort_newest xs) (mem-sort_newest x.id xs ∙ d.0)
    ∙ rw (find-sort_newest k xs d.1) refl

insert_newest-DistinctIds :
    (x : Job) (ys : List Job)
    → mem x.id (ids ys) ≡ false
    → DistinctIds ys
    → DistinctIds (insert_newest x ys)
unfolding insert_newest
insert_newest-DistinctIds x [] h d = (refl, tt)
insert_newest-DistinctIds x (y ∷ ys) h d = elim (Bool-cases (leb y.created_at x.created_at)) [
  | inl late ↦ rw late (h, d)
  | inr early ↦ elim (text_discrete y.id x.id) [
    | yes same ↦
        let never : true ≡ false = rw (if_pos (text_discrete y.id x.id) same) at h in
        absurd (ground (arith, never))
    | no other ↦
        let h' : mem x.id (ids ys) ≡ false = rw (if_neg (text_discrete y.id x.id) other) at h in
        let first : mem y.id (ids (insert_newest x ys)) ≡ false =
          mem-insert_newest y.id x ys
          ∙ if_neg (text_discrete x.id y.id) (λ e. other (sym e)) _ _
          ∙ d.0 in
        rw early (first, insert_newest-DistinctIds x ys h' d.1)
  ]
]

sort_newest-DistinctIds : (xs : List Job) → DistinctIds xs → DistinctIds (sort_newest xs)
unfolding sort_newest
sort_newest-DistinctIds [] d = tt
sort_newest-DistinctIds (x ∷ xs) d =
    insert_newest-DistinctIds x (sort_newest xs) (mem-sort_newest x.id xs ∙ d.0)
      (sort_newest-DistinctIds xs d.1)

length-insert_newest : (x : Job) (ys : List Job) → length (insert_newest x ys) ≡ suc (length ys)
unfolding insert_newest
length-insert_newest x [] = refl
length-insert_newest x (y ∷ ys) = elim (Bool-cases (leb y.created_at x.created_at)) [
  | inl late ↦ rw late refl
  | inr early ↦ rw early (ap suc (length-insert_newest x ys))
]

length-sort_newest : (xs : List Job) → length (sort_newest xs) ≡ length xs
unfolding sort_newest
length-sort_newest [] = refl
length-sort_newest (x ∷ xs) =
    length-insert_newest x (sort_newest xs) ∙ ap suc (length-sort_newest xs)

length-select :
    (ok : Job → Bool) (jobs : JsMap Job) → length (select ok (values jobs)) ≤ length jobs
unfolding select
length-select ok [] = omega arith
length-select ok ((k, job) ∷ jobs) = ground (arith, length-select ok jobs)

take-whole : {A : Type 0} (n : ℕ) (xs : List A) → length xs ≤ n → take n xs ≡ xs
take-whole zero [] le = refl
take-whole zero (x ∷ xs) le = absurd (omega (arith, le))
take-whole (suc n) [] le = refl
take-whole (suc n) (x ∷ xs) le = ap (◌∷◌ x) (take-whole n xs (omega (arith, le)))

list_jobs-whole :
    (ok : Job → Bool) (limit : ℕ) (jobs : JsMap Job)
    → length jobs ≤ limit
    → list_jobs ok limit jobs ≡ sort_newest (select ok (values jobs))
unfolding list_jobs
list_jobs-whole ok limit jobs fits =
    take-whole limit _
      (omega (arith, length-select ok jobs, length-sort_newest (select ok (values jobs))))

-- With a limit that is not reached, the listing has the records that meet the test.
pub find-list_jobs :
    (ok : Job → Bool) (limit : ℕ) (jobs : JsMap Job) (k : Text)
    → IsTable jobs
    → length jobs ≤ limit
    → find k (list_jobs ok limit jobs) ≡ keep ok (JsMap.get k jobs)
find-list_jobs ok limit jobs k t fits =
    ap (find k) (list_jobs-whole ok limit jobs fits)
    ∙ find-sort_newest k (select ok (values jobs))
        (select-DistinctIds ok (values jobs) (values-DistinctIds jobs t))
    ∙ find-select k ok (values jobs) (values-DistinctIds jobs t)
    ∙ ap (keep ok) (find-values k jobs t.0)

pub list_jobs-DistinctIds :
    (ok : Job → Bool) (limit : ℕ) (jobs : JsMap Job)
    → IsTable jobs
    → length jobs ≤ limit
    → DistinctIds (list_jobs ok limit jobs)
list_jobs-DistinctIds ok limit jobs t fits =
    subst DistinctIds (sym (list_jobs-whole ok limit jobs fits)) (
      sort_newest-DistinctIds (select ok (values jobs))
        (select-DistinctIds ok (values jobs) (values-DistinctIds jobs t)))

-- What the reconciliation lists.
abbrev pub list_stale : Listing
list_stale q = list_jobs (matches q)

pub list_stale-IsListing : IsListing list_stale
list_stale-IsListing = record {
  find-list = λ q limit jobs k t fits. find-list_jobs (matches q) limit jobs k t fits;
  list-DistinctIds = λ q limit jobs t fits. list_jobs-DistinctIds (matches q) limit jobs t fits;
}

-- What the stall scanner lists, for the two statuses that it asks for.
abbrev pub list_active : ActiveListing
list_active jobs status queue limit = list_jobs (is_listed status queue) limit jobs

pub list_active-ListsActive : ListsActive list_active
list_active-ListsActive = record {
  find-list = λ st q limit jobs k s t fits. find-list_jobs (is_listed st q) limit jobs k t fits;
  list-DistinctIds =
      λ st q limit jobs s t fits. list_jobs-DistinctIds (is_listed st q) limit jobs t fits;
}
