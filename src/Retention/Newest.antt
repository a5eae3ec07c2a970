-- ===== src/Retention/Newest.antt =====
-- The loop that picks the records to delete: in the sorted list they are a part at the end.
use oqronkit.Prelude.{
  subst, ℕ, suc, ◌+◌, ◌≡◌, ◌≤◌, refl, ap, Bool, true, false, Option, none, some, List, [], ◌∷◌,
  Text, leb, if◌then◌else◌, map, arith, Bool-cases, inl, inr, take, drop,
}
use oqronkit.Retention.{
  StoredJob, over_count, over_age, has_id, get_finished_time, insert_newest, sort_newest,
  should_delete, to_delete,
}

-- No record's id is the empty string.
abbrev pub HaveIds : List StoredJob → Type 0
HaveIds [] = Unit {0}
HaveIds (x ∷ xs) = (has_id x.id ≡ true) × HaveIds xs

abbrev pub job_id : StoredJob → Text
job_id job = job.id

module _ (parse : Text → Option ℕ) where
  -- Each finished no later than `t`.
  abbrev pub Before : ℕ → List StoredJob → Type 0
  Before t [] = Unit {0}
  Before t (x ∷ xs) = (get_finished_time parse x ≤ t) × Before t xs

  abbrev pub NewestFirst : List StoredJob → Type 0
  NewestFirst [] = Unit {0}
  NewestFirst (x ∷ xs) = Before (get_finished_time parse x) xs × NewestFirst xs

  Before-le : (t u : ℕ) (xs : List StoredJob) → t ≤ u → Before t xs → Before u xs
  Before-le t u [] le b = tt
  Before-le t u (x ∷ xs) le b = (omega arith, Before-le t u xs le b.1)

  insert_newest-Before :
      (t : ℕ) (x : StoredJob) (xs : List StoredJob)
      → get_finished_time parse x ≤ t
      → Before t xs
      → Before t (insert_newest parse x xs)
  unfolding insert_newest
  insert_newest-Before t x [] le b = (le, tt)
  insert_newest-Before t x (y ∷ ys) le b =
      elim (Bool-cases (leb (get_finished_time parse y) (get_finished_time parse x))) [
        | inl h ↦ rw h (le, b)
        | inr h ↦ rw h (b.0, insert_newest-Before t x ys le b.1)
      ]

  insert_newest-NewestFirst :
      (x : StoredJob) (xs : List StoredJob)
      → NewestFirst xs
      → NewestFirst (insert_newest parse x xs)
  unfolding insert_newest
  insert_newest-NewestFirst x [] s = (tt, tt)
  insert_newest-NewestFirst x (y ∷ ys) s =
      elim (Bool-cases (leb (get_finished_time parse y) (get_finished_time parse x))) [
        | inl h ↦
            let le : get_finished_time parse y ≤ get_finished_time parse x = ground arith in
            rw h
              ((le, Before-le (get_finished_time parse y) (get_finished_time parse x) ys le s.0), s)
        | inr h ↦
            let le : get_finished_time parse x ≤ get_finished_time parse y = ground arith in
            rw h (
              insert_newest-Before (get_finished_time parse y) x ys le s.0,
              insert_newest-NewestFirst x ys s.1,
            )
      ]

  pub sort_newest-NewestFirst : (xs : List StoredJob) → NewestFirst (sort_newest parse xs)
  unfolding sort_newest
  sort_newest-NewestFirst [] = tt
  sort_newest-NewestFirst (x ∷ xs) =
      insert_newest-NewestFirst x (sort_newest parse xs) (sort_newest-NewestFirst xs)

  insert_newest-HaveIds :
      (x : StoredJob) (xs : List StoredJob)
      → has_id x.id ≡ true
      → HaveIds xs
      → HaveIds (insert_newest parse x xs)
  unfolding insert_newest
  insert_newest-HaveIds x [] h ids = (h, tt)
  insert_newest-HaveIds x (y ∷ ys) h ids =
      elim (Bool-cases (leb (get_finished_time parse y) (get_finished_time parse x))) [
        | inl le ↦ rw le (h, ids)
        | inr lt ↦ rw lt (ids.0, insert_newest-HaveIds x ys h ids.1)
      ]

  pub sort_newest-HaveIds : (xs : List StoredJob) → HaveIds xs → HaveIds (sort_newest parse xs)
  unfolding sort_newest
  sort_newest-HaveIds [] ids = tt
  sort_newest-HaveIds (x ∷ xs) ids =
      insert_newest-HaveIds x (sort_newest parse xs) ids.0 (sort_newest-HaveIds xs ids.1)

  -- Every record at its index, from `i` on, is to be deleted, or none is.
  abbrev pub AllDeleted : Bool → Option ℕ → Option ℕ → ℕ → ℕ → List StoredJob → Type 0
  AllDeleted answer age count now i [] = Unit {0}
  AllDeleted answer age count now i (x ∷ xs) =
      (should_delete parse age count now i x ≡ answer) × AllDeleted answer age count now (i + 1) xs

  over_count-later :
      (count : Option ℕ) (i : ℕ) → over_count count i ≡ true → over_count count (i + 1) ≡ true
  over_count-later none i h = h
  over_count-later (some c) i h = ground arith

  over_age-earlier :
      (age : Option ℕ) (now t u : ℕ) → u ≤ t → over_age age now t ≡ true → over_age age now u ≡ true
  over_age-earlier none now t u le h = h
  over_age-earlier (some a) now t u le h = ground arith

  should_delete-later :
      (age count : Option ℕ) (now i : ℕ) (x y : StoredJob)
      → get_finished_time parse y ≤ get_finished_time parse x
      → should_delete parse age count now i x ≡ true
      → should_delete parse age count now (i + 1) y ≡ true
  should_delete-later age count now i x y le h = elim (Bool-cases (over_count count i)) [
    | inl many ↦ rw (over_count-later count i many)
    | inr few ↦
        let old =
          over_age-earlier age now (get_finished_time parse x) (get_finished_time parse y) le
            (rw few at h) in
        elim (over_count count (i + 1))
          as (λ b. (if b then true else over_age age now (get_finished_time parse y)) ≡ true) [
            | true ↦ refl
            | false ↦ old
          ]
  ]

  -- Once a record is deleted, so are the records after it.
  later-AllDeleted :
      (age count : Option ℕ) (now i : ℕ) (x : StoredJob) (xs : List StoredJob)
      → should_delete parse age count now i x ≡ true
      → Before (get_finished_time parse x) xs
      → AllDeleted true age count now (i + 1) xs
  later-AllDeleted age count now i x [] h b = tt
  later-AllDeleted age count now i x (y ∷ ys) h b =
      let again = should_delete-later age count now i x x (omega arith) h in
      (
        should_delete-later age count now i x y b.0 h,
        later-AllDeleted age count now (i + 1) x ys again b.1,
      )

  to_delete_all :
      (age count : Option ℕ) (now i : ℕ) (xs : List StoredJob)
      → AllDeleted true age count now i xs
      → HaveIds xs
      → to_delete parse age count now i xs ≡ map job_id xs
  unfolding to_delete
  to_delete_all age count now i [] d ids = refl
  to_delete_all age count now i (x ∷ xs) d ids =
      rw d.0 (rw ids.0 (ap (λ r. x.id ∷ r) (to_delete_all age count now (i + 1) xs d.1 ids.1)))

  -- The records within the limits stand in front, and the rest is deleted.
  abbrev pub SplitAt : Option ℕ → Option ℕ → ℕ → ℕ → List StoredJob → ℕ → Type 0
  SplitAt age count now i xs m =
      AllDeleted false age count now i (take m xs)
      × AllDeleted true age count now (i + m) (drop m xs)

  pub to_delete-split :
      (age count : Option ℕ) (now i : ℕ) (xs : List StoredJob)
      → NewestFirst xs
      → HaveIds xs
      → (m : ℕ) × (to_delete parse age count now i xs ≡ map job_id (drop m xs))
        × SplitAt age count now i xs m
  unfolding to_delete
  to_delete-split age count now i [] s ids = (0, refl, (tt, tt))
  to_delete-split age count now i (x ∷ xs) s ids =
      elim (Bool-cases (should_delete parse age count now i x)) [
        | inl over ↦
            let all : AllDeleted true age count now i (x ∷ xs) =
              (over, later-AllDeleted age count now i x xs over s.0) in
            (
              0,
              to_delete_all age count now i (x ∷ xs) all ids,
              (tt, subst (λ k. AllDeleted true age count now k (x ∷ xs)) (omega arith) all),
            )
        | inr within ↦
            let (m, e, (front, back)) = to_delete-split age count now (i + 1) xs s.1 ids.1 in
            let at : i + 1 + m ≡ i + suc m = omega arith in
            (
              suc m,
              rw within e,
              ((within, front), subst (λ k. AllDeleted true age count now k (drop m xs)) at back),
            )
      ]
