-- ===== src/Retention/Pruned.antt =====
-- Pruning by count and by age, from the configuration to the storage.
use oqronkit.Prelude.{
  ◌⊎◌, ◌∙◌, ap, if_pos, if_neg, Bool-cases, inl, inr, subst, ℕ, ◌+◌, ◌*◌, ◌≡◌, ◌≤◌, ◌<◌, refl, Bool,
  true, false, Option, none, some, List, [], ◌∷◌, Text, ite, if◌then◌else◌, text_discrete, map,
  arith, take, drop, mem, ◌||◌,
}
use oqronkit.Retention.{
  Normalized, keep, remove, StoredJob, KeepJobs, PruneOptions, JobStore, over_count, over_age,
  truthy, get_finished_time, sort_newest, should_delete, to_delete, delete_all, prune_by,
  prune_after_completion, normalize_keep_jobs, resolve_config, keep_jobs,
}
use oqronkit.Retention.Newest.{
  AllDeleted, HaveIds, job_id, sort_newest-NewestFirst, sort_newest-HaveIds, to_delete-split,
}

-- Within the limits: among the first `count`, and not older than `age` seconds.
abbrev pub InCount : Option ℕ → ℕ → Type 0
InCount none i = Unit {0}
InCount (some count) i = i < count

abbrev pub InAge : Option ℕ → ℕ → ℕ → Type 0
InAge none now time = Unit {0}
InAge (some age) now time = now ≤ time + age * 1000

module _ (parse : Text → Option ℕ) (age count : Option ℕ) (now : ℕ) where
  abbrev pub Fits : ℕ → StoredJob → Type 0
  Fits i x = InCount count i × InAge age now (get_finished_time parse x)

  -- Every record at its index, from `i` on, is within the limits, or none is.
  abbrev pub AllFit : ℕ → List StoredJob → Type 0
  AllFit i [] = Unit {0}
  AllFit i (x ∷ xs) = Fits i x × AllFit (i + 1) xs

  abbrev pub NoneFit : ℕ → List StoredJob → Type 0
  NoneFit i [] = Unit {0}
  NoneFit i (x ∷ xs) = ¬ Fits i x × NoneFit (i + 1) xs

  should_delete-Fits :
      (i : ℕ) (x : StoredJob) → should_delete parse age count now i x ≡ false → Fits i x
  should_delete-Fits i x h = go age count h
    where
      go :
          (a c : Option ℕ)
          → (if over_count c i then true else over_age a now (get_finished_time parse x)) ≡ false
          → InCount c i × InAge a now (get_finished_time parse x)
      go none none h' = (tt, tt)
      go none (some c) h' = ground arith
      go (some a) none h' = ground arith
      go (some a) (some c) h' = ground arith

  should_delete-true :
      (i : ℕ) (x : StoredJob) → should_delete parse age count now i x ≡ true → ¬ Fits i x
  should_delete-true i x h fits = go age count h fits.0 fits.1
    where
      go :
          (a c : Option ℕ)
          → (if over_count c i then true else over_age a now (get_finished_time parse x)) ≡ true
          → InCount c i
          → InAge a now (get_finished_time parse x)
          → ⊥
      go none none h' f g = ground arith
      go none (some c) h' f g = ground arith
      go (some a) none h' f g = ground arith
      go (some a) (some c) h' f g = ground arith

  AllDeleted-AllFit :
      (i : ℕ) (xs : List StoredJob) → AllDeleted parse false age count now i xs → AllFit i xs
  AllDeleted-AllFit i [] d = tt
  AllDeleted-AllFit i (x ∷ xs) d = (should_delete-Fits i x d.0, AllDeleted-AllFit (i + 1) xs d.1)

  AllDeleted-NoneFit :
      (i : ℕ) (xs : List StoredJob) → AllDeleted parse true age count now i xs → NoneFit i xs
  AllDeleted-NoneFit i [] d = tt
  AllDeleted-NoneFit i (x ∷ xs) d = (should_delete-true i x d.0, AllDeleted-NoneFit (i + 1) xs d.1)

either_set :
    {A : Type 0} (x y : A) (a b : Bool) → a || b ≡ true → (if a then x else if b then x else y) ≡ x
either_set x y true b h = refl
either_set x y false true h = refl
either_set x y false false h = ground arith

neither_set :
    {A : Type 0} (x y : A) (a b : Bool) → a || b ≡ false → (if a then x else if b then x else y) ≡ y
neither_set x y true b h = ground arith
neither_set x y false true h = ground arith
neither_set x y false false h = refl

get-delete_all :
    (parse : Text → Option ℕ) (S : JobStore) (k : Text) (ids : List Text) (store : S.Store)
    → S.get k (delete_all parse S ids store) ≡ (if mem k ids then none else S.get k store)
unfolding delete_all
get-delete_all parse S k [] store = refl
get-delete_all parse S k (id ∷ ids) store =
    rw (get-delete_all parse S k ids (S.delete id store))
      (rw (S.get-delete k id store) (gone (text_discrete id k) (mem k ids)))
  where
    gone :
        {P : Type 0} (here : Dec P) (later : Bool)
        → (if later then none else ite here none (S.get k store))
          ≡ (if ite here true later then none else S.get k store)
    gone (yes _) true = refl
    gone (yes _) false = refl
    gone (no _) later = refl

-- The ids of the records behind the first `m` in the order of `newest`.
abbrev pub ids_after : ℕ → List StoredJob → List Text
ids_after m newest = map job_id (drop m newest)

prune-delete_all :
    (parse : Text → Option ℕ) (S : JobStore) (opts : PruneOptions) (config : KeepJobs) (now : ℕ)
    (store : S.Store)
    → normalize_keep_jobs (resolve_config opts) ≡ keep_jobs config
    → truthy config.age || truthy config.count ≡ true
    → prune_after_completion parse S opts now store
      ≡ delete_all parse S
          (to_delete parse config.age config.count now 0
            (sort_newest parse (S.list opts.status opts.filter_value store)))
          store
unfolding prune_after_completion prune_by
prune-delete_all parse S opts config now store resolved set =
    rw (resolved, prune_after_completion)
      (either_set _ _ (truthy config.age) (truthy config.count) set)

-- When the effective configuration has a count or an age that is not 0, and every listed record has
-- an id: in the order of the finishing times, latest first, the listed records within the limits
-- come first, and pruning deletes the ids of exactly the records after them and no other record.
pub prune_oldest :
    (parse : Text → Option ℕ) (S : JobStore) (opts : PruneOptions) (config : KeepJobs) (now : ℕ)
    (store : S.Store)
    → normalize_keep_jobs (resolve_config opts) ≡ keep_jobs config
    → truthy config.age || truthy config.count ≡ true
    → HaveIds (S.list opts.status opts.filter_value store)
    → (m : ℕ) × ((k : Text)
        → S.get k (prune_after_completion parse S opts now store) ≡ (
            if mem k (ids_after m (sort_newest parse (S.list opts.status opts.filter_value store)))
            then none
            else S.get k store))
      × AllFit parse config.age config.count now 0
          (take m (sort_newest parse (S.list opts.status opts.filter_value store)))
      × NoneFit parse config.age config.count now m
          (drop m (sort_newest parse (S.list opts.status opts.filter_value store)))
prune_oldest parse S opts config now store resolved set ids =
    let listed : List StoredJob = S.list opts.status opts.filter_value store in
    let (m, e, (front, back)) =
      to_delete-split parse config.age config.count now 0 (sort_newest parse listed)
        (sort_newest-NewestFirst parse listed) (sort_newest-HaveIds parse listed ids) in
    (
      m,
      (λ k.
          rw (prune-delete_all parse S opts config now store resolved set)
            (rw (← e) (get-delete_all parse S k _ store))),
      AllDeleted-AllFit parse config.age config.count now 0 _ front,
      AllDeleted-NoneFit parse config.age config.count now m _ (
          subst
            (λ i.
              AllDeleted parse true config.age config.count now i
                (drop m (sort_newest parse listed)))
            (omega arith) back),
    )

-- Pruning deletes a record or leaves it.
pub get-prune_after_completion :
    (parse : Text → Option ℕ) (S : JobStore) (opts : PruneOptions) (now : ℕ) (store : S.Store)
    (k : Text)
    → (S.get k (prune_after_completion parse S opts now store) ≡ none)
      ⊎ (S.get k (prune_after_completion parse S opts now store) ≡ S.get k store)
unfolding prune_after_completion prune_by
get-prune_after_completion parse S opts now store k =
    go (normalize_keep_jobs (resolve_config opts)) refl
  where
    deleted :
        (ids : List Text)
        → (S.get k (delete_all parse S ids store) ≡ none)
          ⊎ (S.get k (delete_all parse S ids store) ≡ S.get k store)
    deleted ids = elim (Bool-cases (mem k ids)) [
      | inl there ↦ inl (rw (get-delete_all parse S k ids store, there))
      | inr absent ↦ inr (rw (get-delete_all parse S k ids store, absent))
    ]

    go :
        (config : Normalized)
        → normalize_keep_jobs (resolve_config opts) ≡ config
        → (S.get k (prune_after_completion parse S opts now store) ≡ none)
          ⊎ (S.get k (prune_after_completion parse S opts now store) ≡ S.get k store)
    go keep e = inr (rw (e, prune_after_completion))
    go remove e = elim (text_discrete opts.job_id k) [
      | yes here ↦ inl (
          rw (e, prune_after_completion)
            (S.get-delete k opts.job_id store ∙ if_pos (text_discrete opts.job_id k) here _ _))
      | no away ↦ inr (
          rw (e, prune_after_completion)
            (S.get-delete k opts.job_id store ∙ if_neg (text_discrete opts.job_id k) away _ _))
    ]
    go (keep_jobs config) e = elim (Bool-cases (truthy config.age || truthy config.count)) [
      | inl set ↦ rw (prune-delete_all parse S opts config now store e set) (deleted _)
      | inr unset ↦ inr (
          rw (e, prune_after_completion)
            (ap (S.get k) (neither_set _ _ (truthy config.age) (truthy config.count) unset)))
    ]
