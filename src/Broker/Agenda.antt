-- ===== src/Broker/Agenda.antt =====
-- In which order `claim` hands out ids: the first `limit` of an agenda that each strategy defines.
use mathlib.Core.List.{reverse, reverse-cons, append-nil}
use oqronkit.Prelude.{
  mem, ℕ, suc, zero, ◌≡◌, ◌≢◌, ◌≤◌, refl, false, Option, none, some, List, [], ◌∷◌, ◌++◌, Text, map,
  arith, Option-cases, ap, inl, inr, take, sym, ◌∙◌,
}
use oqronkit.Broker.{
  Broker, PriorityEntry, DelayedEntry, BrokerStrategy, fifo, lifo, by_priority, list_at, due,
  prioritised, promote, promote_to, pop, pop_claims, splice, splice_back, take_claims, claim,
  sort_priority, insert_priority, prepared,
}
use oqronkit.Broker.Queued.{list_at-set}
use oqronkit.Broker.Claims.{pop-none}

-- Every priority in the list is `n` at least.
abbrev pub FromPriority : ℕ → List PriorityEntry → Type 0
FromPriority n [] = Unit {0}
FromPriority n (x ∷ xs) = (n ≤ x.priority) × FromPriority n xs

abbrev pub IsSorted : List PriorityEntry → Type 0
IsSorted [] = Unit {0}
IsSorted (x ∷ xs) = FromPriority x.priority xs × IsSorted xs

FromPriority-mono :
    (m n : ℕ) (xs : List PriorityEntry) → m ≤ n → FromPriority n xs → FromPriority m xs
FromPriority-mono m n [] h f = tt
FromPriority-mono m n (x ∷ xs) h f = (omega arith, FromPriority-mono m n xs h f.1)

insert_priority-FromPriority :
    (n : ℕ) (e : PriorityEntry) (xs : List PriorityEntry)
    → n ≤ e.priority
    → FromPriority n xs
    → FromPriority n (insert_priority e xs)
unfolding insert_priority
insert_priority-FromPriority n e [] h f = (h, tt)
insert_priority-FromPriority n e (x ∷ xs) h f =
    ground (arith, insert_priority-FromPriority n e xs h f.1)

insert_priority-IsSorted :
    (e : PriorityEntry) (xs : List PriorityEntry) → IsSorted xs → IsSorted (insert_priority e xs)
unfolding insert_priority
insert_priority-IsSorted e [] s = (tt, tt)
insert_priority-IsSorted e (x ∷ xs) s = ground (
  arith,
  insert_priority-IsSorted e xs s.1,
  insert_priority-FromPriority x.priority e xs,
  FromPriority-mono e.priority x.priority xs,
)

pub sort_priority-IsSorted : (xs : List PriorityEntry) → IsSorted (sort_priority xs)
unfolding sort_priority
sort_priority-IsSorted [] = tt
sort_priority-IsSorted (x ∷ xs) =
    insert_priority-IsSorted x (sort_priority xs) (sort_priority-IsSorted xs)

insert_priority_first :
    (e : PriorityEntry) (xs : List PriorityEntry)
    → FromPriority e.priority xs
    → insert_priority e xs ≡ e ∷ xs
unfolding insert_priority
insert_priority_first e [] f = refl
insert_priority_first e (x ∷ xs) f = ground arith

-- A sorted list stays as it is.
pub sort_priority_of_IsSorted : (xs : List PriorityEntry) → IsSorted xs → sort_priority xs ≡ xs
unfolding sort_priority
sort_priority_of_IsSorted [] s = refl
sort_priority_of_IsSorted (x ∷ xs) s =
    rw (sort_priority_of_IsSorted xs s.1) (insert_priority_first x xs s.0)

reverse-pop :
    (xs rest : List Text) (x : Text) → pop xs ≡ some (rest, x) → reverse xs ≡ x ∷ reverse rest
unfolding pop
reverse-pop [] rest x e = cc
reverse-pop (y ∷ xs) rest x e = elim (Option-cases (pop xs)) [
  | inl stop ↦
      let whole : xs ≡ [] = pop-none xs stop in ground (arith, ap (λ l. reverse (y ∷ l)) whole)
  | inr (v, more) ↦
      ground (arith, reverse-pop xs v.0 v.1 more, reverse-cons y xs, reverse-cons y v.0)
]

pop_claims-take : (n : ℕ) (xs : List Text) → (pop_claims n xs).0 ≡ take n (reverse xs)
unfolding pop_claims
pop_claims-take zero xs = refl
pop_claims-take (suc n) xs = elim (Option-cases (pop xs)) [
  | inl stop ↦ ground (arith, ap (reverse {A = Text}) (pop-none xs stop))
  | inr (v, more) ↦ ground (arith, pop_claims-take n v.0, reverse-pop xs v.0 v.1 more)
]

-- What a claim at `now` may hand out, in order.
abbrev pub agenda : BrokerStrategy → Text → ℕ → Broker → List Text
agenda fifo name now b =
    list_at name b.wait_lists ++ map (λ (d : DelayedEntry). d.id) (due now (list_at name b.delayed))
agenda lifo name now b = reverse (
    list_at name b.wait_lists
    ++ map (λ (d : DelayedEntry). d.id) (due now (list_at name b.delayed)))
agenda by_priority name now b =
    map (λ (e : PriorityEntry). e.id)
      (sort_priority
        (list_at name b.priority_lists ++ map prioritised (due now (list_at name b.delayed))))

take-map : {A : Type 0} (f : A → Text) (n : ℕ) (xs : List A) → map f (take n xs) ≡ take n (map f xs)
take-map f zero xs = refl
take-map f (suc n) [] = refl
take-map f (suc n) (x ∷ xs) = ap (◌∷◌ (f x)) (take-map f n xs)

take-nil : {A : Type 0} (n : ℕ) → take {A = A} n [] ≡ []
take-nil zero = refl
take-nil (suc n) = refl

-- The queues after the due entries have joined them.
prepared_waiting :
    (s : BrokerStrategy) (name : Text) (now : ℕ) (b : Broker)
    → s ≢ by_priority
    → list_at name (prepared s name now b).wait_lists
      ≡ list_at name b.wait_lists
        ++ map (λ (d : DelayedEntry). d.id) (due now (list_at name b.delayed))
unfolding promote promote_to
prepared_waiting s name now b h = go s h (due now (list_at name b.delayed)) refl
  where
    go :
        (s : BrokerStrategy)
        → s ≢ by_priority
        → (ds : List DelayedEntry) → due now (list_at name b.delayed) ≡ ds
        → list_at name (prepared s name now b).wait_lists
          ≡ list_at name b.wait_lists ++ map (λ (d : DelayedEntry). d.id) ds
    go s h [] e = rw (e, promote) (sym (append-nil (list_at name b.wait_lists)))
    go by_priority h (d ∷ ds) e = absurd (h refl)
    go _ h (d ∷ ds) e =
        rw (e, promote)
          (ground (
            arith,
            list_at-set (λ x. x) name name
                (list_at name b.wait_lists ++ map (λ (d : DelayedEntry). d.id) (d ∷ ds))
                b.wait_lists,
          ))

prepared_priority :
    (name : Text) (now : ℕ) (b : Broker)
    → IsSorted (list_at name b.priority_lists)
    → list_at name (prepared by_priority name now b).priority_lists
      ≡ sort_priority
          (list_at name b.priority_lists ++ map prioritised (due now (list_at name b.delayed)))
unfolding promote promote_to
prepared_priority name now b sorted = go (due now (list_at name b.delayed)) refl
  where
    go :
        (ds : List DelayedEntry)
        → due now (list_at name b.delayed) ≡ ds
        → list_at name (prepared by_priority name now b).priority_lists
          ≡ sort_priority (list_at name b.priority_lists ++ map prioritised ds)
    go [] e =
        rw (e, promote)
          (rw (append-nil (list_at name b.priority_lists))
            (sym (sort_priority_of_IsSorted _ sorted)))
    go (d ∷ ds) e =
        rw (e, promote)
          (ground (
            arith,
            list_at-set (λ (x : PriorityEntry). x.id) name name
                (sort_priority (list_at name b.priority_lists ++ map prioritised (d ∷ ds)))
                b.priority_lists,
          ))

-- What `take_claims` returns, the early return included.
ids_of : Option (List Text × Broker) → List Text
ids_of none = []
ids_of (some r) = r.0

take_claims-fifo :
    (name : Text) (limit : ℕ) (b : Broker)
    → ids_of (take_claims fifo name limit b) ≡ take limit (list_at name b.wait_lists)
unfolding take_claims splice ids_of
take_claims-fifo name limit b = go (list_at name b.wait_lists) refl
  where
    go :
        (l : List Text)
        → list_at name b.wait_lists ≡ l
        → ids_of (take_claims fifo name limit b) ≡ take limit l
    go [] e = rw (e, take_claims) (sym (take-nil limit))
    go (x ∷ l) e = rw (e, take_claims) refl

take_claims-lifo :
    (name : Text) (limit : ℕ) (b : Broker)
    → ids_of (take_claims lifo name limit b) ≡ take limit (reverse (list_at name b.wait_lists))
unfolding take_claims splice_back ids_of
take_claims-lifo name limit b = go (list_at name b.wait_lists) refl
  where
    go :
        (l : List Text)
        → list_at name b.wait_lists ≡ l
        → ids_of (take_claims lifo name limit b) ≡ take limit (reverse l)
    go [] e = rw (e, take_claims) (sym (take-nil limit))
    go (x ∷ l) e = rw (e, take_claims) (pop_claims-take limit (x ∷ l))

take_claims-by_priority :
    (name : Text) (limit : ℕ) (b : Broker)
    → ids_of (take_claims by_priority name limit b)
      ≡ take limit (map (λ (e : PriorityEntry). e.id) (list_at name b.priority_lists))
unfolding take_claims splice ids_of
take_claims-by_priority name limit b = go (list_at name b.priority_lists) refl
  where
    go :
        (l : List PriorityEntry)
        → list_at name b.priority_lists ≡ l
        → ids_of (take_claims by_priority name limit b)
          ≡ take limit (map (λ (e : PriorityEntry). e.id) l)
    go [] e = rw (e, take_claims) (sym (take-nil limit))
    go (x ∷ l) e = rw (e, take_claims) (take-map (λ (e : PriorityEntry). e.id) limit (x ∷ l))

claim-ids_of :
    (s : BrokerStrategy) (name consumer : Text) (limit ttl now : ℕ) (b : Broker)
    → mem name b.paused ≡ false
    → (claim s name consumer limit ttl now b).1
      ≡ ids_of (take_claims s name limit (prepared s name now b))
unfolding claim ids_of
claim-ids_of s name consumer limit ttl now b open_ = ground arith

-- The priority lists are kept in order.
abbrev pub PrioritiesSorted : Broker → Type 0
PrioritiesSorted b = (name : Text) → IsSorted (list_at name b.priority_lists)

-- If the priority lists are sorted and the broker is not paused, a claim returns the first `limit`
-- ids of the agenda of its strategy: the wait list and then the ids due, that list reversed, or the
-- stable sort of the priority list with the entries due.
pub claim-agenda :
    (s : BrokerStrategy) (name consumer : Text) (limit ttl now : ℕ) (b : Broker)
    → PrioritiesSorted b
    → mem name b.paused ≡ false
    → (claim s name consumer limit ttl now b).1 ≡ take limit (agenda s name now b)
claim-agenda fifo name consumer limit ttl now b sorted running =
    claim-ids_of fifo name consumer limit ttl now b running
    ∙ take_claims-fifo name limit (prepared fifo name now b)
    ∙ ap (take limit) (prepared_waiting fifo name now b (λ e. cc))
claim-agenda lifo name consumer limit ttl now b sorted running =
    claim-ids_of lifo name consumer limit ttl now b running
    ∙ take_claims-lifo name limit (prepared lifo name now b)
    ∙ ap (λ l. take limit (reverse l)) (prepared_waiting lifo name now b (λ e. cc))
claim-agenda by_priority name consumer limit ttl now b sorted running =
    claim-ids_of by_priority name consumer limit ttl now b running
    ∙ take_claims-by_priority name limit (prepared by_priority name now b)
    ∙ ap (λ l. take limit (map (λ (e : PriorityEntry). e.id) l))
        (prepared_priority name now b (sorted name))
