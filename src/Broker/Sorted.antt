-- ===== src/Broker/Sorted.antt =====
-- The priority lists stay sorted under every operation.
use oqronkit.Prelude.{
  mem, ℕ, suc, zero, ◌≡◌, ◌≤◌, refl, Option, some, List, [], ◌∷◌, Text, text_discrete, or_else,
  arith, Bool-cases, Option-cases, ap, inl, inr, drop, if_pos, if_neg, subst,
}
use oqronkit.JsMap
use oqronkit.JsMap.{JsMap, get-set}
use oqronkit.Broker.{
  Broker, PriorityEntry, DelayedEntry, BrokerStrategy, fifo, lifo, by_priority, list_at, without,
  drop_id, remove_queued_id, due, is_delayed, delay_until, push_priority, push_waiting,
  unshift_waiting, publish, ack, nack, pause, resume, extend_lock, close, promote, promote_to,
  splice, take_claims, claim, prepared,
}
use oqronkit.Broker.Queued.{queued, occ, publish-Once, nack-Once, queued-ack}
use oqronkit.Broker.Claims.{queued-claim}
use oqronkit.Broker.Agenda.{FromPriority, IsSorted, sort_priority-IsSorted, PrioritiesSorted}

without-FromPriority :
    (id : Text) (n : ℕ) (xs : List PriorityEntry)
    → FromPriority n xs
    → FromPriority n (without (λ (e : PriorityEntry). e.id) id xs)
unfolding without
without-FromPriority id n [] f = tt
without-FromPriority id n (x ∷ xs) f = ground (arith, without-FromPriority id n xs f.1)

without-IsSorted :
    (id : Text) (xs : List PriorityEntry)
    → IsSorted xs
    → IsSorted (without (λ (e : PriorityEntry). e.id) id xs)
unfolding without
without-IsSorted id [] s = tt
without-IsSorted id (x ∷ xs) s =
    ground (arith, without-FromPriority id x.priority xs s.0, without-IsSorted id xs s.1)

drop-IsSorted : (n : ℕ) (xs : List PriorityEntry) → IsSorted xs → IsSorted (drop n xs)
drop-IsSorted zero xs s = s
drop-IsSorted (suc n) [] s = tt
drop-IsSorted (suc n) (x ∷ xs) s = drop-IsSorted n xs s.1

-- Writing a sorted list keeps all lists sorted.
set-Sorted :
    (name : Text) (l : List PriorityEntry) (m : JsMap (List PriorityEntry))
    → IsSorted l
    → ((other : Text) → IsSorted (list_at other m))
    → (other : Text) → IsSorted (list_at other (JsMap.set name l m))
set-Sorted name l m s all other = elim (text_discrete name other) [
  | yes here ↦ rw (get-set other name l m, if_pos (text_discrete name other) here) s
  | no away ↦ rw (get-set other name l m, if_neg (text_discrete name other) away) (all other)
]

drop_id-Sorted :
    (name id : Text) (m : JsMap (List PriorityEntry))
    → ((other : Text) → IsSorted (list_at other m))
    → (other : Text) → IsSorted (list_at other (drop_id (λ (e : PriorityEntry). e.id) name id m))
unfolding drop_id
drop_id-Sorted name id m all = elim (Option-cases (JsMap.get name m)) [
  | inl e ↦ rw (e, drop_id) all
  | inr (l, e) ↦
      let whole : list_at name m ≡ l = ap (λ o. or_else o []) e in
      rw (e, drop_id)
        (set-Sorted name _ m (without-IsSorted id l (subst IsSorted whole (all name))) all)
]

ack-Sorted : (name id : Text) (b : Broker) → PrioritiesSorted b → PrioritiesSorted (ack name id b)
unfolding ack remove_queued_id
ack-Sorted name id b all = drop_id-Sorted name id b.priority_lists all

publish-Sorted :
    (name id : Text) (delay priority : Option ℕ) (now : ℕ) (b : Broker)
    → PrioritiesSorted b
    → PrioritiesSorted (publish name id delay priority now b)
unfolding publish remove_queued_id delay_until push_waiting push_priority
publish-Sorted name id delay priority now b all = elim (Bool-cases (is_delayed delay)) [
  | inl later ↦ rw (later, publish) (drop_id-Sorted name id b.priority_lists all)
  | inr at_once ↦ elim (Option-cases priority) [
    | inl e ↦ rw (at_once, e, publish) (drop_id-Sorted name id b.priority_lists all)
    | inr (p, e) ↦
        rw (at_once, e, publish)
          (set-Sorted name _ _ (sort_priority-IsSorted _)
            (drop_id-Sorted name id b.priority_lists all))
  ]
]

nack-Sorted :
    (name id : Text) (delay priority : Option ℕ) (now : ℕ) (b : Broker)
    → PrioritiesSorted b
    → PrioritiesSorted (nack name id delay priority now b)
unfolding nack delay_until unshift_waiting
nack-Sorted name id delay priority now b all = elim (Bool-cases (is_delayed delay)) [
  | inl later ↦ rw (later, nack) (ack-Sorted name id b all)
  | inr at_once ↦ rw (at_once, nack) (ack-Sorted name id b all)
]

promote-Sorted :
    (s : BrokerStrategy) (name : Text) (now : ℕ) (b : Broker)
    → PrioritiesSorted b
    → PrioritiesSorted (promote s name now b)
unfolding promote promote_to
promote-Sorted s name now b all = go s (due now (list_at name b.delayed)) refl
  where
    go :
        (s : BrokerStrategy) (ds : List DelayedEntry)
        → due now (list_at name b.delayed) ≡ ds
        → PrioritiesSorted (promote s name now b)
    go s [] e = rw (e, promote) all
    go by_priority (d ∷ ds) e =
        rw (e, promote) (set-Sorted name _ b.priority_lists (sort_priority-IsSorted _) all)
    go _ (d ∷ ds) e = rw (e, promote) all

take_claims-Sorted :
    (s : BrokerStrategy) (name : Text) (limit : ℕ) (b : Broker) (r : List Text × Broker)
    → take_claims s name limit b ≡ some r
    → PrioritiesSorted b
    → PrioritiesSorted r.1
unfolding take_claims splice
take_claims-Sorted by_priority name limit b r e all = go (list_at name b.priority_lists) refl
  where
    go : (l : List PriorityEntry) → list_at name b.priority_lists ≡ l → PrioritiesSorted r.1
    go [] stop = absurd (ground arith)
    go (x ∷ l) more =
        let left : r.1.priority_lists ≡ JsMap.set name (drop limit (x ∷ l)) b.priority_lists =
          ground arith in
        rw left (
          set-Sorted name _ b.priority_lists
            (drop-IsSorted limit (x ∷ l) (subst IsSorted more (all name))) all)
take_claims-Sorted lifo name limit b r e all =
    let left : r.1.priority_lists ≡ b.priority_lists = ground arith in rw left all
take_claims-Sorted fifo name limit b r e all =
    let left : r.1.priority_lists ≡ b.priority_lists = ground arith in rw left all

claim-Sorted :
    (s : BrokerStrategy) (name consumer : Text) (limit ttl now : ℕ) (b : Broker)
    → PrioritiesSorted b
    → PrioritiesSorted (claim s name consumer limit ttl now b).0
unfolding claim
claim-Sorted s name consumer limit ttl now b all = elim (Bool-cases (mem name b.paused)) [
  | inl stopped ↦ rw (stopped, claim) all
  | inr running ↦ elim (Option-cases (take_claims s name limit (prepared s name now b))) [
    | inl stop ↦
        let kept : (claim s name consumer limit ttl now b).0 ≡ prepared s name now b =
          ground arith in
        rw kept (promote-Sorted s name now _ all)
    | inr (r, more) ↦
        let same : (claim s name consumer limit ttl now b).0.priority_lists ≡ r.1.priority_lists =
          ground arith in
        rw same (take_claims-Sorted s name limit _ r more (promote-Sorted s name now _ all))
  ]
]

extend_lock-Sorted :
    (id consumer : Text) (ttl : ℕ) (name : Text) (now : ℕ) (b : Broker)
    → (extend_lock id consumer ttl name now b).0.priority_lists ≡ b.priority_lists
unfolding extend_lock
extend_lock-Sorted id consumer ttl name now b = ground arith

extend_lock-queued :
    (id consumer : Text) (ttl : ℕ) (name : Text) (now : ℕ) (b : Broker) (other j : Text)
    → queued other j (extend_lock id consumer ttl name now b).0 ≡ queued other j b
unfolding extend_lock queued
extend_lock-queued id consumer ttl name now b other j = ground arith

-- The calls of the interface that change the broker, with the clock's readings.
pub data Op : Type 0 where
  publishes : Text → Text → Option ℕ → Option ℕ → ℕ → Op
  claims : BrokerStrategy → Text → Text → ℕ → ℕ → ℕ → Op
  extends : Text → Text → ℕ → Text → ℕ → Op
  acks : Text → Text → Op
  nacks : Text → Text → Option ℕ → Option ℕ → ℕ → Op
  pauses : Text → Op
  resumes : Text → Op
  closes : Op

abbrev pub apply : Op → Broker → Broker
apply (publishes name id delay priority now) b = publish name id delay priority now b
apply (claims s name consumer limit ttl now) b = (claim s name consumer limit ttl now b).0
apply (extends id consumer ttl name now) b = (extend_lock id consumer ttl name now b).0
apply (acks name id) b = ack name id b
apply (nacks name id delay priority now) b = nack name id delay priority now b
apply (pauses name) b = pause name b
apply (resumes name) b = resume name b
apply closes b = close b

abbrev pub history : List Op → Broker → Broker
history [] b = b
history (op ∷ ops) b = history ops (apply op b)

-- Priority lists in order, and no id queued twice at a broker.
pub record IsValid (b : Broker) : Type 0 where
  pub sorted : PrioritiesSorted b
  pub once : (name id : Text) → queued name id b ≤ 1

pub apply-IsValid : (op : Op) (b : Broker) → IsValid b → IsValid (apply op b)
unfolding pause resume close queued occ JsMap.get
apply-IsValid (publishes name id delay priority now) b v = record {
  sorted = publish-Sorted name id delay priority now b v.sorted;
  once =
      λ other j. ground (arith, publish-Once name id delay priority now b other j, v.once other j);
}
apply-IsValid (claims s name consumer limit ttl now) b v = record {
  sorted = claim-Sorted s name consumer limit ttl now b v.sorted;
  once = λ other j.
      omega (arith, queued-claim s name consumer limit ttl now b other j, v.once other j);
}
apply-IsValid (extends id consumer ttl name now) b v = record {
  sorted = rw (extend_lock-Sorted id consumer ttl name now b) v.sorted;
  once = λ other j. rw (extend_lock-queued id consumer ttl name now b other j) (v.once other j);
}
apply-IsValid (acks name id) b v = record {
  sorted = ack-Sorted name id b v.sorted;
  once = λ other j. ground (arith, queued-ack name other id j b, v.once other j);
}
apply-IsValid (nacks name id delay priority now) b v = record {
  sorted = nack-Sorted name id delay priority now b v.sorted;
  once = λ other j. ground (arith, nack-Once name id delay priority now b other j, v.once other j);
}
apply-IsValid (pauses name) b v = elim (Bool-cases (mem name b.paused)) [
  | inl already ↦ rw (already, pause) v
  | inr new ↦ rw (new, pause) (record { sorted = v.sorted; once = v.once })
]
apply-IsValid (resumes name) b v = record { sorted = v.sorted; once = v.once }
apply-IsValid closes b v = record { sorted = λ name. tt; once = λ name id. omega arith }

abbrev pub empty_broker : Broker
empty_broker = record {
  wait_lists = [];
  priority_lists = [];
  delayed = [];
  active_locks = [];
  paused = [];
  events = [];
}

-- Any sequence of publish, claim, extendLock, ack, nack, pause, resume and close keeps every
-- priority list sorted and every id queued at most once at each broker, if that holds at the start.
pub history-IsValid : (ops : List Op) (b : Broker) → IsValid b → IsValid (history ops b)
history-IsValid [] b v = v
history-IsValid (op ∷ ops) b v = history-IsValid ops (apply op b) (apply-IsValid op b v)

pub empty-IsValid : IsValid empty_broker
unfolding queued occ JsMap.get
empty-IsValid = record { sorted = λ name. tt; once = λ name id. omega arith }
