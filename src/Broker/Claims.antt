-- ===== src/Broker/Claims.antt =====
-- `claim` moves ids from the queues to the consumer: none is lost, none is handed out twice.
use oqronkit.Prelude.{
  ℕ, suc, zero, ◌+◌, ◌≡◌, ◌≤◌, refl, ite, Option, none, some, List, [], ◌∷◌, ◌++◌, Text, map,
  text_discrete, arith, Option-cases, ap, inl, inr, take, drop, take-append-drop, sym, ◌∙◌,
}
use oqronkit.JsMap
use oqronkit.JsMap.{JsMap, get-set}
use oqronkit.Broker.{
  Broker, PriorityEntry, DelayedEntry, BrokerStrategy, fifo, lifo, by_priority, list_at, due,
  not_due, prioritised, promote, promote_to, pop, pop_claims, splice, splice_back, take_claims,
  claim, publish, sort_priority, evict_expired, prepared, ClaimLock, lock_claims,
}
use oqronkit.Broker.Queued.{
  occ, queued, id_self, prio_id, delayed_id, occ-append, occ-map, list_at-set, occ-sort_priority,
  publish-Once,
}

occ-due :
    (j : Text) (now : ℕ) (ds : List DelayedEntry)
    → occ delayed_id j (due now ds) + occ delayed_id j (not_due now ds) ≡ occ delayed_id j ds
unfolding occ
occ-due j now [] = refl
occ-due j now (d ∷ ds) = ground (arith, occ-due j now ds)

queued-promote_to :
    (s : BrokerStrategy) (name other j : Text) (ds : List DelayedEntry) (b : Broker)
    → queued other j (promote_to s name ds b)
      ≡ ite (text_discrete name other) (queued other j b + occ delayed_id j ds) (queued other j b)
unfolding queued promote_to
queued-promote_to by_priority name other j ds b =
    let old = list_at name b.priority_lists in
    ground (
      arith,
      list_at-set prio_id name other (sort_priority (old ++ map prioritised ds)) b.priority_lists,
      occ-sort_priority j (old ++ map prioritised ds),
      occ-append prio_id j old (map prioritised ds),
      occ-map prio_id prioritised j ds,
    )
queued-promote_to _ name other j ds b =
    let old = list_at name b.wait_lists in
    let ids = map (λ (d : DelayedEntry). d.id) ds in
    ground (
      arith,
      list_at-set id_self name other (old ++ ids) b.wait_lists,
      occ-append id_self j old ids,
      occ-map id_self delayed_id j ds,
    )

promote_to-delayed :
    (s : BrokerStrategy) (name : Text) (ds : List DelayedEntry) (b : Broker)
    → (promote_to s name ds b).delayed ≡ b.delayed
unfolding promote_to
promote_to-delayed by_priority name ds b = refl
promote_to-delayed _ name ds b = refl

set_delayed :
    (name other j : Text) (l : List DelayedEntry) (b : Broker)
    → queued other j (record b { delayed = JsMap.set name l b.delayed })
        + ite (text_discrete name other) (occ delayed_id j (list_at name b.delayed)) 0
      ≡ queued other j b + ite (text_discrete name other) (occ delayed_id j l) 0
unfolding queued
set_delayed name other j l b = ground (arith, list_at-set delayed_id name other l b.delayed)

-- Promotion keeps every id queued as often as before.
pub queued-promote :
    (s : BrokerStrategy) (name other j : Text) (now : ℕ) (b : Broker)
    → queued other j (promote s name now b) ≡ queued other j b
unfolding promote
queued-promote s name other j now b = go (due now delayed) refl
  where
    delayed : List DelayedEntry
    delayed = list_at name b.delayed

    go :
        (ds : List DelayedEntry)
        → due now delayed ≡ ds
        → queued other j (promote s name now b) ≡ queued other j b
    go [] e = rw (e, promote)
    go (d ∷ ds) e =
        let b' = promote_to s name (d ∷ ds) b in
        rw (e, promote)
          (ground (
            arith,
            set_delayed name other j (not_due now delayed) b',
            promote_to-delayed s name (d ∷ ds) b,
            queued-promote_to s name other j (d ∷ ds) b,
            occ-due j now delayed,
          ))

-- What is taken and what is left make up what was there.
abbrev Takes : Text → Broker → List Text → Broker → Type 0
Takes name before ids after =
    (other j : Text)
    → ite (text_discrete name other) (occ id_self j ids) 0 + queued other j after
      ≡ queued other j before

occ-take-drop :
    {A : Type 0} (id_of : A → Text) (j : Text) (n : ℕ) (xs : List A)
    → occ id_of j (take n xs) + occ id_of j (drop n xs) ≡ occ id_of j xs
occ-take-drop id_of j n xs =
    sym (occ-append id_of j (take n xs) (drop n xs)) ∙ ap (occ id_of j) (take-append-drop n xs)

pub pop-none : (xs : List Text) → pop xs ≡ none → xs ≡ []
unfolding pop
pop-none [] e = refl
pop-none (x ∷ xs) e = ground arith

occ-pop :
    (j : Text) (xs rest : List Text) (x : Text)
    → pop xs ≡ some (rest, x)
    → occ id_self j (x ∷ []) + occ id_self j rest ≡ occ id_self j xs
unfolding occ pop
occ-pop j [] rest x e = cc
occ-pop j (y ∷ xs) rest x e = elim (Option-cases (pop xs)) [
  | inl stop ↦ ground (arith, pop-none xs stop)
  | inr (v, more) ↦ ground (arith, occ-pop j xs v.0 v.1 (ground arith))
]

occ-pop_claims :
    (j : Text) (n : ℕ) (xs : List Text)
    → occ id_self j (pop_claims n xs).0 + occ id_self j (pop_claims n xs).1 ≡ occ id_self j xs
unfolding pop_claims occ
occ-pop_claims j zero xs = omega arith
occ-pop_claims j (suc n) xs = elim (Option-cases (pop xs)) [
  | inl stop ↦ ground arith
  | inr (v, more) ↦ ground (arith, occ-pop j xs v.0 v.1 more, occ-pop_claims j n v.0)
]

occ-splice :
    {A : Type 0} (id_of : A → Text) (j : Text) (limit : ℕ) (xs : List A) (r : List A × List A)
    → splice limit xs ≡ some r
    → occ id_of j r.0 + occ id_of j r.1 ≡ occ id_of j xs
unfolding splice
occ-splice id_of j limit [] r e = cc
occ-splice id_of j limit (x ∷ xs) r e = ground (arith, occ-take-drop id_of j limit (x ∷ xs))

occ-splice_back :
    (j : Text) (limit : ℕ) (xs : List Text) (r : List Text × List Text)
    → splice_back limit xs ≡ some r
    → occ id_self j r.0 + occ id_self j r.1 ≡ occ id_self j xs
unfolding splice_back
occ-splice_back j limit [] r e = cc
occ-splice_back j limit (x ∷ xs) r e = ground (arith, occ-pop_claims j limit (x ∷ xs))

take_claims-Takes :
    (s : BrokerStrategy) (name : Text) (limit : ℕ) (b : Broker) (ids : List Text) (b' : Broker)
    → take_claims s name limit b ≡ some (ids, b')
    → Takes name b ids b'
unfolding take_claims queued
take_claims-Takes by_priority name limit b ids b' e other j =
    elim (Option-cases (splice limit (list_at name b.priority_lists))) [
      | inl stop ↦ absurd (ground arith)
      | inr (r, more) ↦ ground (
        arith,
        occ-splice prio_id j limit (list_at name b.priority_lists) r more,
        list_at-set prio_id name other r.1 b.priority_lists,
        occ-map id_self (λ (x : PriorityEntry). x.id) j r.0,
      )
    ]
take_claims-Takes lifo name limit b ids b' e other j =
    elim (Option-cases (splice_back limit (list_at name b.wait_lists))) [
      | inl stop ↦ absurd (ground arith)
      | inr (r, more) ↦ ground (
        arith,
        occ-splice_back j limit (list_at name b.wait_lists) r more,
        list_at-set id_self name other r.1 b.wait_lists,
      )
    ]
take_claims-Takes fifo name limit b ids b' e other j =
    elim (Option-cases (splice limit (list_at name b.wait_lists))) [
      | inl stop ↦ absurd (ground arith)
      | inr (r, more) ↦ ground (
        arith,
        occ-splice id_self j limit (list_at name b.wait_lists) r more,
        list_at-set id_self name other r.1 b.wait_lists,
      )
    ]

pub queued-locks :
    (other j : Text) (l : JsMap ClaimLock) (b : Broker)
    → queued other j (record b { active_locks = l }) ≡ queued other j b
unfolding queued
queued-locks other j l b = refl

-- A claim moves ids and loses none: at the claimed broker the occurrences of an id in the result
-- and those still queued add up to those queued before, and at any other broker name the
-- occurrences stay as they were.
pub queued-claim :
    (s : BrokerStrategy) (name consumer : Text) (limit ttl now : ℕ) (b : Broker) (other j : Text)
    → let (b', ids) = claim s name consumer limit ttl now b in
      ite (text_discrete name other) (occ id_self j ids) 0 + queued other j b' ≡ queued other j b
unfolding claim occ
queued-claim s name consumer limit ttl now b other j =
    elim (Option-cases (take_claims s name limit (prepared s name now b))) [
      | inl stop ↦ ground (arith, kept, no_ids)
      | inr (r, more) ↦ ground (
        arith,
        kept,
        no_ids,
        take_claims-Takes s name limit p r.0 r.1 more other j,
        queued-locks other j
            (lock_claims name (record { consumer_id = consumer; expires_at = now + ttl }) r.0
              r.1.active_locks)
            r.1,
      )
    ]
  where
    p : Broker
    p = prepared s name now b

    no_ids : occ id_self j [] ≡ 0
    no_ids = refl

    kept : queued other j p ≡ queued other j b
    kept =
        queued-promote s name other j now _
        ∙ queued-locks other j (evict_expired now b.active_locks) b

-- One call of `claim` on a broker.
pub record ClaimCall : Type 0 where
  pub strategy : BrokerStrategy
  pub consumer : Text
  pub limit : ℕ
  pub ttl : ℕ
  pub now : ℕ

-- Calls of any consumers, one after the other: the ids that they return, together.
abbrev pub run_claims : Text → List ClaimCall → Broker → Broker × List Text
run_claims name [] b = (b, [])
run_claims name (c ∷ cs) b =
    let (b', ids) = claim c.strategy name c.consumer c.limit c.ttl c.now b in
    let (end, more) = run_claims name cs b' in (end, ids ++ more)

pub queued-run_claims :
    (name j : Text) (cs : List ClaimCall) (b : Broker)
    → occ id_self j (run_claims name cs b).1 + queued name j (run_claims name cs b).0
      ≡ queued name j b
unfolding occ
queued-run_claims name j [] b = omega arith
queued-run_claims name j (c ∷ cs) b =
    let r = claim c.strategy name c.consumer c.limit c.ttl c.now b in
    ground (
      arith,
      queued-claim c.strategy name c.consumer c.limit c.ttl c.now b name j,
      queued-run_claims name j cs r.0,
      occ-append id_self j r.1 (run_claims name cs r.0).1,
    )

-- Once an id is published on a broker, any sequence of claims on that broker, by any consumers,
-- strategies, limits and clock readings, hands the id out at most once altogether.
pub claimed_once :
    (name id : Text) (delay priority : Option ℕ) (now : ℕ) (b : Broker) (cs : List ClaimCall)
    → occ id_self id (run_claims name cs (publish name id delay priority now b)).1 ≤ 1
claimed_once name id delay priority now b cs = ground (
  arith,
  queued-run_claims name id cs (publish name id delay priority now b),
  publish-Once name id delay priority now b name id,
)
