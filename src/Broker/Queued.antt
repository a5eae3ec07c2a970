-- ===== src/Broker/Queued.antt =====
-- How often an id is queued at a broker, and what `publish`, `ack` and `nack` make of that.
use oqronkit.Prelude.{
  ℕ, suc, ◌+◌, ◌≡◌, refl, ite, Option, none, some, List, [], ◌∷◌, ◌++◌, Text, map, text_discrete,
  or_else, arith, Option-cases, inl, inr,
}
use oqronkit.JsMap
use oqronkit.JsMap.{JsMap, get-set}
use oqronkit.Broker.{
  Broker, PriorityEntry, DelayedEntry, list_at, without, drop_id, remove_queued_id, insert_priority,
  sort_priority, delay_until, push_priority, push_waiting, unshift_waiting, publish, ack, nack,
  lock_key,
}

-- The number of elements that have the id.
unfoldable pub occ {ℓ} : {A : Type ℓ} → (A → Text) → Text → List A → ℕ
occ id_of id [] = 0
occ id_of id (x ∷ xs) = ite (text_discrete (id_of x) id) (suc (occ id_of id xs)) (occ id_of id xs)

abbrev pub id_self : Text → Text
id_self x = x

abbrev pub prio_id : PriorityEntry → Text
prio_id e = e.id

abbrev pub delayed_id : DelayedEntry → Text
delayed_id e = e.id

-- The number of times that the id stands in the three queues of the broker.
unfoldable pub queued : Text → Text → Broker → ℕ
queued name id b =
    occ id_self id (list_at name b.wait_lists)
    + occ prio_id id (list_at name b.priority_lists)
    + occ delayed_id id (list_at name b.delayed)

module _ {A : Type 0} (id_of : A → Text) where
  pub occ-append :
      (id : Text) (xs ys : List A) → occ id_of id (xs ++ ys) ≡ occ id_of id xs + occ id_of id ys
  unfolding occ
  occ-append id [] ys = omega arith
  occ-append id (x ∷ xs) ys = ground (arith, occ-append id xs ys)

  pub occ-without :
      (id j : Text) (xs : List A)
      → occ id_of j (without id_of id xs) ≡ ite (text_discrete id j) 0 (occ id_of j xs)
  unfolding occ without
  occ-without id j [] = ground arith
  occ-without id j (x ∷ xs) = ground (arith, occ-without id j xs)

  pub occ-map :
      {B : Type 0} (f : B → A) (id : Text) (xs : List B)
      → occ id_of id (map f xs) ≡ occ (λ x. id_of (f x)) id xs
  unfolding occ
  occ-map f id [] = refl
  occ-map f id (x ∷ xs) = ground (arith, occ-map f id xs)

  -- Removing an id from one broker's list, as read from any broker's.
  pub occ-drop_id :
      (name other id j : Text) (m : JsMap (List A))
      → occ id_of j (list_at other (drop_id id_of name id m))
        ≡ ite
            (text_discrete name other)
            (ite (text_discrete id j) 0 (occ id_of j (list_at other m)))
            (occ id_of j (list_at other m))
  unfolding drop_id occ
  occ-drop_id name other id j m = elim (Option-cases (JsMap.get name m)) [
    | inl e ↦ ground arith
    | inr (l, e) ↦ ground (arith, get-set other name (without id_of id l) m, occ-without id j l)
  ]

  pub list_at-set :
      (name other : Text) (l : List A) (m : JsMap (List A))
      → list_at other (JsMap.set name l m) ≡ ite (text_discrete name other) l (list_at other m)
  list_at-set name other l m = ground (arith, get-set other name l m)

pub occ-insert_priority :
    (id : Text) (e : PriorityEntry) (xs : List PriorityEntry)
    → occ prio_id id (insert_priority e xs) ≡ occ prio_id id (e ∷ xs)
unfolding occ insert_priority
occ-insert_priority id e [] = refl
occ-insert_priority id e (x ∷ xs) = ground (arith, occ-insert_priority id e xs)

-- Sorting keeps every entry.
pub occ-sort_priority :
    (id : Text) (xs : List PriorityEntry) → occ prio_id id (sort_priority xs) ≡ occ prio_id id xs
unfolding occ sort_priority
occ-sort_priority id [] = refl
occ-sort_priority id (x ∷ xs) =
    ground (arith, occ-insert_priority id x (sort_priority xs), occ-sort_priority id xs)

pub queued-remove_queued_id :
    (name other id j : Text) (b : Broker)
    → queued other j (remove_queued_id name id b)
      ≡ ite
          (text_discrete name other)
          (ite (text_discrete id j) 0 (queued other j b))
          (queued other j b)
unfolding queued remove_queued_id
queued-remove_queued_id name other id j b = ground (
  arith,
  occ-drop_id id_self name other id j b.wait_lists,
  occ-drop_id prio_id name other id j b.priority_lists,
  occ-drop_id delayed_id name other id j b.delayed,
)

-- What an enqueueing operation adds: one copy of the id, at its broker.
abbrev pub Adds : Text → Text → Broker → Broker → Type 0
Adds name id before after =
    (other j : Text)
    → queued other j after
      ≡ ite (text_discrete name other)
          (ite (text_discrete id j) (suc (queued other j before)) (queued other j before))
          (queued other j before)

module _ (name id : Text) (b : Broker) where
  delay_until-Adds :
      (d : ℕ) (p : Option ℕ) (now : ℕ) → Adds name id b (delay_until name id d p now b)
  unfolding queued delay_until occ
  delay_until-Adds d p now other j = ground (
    arith,
    list_at-set delayed_id name other
        (list_at name b.delayed ++ record { run_at = now + d; id = id; priority = p } ∷ [])
        b.delayed,
    occ-append delayed_id j (list_at name b.delayed)
        (record { run_at = now + d; id = id; priority = p } ∷ []),
  )

  push_priority-Adds : (p : ℕ) → Adds name id b (push_priority name id p b)
  unfolding queued push_priority occ
  push_priority-Adds p other j =
      let entry : PriorityEntry = record { id = id; priority = p } in
      let old = list_at name b.priority_lists in
      ground (
        arith,
        list_at-set prio_id name other (sort_priority (old ++ entry ∷ [])) b.priority_lists,
        occ-sort_priority j (old ++ entry ∷ []),
        occ-append prio_id j old (entry ∷ []),
      )

  push_waiting-Adds : Adds name id b (push_waiting name id b)
  unfolding queued push_waiting occ
  push_waiting-Adds other j = ground (
    arith,
    list_at-set id_self name other (list_at name b.wait_lists ++ id ∷ []) b.wait_lists,
    occ-append id_self j (list_at name b.wait_lists) (id ∷ []),
  )

  unshift_waiting-Adds : Adds name id b (unshift_waiting name id b)
  unfolding queued unshift_waiting occ
  unshift_waiting-Adds other j =
      ground (arith, list_at-set id_self name other (id ∷ list_at name b.wait_lists) b.wait_lists)

-- The id is queued at its broker once; nothing else changed.
abbrev pub Once : Text → Text → Broker → Broker → Type 0
Once name id before after =
    (other j : Text)
    → queued other j after
      ≡ ite (text_discrete name other) (ite (text_discrete id j) 1 (queued other j before))
          (queued other j before)

-- `publish`, with or without delay and priority, leaves the id queued exactly once at its broker,
-- and every other id and broker as they were.
pub publish-Once :
    (name id : Text) (delay priority : Option ℕ) (now : ℕ) (b : Broker)
    → Once name id b (publish name id delay priority now b)
unfolding publish
publish-Once name id delay priority now b other j =
    let c = remove_queued_id name id b in
    elim priority
      as (λ p.
        queued other j (publish name id delay p now b)
        ≡ ite (text_discrete name other) (ite (text_discrete id j) 1 (queued other j b))
            (queued other j b)) [
              | none ↦ ground (
                arith,
                queued-remove_queued_id name other id j b,
                delay_until-Adds name id c (or_else delay 0) none now other j,
                push_waiting-Adds name id c other j,
              )
              | some p ↦ ground (
                arith,
                queued-remove_queued_id name other id j b,
                delay_until-Adds name id c (or_else delay 0) (some p) now other j,
                push_priority-Adds name id c p other j,
              )
            ]

pub queued-ack :
    (name other id j : Text) (b : Broker)
    → queued other j (ack name id b)
      ≡ ite
          (text_discrete name other)
          (ite (text_discrete id j) 0 (queued other j b))
          (queued other j b)
unfolding ack queued
queued-ack name other id j b =
    queued-remove_queued_id name other id j
      (record b { active_locks = JsMap.delete (lock_key name id) b.active_locks })

-- `nack`, with or without delay, leaves the id queued exactly once at its broker, and every other
-- id and broker as they were.
pub nack-Once :
    (name id : Text) (delay priority : Option ℕ) (now : ℕ) (b : Broker)
    → Once name id b (nack name id delay priority now b)
unfolding nack
nack-Once name id delay priority now b other j = ground (
  arith,
  queued-ack name other id j b,
  delay_until-Adds name id (ack name id b) (or_else delay 0) priority now other j,
  unshift_waiting-Adds name id (ack name id b) other j,
)
