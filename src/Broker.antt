-- ===== src/Broker.antt =====
-- engine/memory/memory-broker.ts, `MemoryBroker`: the state and every method but the listeners of
-- `claimBlocking`, `broadcast` and `subscribe`. `now` is the clock's reading in the call.
pub mod Queued
pub mod Agenda
pub mod Claims
pub mod Sorted
pub mod Stranded
pub mod ClaimLocks
use oqronkit.Prelude.{
  ℕ, zero, suc, ◌+◌, ite, Bool, true, false, Option, none, some, List, [], ◌∷◌, ◌++◌, Text, map,
  text_discrete, length, mem, take, drop, ltb, leb, or_else, ◌==◌, if◌then◌else◌, not,
}
use oqronkit.JsMap
use oqronkit.JsMap.{JsMap}

pub record ClaimLock : Type 0 where
  pub consumer_id : Text
  pub expires_at : ℕ

pub record PriorityEntry : Type 0 where
  pub id : Text
  pub priority : ℕ

pub record DelayedEntry : Type 0 where
  pub run_at : ℕ
  pub id : Text
  pub priority : Option ℕ

pub data BrokerStrategy : Type 0 where
  fifo lifo by_priority : BrokerStrategy

-- `broker:ready:<name>` was emitted; a timer will emit it after a delay.
pub data Event : Type 0 where
  ready : Text → Event
  wake : Text → ℕ → Event

pub record Broker : Type 0 where
  pub wait_lists : JsMap (List Text)
  pub priority_lists : JsMap (List PriorityEntry)
  pub delayed : JsMap (List DelayedEntry)
  pub active_locks : JsMap ClaimLock
  pub paused : List Text
  -- what was emitted and scheduled, latest first
  pub events : List Event

-- The broker's name, U+0000, the id.
abbrev pub lock_key : Text → Text → Text
lock_key broker_name id = broker_name ++ 0 ∷ id

-- `m.get(name) || []`
abbrev pub list_at : {A : Type 0} → Text → JsMap (List A) → List A
list_at name m = or_else (JsMap.get name m) []

-- `list.filter((x) => idOf(x) !== id)`
unfoldable pub without : {A : Type 0} → (A → Text) → Text → List A → List A
without id_of id [] = []
without id_of id (x ∷ xs) =
    ite (text_discrete (id_of x) id) (without id_of id xs) (x ∷ without id_of id xs)

-- `const list = m.get(name); if (list) m.set(name, list.filter(...))`
unfoldable pub drop_id : {A : Type 0} → (A → Text) → Text → Text → JsMap (List A) → JsMap (List A)
unfolding without
drop_id id_of name id m = elim (JsMap.get name m) [
  | none ↦ m
  | some list ↦ JsMap.set name (without id_of id list) m
]

unfoldable pub remove_queued_id : Text → Text → Broker → Broker
remove_queued_id name id b = record b {
  wait_lists = drop_id (λ x. x) name id b.wait_lists;
  priority_lists = drop_id (λ (e : PriorityEntry). e.id) name id b.priority_lists;
  delayed = drop_id (λ (e : DelayedEntry). e.id) name id b.delayed;
}

-- `list.sort((a, b) => a.priority - b.priority)`, which is stable.
unfoldable pub insert_priority : PriorityEntry → List PriorityEntry → List PriorityEntry
insert_priority e [] = e ∷ []
insert_priority e (x ∷ xs) =
    if leb e.priority x.priority then e ∷ x ∷ xs else x ∷ insert_priority e xs

unfoldable pub sort_priority : List PriorityEntry → List PriorityEntry
sort_priority [] = []
sort_priority (x ∷ xs) = insert_priority x (sort_priority xs)

-- `delayMs && delayMs > 0`
abbrev pub is_delayed : Option ℕ → Bool
is_delayed none = false
is_delayed (some d) = ltb 0 d

-- The branch for a delay, which `publish` and `nack` share.
unfoldable pub delay_until : Text → Text → ℕ → Option ℕ → ℕ → Broker → Broker
delay_until name id delay priority now b = record b {
  delayed = JsMap.set name (list_at name b.delayed ++ entry ∷ []) b.delayed;
  events = wake name delay ∷ b.events;
}
  where
    entry : DelayedEntry
    entry = record { run_at = now + delay; id = id; priority = priority }

unfoldable pub push_priority : Text → Text → ℕ → Broker → Broker
push_priority name id priority b = record b {
  priority_lists =
      JsMap.set name
        (sort_priority
          (list_at name b.priority_lists ++ record { id = id; priority = priority } ∷ []))
        b.priority_lists;
  events = ready name ∷ b.events;
}

unfoldable pub push_waiting : Text → Text → Broker → Broker
push_waiting name id b = record b {
  wait_lists = JsMap.set name (list_at name b.wait_lists ++ id ∷ []) b.wait_lists;
  events = ready name ∷ b.events;
}

unfoldable pub unshift_waiting : Text → Text → Broker → Broker
unshift_waiting name id b = record b {
  wait_lists = JsMap.set name (id ∷ list_at name b.wait_lists) b.wait_lists;
  events = ready name ∷ b.events;
}

unfoldable pub publish : Text → Text → Option ℕ → Option ℕ → ℕ → Broker → Broker
publish name id delay priority now b =
    if is_delayed delay
    then delay_until name id (or_else delay 0) priority now cleared
    else elim priority [
      | none ↦ push_waiting name id cleared
      | some p ↦ push_priority name id p cleared
    ]
  where
    cleared : Broker
    cleared = remove_queued_id name id b

pub record BatchItem : Type 0 where
  pub id : Text
  pub delay_ms : Option ℕ
  pub priority : Option ℕ

-- Each item is published at its own reading of the clock.
unfoldable pub publish_batch : Text → List (BatchItem × ℕ) → Broker → Broker
publish_batch name [] b = b
publish_batch name ((item, now) ∷ items) b =
    publish_batch name items (publish name item.id item.delay_ms item.priority now b)

unfoldable pub evict_expired : ℕ → JsMap ClaimLock → JsMap ClaimLock
evict_expired now [] = []
evict_expired now ((cid, lock) ∷ locks) =
    if ltb lock.expires_at now
    then evict_expired now locks
    else (cid, lock) ∷ evict_expired now locks

abbrev pub due : ℕ → List DelayedEntry → List DelayedEntry
due now [] = []
due now (d ∷ ds) = if leb d.run_at now then d ∷ due now ds else due now ds

abbrev pub not_due : ℕ → List DelayedEntry → List DelayedEntry
not_due now [] = []
not_due now (d ∷ ds) = if ltb now d.run_at then d ∷ not_due now ds else not_due now ds

abbrev pub prioritised : DelayedEntry → PriorityEntry
prioritised d = record { id = d.id; priority = or_else d.priority 0 }

-- The due entries join the list that the strategy claims from.
unfoldable pub promote_to : BrokerStrategy → Text → List DelayedEntry → Broker → Broker
promote_to by_priority name ds b = record b {
  priority_lists =
      JsMap.set name (sort_priority (list_at name b.priority_lists ++ map prioritised ds))
        b.priority_lists;
}
promote_to _ name ds b = record b {
  wait_lists = JsMap.set name (list_at name b.wait_lists ++ map (λ d. d.id) ds) b.wait_lists;
}

unfoldable pub promote : BrokerStrategy → Text → ℕ → Broker → Broker
promote strategy name now b = elim (due now delayed) [
  | [] ↦ b
  | d ∷ ds ↦
      let b' = promote_to strategy name (d ∷ ds) b in
      record b' { delayed = JsMap.set name (not_due now delayed) b'.delayed }
]
  where
    delayed : List DelayedEntry
    delayed = list_at name b.delayed

-- `waiting.pop()`: the rest, and the last element.
unfoldable pub pop : List Text → Option (List Text × Text)
pop [] = none
pop (x ∷ xs) = elim (pop xs) [ none ↦ some ([], x) | some (rest, y) ↦ some (x ∷ rest, y) ]

-- The loop of the `lifo` branch, over the rounds that are left.
unfoldable pub pop_claims : ℕ → List Text → List Text × List Text
unfolding pop
pop_claims zero waiting = ([], waiting)
pop_claims (suc n) waiting = elim (pop waiting) [
  | none ↦ ([], waiting)
  | some (rest, x) ↦ let (ids, left) = pop_claims n rest in (x ∷ ids, left)
]

-- The ids claimed, and what is left; `none` is the early return on an empty list.
unfoldable pub splice : {A : Type 0} → ℕ → List A → Option (List A × List A)
splice limit [] = none
splice limit (x ∷ xs) = some (take limit (x ∷ xs), drop limit (x ∷ xs))

unfoldable pub splice_back : ℕ → List Text → Option (List Text × List Text)
unfolding pop_claims
splice_back limit [] = none
splice_back limit (x ∷ xs) = some (pop_claims limit (x ∷ xs))

unfoldable pub take_claims : BrokerStrategy → Text → ℕ → Broker → Option (List Text × Broker)
unfolding splice splice_back
take_claims by_priority name limit b = elim (splice limit (list_at name b.priority_lists)) [
  | none ↦ none
  | some (claimed, left) ↦
      some (
        map (λ e. e.id) claimed,
        record b { priority_lists = JsMap.set name left b.priority_lists },
      )
]
take_claims lifo name limit b = elim (splice_back limit (list_at name b.wait_lists)) [
  | none ↦ none
  | some (claimed, left) ↦
      some (claimed, record b { wait_lists = JsMap.set name left b.wait_lists })
]
take_claims fifo name limit b = elim (splice limit (list_at name b.wait_lists)) [
  | none ↦ none
  | some (claimed, left) ↦
      some (claimed, record b { wait_lists = JsMap.set name left b.wait_lists })
]

unfoldable pub lock_claims : Text → ClaimLock → List Text → JsMap ClaimLock → JsMap ClaimLock
lock_claims name lock [] locks = locks
lock_claims name lock (cid ∷ cids) locks =
    lock_claims name lock cids (JsMap.set (lock_key name cid) lock locks)

-- Steps 0 and 1 of `claim`.
abbrev pub prepared : BrokerStrategy → Text → ℕ → Broker → Broker
prepared strategy name now b =
    promote strategy name now (record b { active_locks = evict_expired now b.active_locks })

unfoldable pub claim : BrokerStrategy → Text → Text → ℕ → ℕ → ℕ → Broker → Broker × List Text
claim strategy name consumer limit ttl now b =
    if mem name b.paused
    then (b, [])
    else elim (take_claims strategy name limit (prepared strategy name now b)) [
      | none ↦ (prepared strategy name now b, [])
      | some (claimed, b') ↦
          (record b' { active_locks = lock_claims name lock claimed b'.active_locks }, claimed)
    ]
  where
    lock : ClaimLock
    lock = record { consumer_id = consumer; expires_at = now + ttl }

-- How `extendLock` ends: it returns, or it throws one of two errors.
pub data Extension : Type 0 where
  extended lost ambiguous : Extension

-- `extendLock` with a broker's name.
unfoldable pub extend_lock : Text → Text → ℕ → Text → ℕ → Broker → Broker × Extension
extend_lock id consumer ttl name now b = elim (JsMap.get key b.active_locks) [
  | none ↦ (b, lost)
  | some lock ↦
      ite (text_discrete lock.consumer_id consumer)
        (if ltb lock.expires_at now
          then (record b { active_locks = JsMap.delete key b.active_locks }, lost)
          else (
            record b {
              active_locks = JsMap.set key (record lock { expires_at = now + ttl }) b.active_locks;
            },
            extended,
          ))
        (b, lost)
]
  where
    key : Text
    key = lock_key name id

-- `key.slice(key.indexOf("\u0000") + 1)`
unfoldable pub after_separator : Text → Option Text
after_separator [] = none
after_separator (c ∷ cs) = if c == 0 then some cs else after_separator cs

abbrev pub id_of_key : Text → Text
id_of_key key = or_else (after_separator key) key

pub data Scan : Type 0 where
  found : Option (Text × ClaimLock) → Scan
  many : Scan

-- The loop over all locks, with the match so far.
unfoldable pub scan : Text → Text → Option (Text × ClaimLock) → JsMap ClaimLock → Scan
scan id consumer match [] = found match
scan id consumer match ((key, candidate) ∷ locks) =
    let rest = scan id consumer match locks in
    let first = scan id consumer (some (key, candidate)) locks in
    ite (text_discrete (id_of_key key) id)
      (ite (text_discrete candidate.consumer_id consumer)
        (elim match [ none ↦ first | some _ ↦ many ]) rest)
      rest

-- `extendLock` with no broker's name.
unfoldable pub extend_lock_any : Text → Text → ℕ → ℕ → Broker → Broker × Extension
unfolding scan after_separator
extend_lock_any id consumer ttl now b = elim (scan id consumer none b.active_locks) [
  | many ↦ (b, ambiguous)
  | found none ↦ (b, lost)
  | found (some (key, lock)) ↦
      if ltb lock.expires_at now
      then (record b { active_locks = JsMap.delete key b.active_locks }, lost)
      else (
        record b {
          active_locks = JsMap.set key (record lock { expires_at = now + ttl }) b.active_locks;
        },
        extended,
      )
]

unfoldable pub ack : Text → Text → Broker → Broker
ack name id b =
    remove_queued_id name id
      (record b { active_locks = JsMap.delete (lock_key name id) b.active_locks })

unfoldable pub remove : Text → Text → Broker → Broker
unfolding ack
remove name id b = ack name id b

unfoldable pub nack : Text → Text → Option ℕ → Option ℕ → ℕ → Broker → Broker
unfolding ack
nack name id delay priority now b =
    if is_delayed delay
    then delay_until name id (or_else delay 0) priority now (ack name id b)
    else unshift_waiting name id (ack name id b)

-- `paused` is a set.
unfoldable pub pause : Text → Broker → Broker
pause name b = if mem name b.paused then b else record b { paused = b.paused ++ name ∷ [] }

unfoldable pub resume : Text → Broker → Broker
unfolding without
resume name b = record b { paused = without (λ x. x) name b.paused; events = ready name ∷ b.events }

abbrev pub is_paused : Text → Broker → Bool
is_paused name b = mem name b.paused

-- `key.startsWith(prefix)`
unfoldable pub starts_with : Text → Text → Bool
starts_with [] key = true
starts_with (p ∷ ps) [] = false
starts_with (p ∷ ps) (k ∷ ks) =
    if leb p k then (if leb k p then starts_with ps ks else false) else false

abbrev pub count_prefix : Text → List Text → ℕ
count_prefix prefix [] = 0
count_prefix prefix (k ∷ ks) =
    if starts_with prefix k then suc (count_prefix prefix ks) else count_prefix prefix ks

unfoldable pub size : Text → Broker → ℕ
unfolding starts_with
size name b =
    length (list_at name b.wait_lists)
    + length (list_at name b.priority_lists)
    + length (list_at name b.delayed)
    + count_prefix (lock_key name []) (JsMap.keys b.active_locks)

-- `close`, the listeners apart.
unfoldable pub close : Broker → Broker
close b = record b {
  wait_lists = [];
  priority_lists = [];
  delayed = [];
  active_locks = [];
  paused = [];
}
