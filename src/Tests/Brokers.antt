-- ===== src/Tests/Brokers.antt =====
-- engine/memory/memory-broker.ts at small inputs.
use oqronkit.Prelude.{
  ◌+◌, ◌≡◌, ◌≤◌, ◌↔◌, refl, ite, none, some, List, [], ◌∷◌, Text, text, text_discrete, take, arith,
  ℕ_discrete,
}
use oqronkit.JsMap
use oqronkit.Broker.{
  Broker, fifo, lifo, by_priority, publish, nack, claim, extend_lock, extended, remove_queued_id,
  drop_id, push_waiting, push_priority, sort_priority, insert_priority, delay_until, evict_expired,
  promote, promote_to, pop, pop_claims, splice, splice_back, take_claims, lock_claims, starts_with,
  size, ack, extend_lock_any, lost,
}
use oqronkit.Broker.Queued.{occ, id_self, queued, publish-Once}
use oqronkit.Broker.Agenda.{agenda, claim-agenda}
use oqronkit.Broker.Claims.{ClaimCall, run_claims, queued-claim, claimed_once}
use oqronkit.Broker.ClaimLocks.{claim-extend_lock}
use oqronkit.Broker.Sorted.{
  Op, publishes, claims, acks, history, IsValid, history-IsValid, empty_broker, empty-IsValid,
}
use oqronkit.Broker.Stranded.{nack_stranded}

program : Unit {0}
unfolding text_discrete ℕ_discrete JsMap.get JsMap.set JsMap.delete remove_queued_id drop_id publish
    push_waiting push_priority sort_priority insert_priority delay_until evict_expired promote
    promote_to pop_claims pop splice splice_back take_claims lock_claims claim occ extend_lock size
    starts_with ack nack extend_lock_any
program = tt

abbrev mail : Text
mail = text "mail"

abbrev a : Text
a = text "a"

abbrev b : Text
b = text "b"

abbrev worker : Text
worker = text "w"

-- `a` at once, `b` after 5 ms.
abbrev two_jobs : List Op
two_jobs = publishes mail a none none 10 ∷ publishes mail b (some 5) (some 2) 10 ∷ []

fifo_run : (claim fifo mail worker 5 100 15 (history two_jobs empty_broker)).1 ≡ a ∷ b ∷ []
unfolding program
fifo_run = refl

early_run : (claim fifo mail worker 5 100 14 (history two_jobs empty_broker)).1 ≡ a ∷ []
unfolding program
early_run = refl

lifo_run : (claim lifo mail worker 1 100 15 (history two_jobs empty_broker)).1 ≡ b ∷ []
unfolding program
lifo_run = refl

priority_run : (claim by_priority mail worker 5 100 15 (history two_jobs empty_broker)).1 ≡ b ∷ []
unfolding program
priority_run = refl

size_run : size mail (claim fifo mail worker 1 100 15 (history two_jobs empty_broker)).0 ≡ 2
unfolding program
size_run = refl

extend_run :
    (extend_lock_any a worker 50 20
      (claim fifo mail worker 1 100 15 (history two_jobs empty_broker)).0).1
    ≡ extended
unfolding program
extend_run = refl

late_run :
    (extend_lock_any a worker 50 200
      (claim fifo mail worker 1 100 15 (history two_jobs empty_broker)).0).1
    ≡ lost
unfolding program
late_run = refl

abbrev start : Broker
start = history two_jobs empty_broker

start-IsValid : IsValid start
start-IsValid = history-IsValid two_jobs empty_broker empty-IsValid

history-IsValid_example :
    IsValid (history (claims fifo mail worker 1 100 20 ∷ acks mail a ∷ []) start)
history-IsValid_example =
    history-IsValid (claims fifo mail worker 1 100 20 ∷ acks mail a ∷ []) start start-IsValid

abbrev calls : List ClaimCall
calls =
    record { strategy = fifo; consumer = worker; limit = 1; ttl = 100; now = 15 }
    ∷ record { strategy = lifo; consumer = text "v"; limit = 2; ttl = 100; now = 16 }
    ∷ []

claimed_once_example :
    occ id_self a (run_claims mail calls (publish mail a none none 10 start)).1 ≤ 1
claimed_once_example = claimed_once mail a none none 10 start calls

queued-claim_example :
    ite (text_discrete mail mail) (occ id_self a (claim fifo mail worker 1 100 15 start).1) 0
      + queued mail a (claim fifo mail worker 1 100 15 start).0
    ≡ queued mail a start
queued-claim_example = queued-claim fifo mail worker 1 100 15 start mail a

claim-agenda_example :
    (claim lifo mail worker 1 100 15 start).1 ≡ take 1 (agenda lifo mail 15 start)
unfolding program
claim-agenda_example = claim-agenda lifo mail worker 1 100 15 start start-IsValid.sorted refl

publish-Once_example :
    queued mail a (publish mail a none (some 3) 20 start)
    ≡ ite
        (text_discrete mail mail)
        (ite (text_discrete a a) 1 (queued mail a start))
        (queued mail a start)
publish-Once_example = publish-Once mail a none (some 3) 20 start mail a

claim-extend_lock_example :
    ((extend_lock a worker 50 mail 60 (claim fifo mail worker 1 100 15 start).0).1 ≡ extended)
    ↔ ((worker ≡ worker) × (60 ≤ 15 + 100))
unfolding program
claim-extend_lock_example =
    claim-extend_lock fifo mail worker worker 1 100 15 50 60 start a (omega arith)

nack_stranded_example :
    occ id_self a
      (run_claims mail
        (record { strategy = by_priority; consumer = worker; limit = 9; ttl = 100; now = 15 } ∷ [])
        (nack mail a none (some 1) 14 start)).1
    ≡ 0
nack_stranded_example =
    nack_stranded mail a (some 1) 14 start
      (record { strategy = by_priority; consumer = worker; limit = 9; ttl = 100; now = 15 } ∷ [])
      (refl, tt)
