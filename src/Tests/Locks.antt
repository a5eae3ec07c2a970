-- ===== src/Tests/Locks.antt =====
-- engine/memory/memory-lock.ts and engine/lock/leader-election.ts at small inputs.
use oqronkit.Prelude.{◌≡◌, refl, true, false, [], ◌∷◌, Text, text, text_discrete, arith, ℕ_discrete}
use oqronkit.JsMap
use oqronkit.Lock.{granted, refused}
use oqronkit.Lock.Memory.{acquire, renew, is_owner, memory_lock, Locks}
use oqronkit.Lock.Leader.{idle, ask, begin_stop}
use oqronkit.Lock.Safety.{
  System, tick, asks, replied, here, next, leader_unique, after_ask, after_reply, after_begin,
  is_stopping,
}

program : Unit {0}
unfolding text_discrete ℕ_discrete JsMap.get JsMap.set JsMap.delete acquire renew is_owner ask
    begin_stop
program = tt

abbrev key : Text
key = text "k"

abbrev n1 : Text
n1 = text "n1"

abbrev n2 : Text
n2 = text "n2"

abbrev held : Locks
held = (key, record { owner = n1; expires_at = 40 }) ∷ []

acquire_other : (acquire key n2 30 40 held).1 ≡ refused
unfolding program
acquire_other = refl

acquire_lapsed : (acquire key n2 30 41 held).1 ≡ granted
unfolding program
acquire_lapsed = refl

abbrev start : System memory_lock key 30
start = record { lock = []; leader = λ n. false; phase = λ n. idle; renewed = λ n. 0; now = 10 }

leader_unique_example : n1 ≡ n1
unfolding program
leader_unique_example =
    leader_unique memory_lock key 30 {s = start} n1 n1 (λ n. (refl, refl))
      (next (next (next here (asks n1 refl)) (replied n1 granted refl)) (tick 5)) refl refl refl
      refl (omega arith) (omega arith)

-- The first node begins to stop, and the second is granted the lease before that is done: both count
-- themselves leader.
abbrev both : System memory_lock key 30
both =
    let s1 = after_reply memory_lock key 30 (after_ask memory_lock key 30 start n1) n1 granted in
    let s2 = after_begin memory_lock key 30 s1 n1 in
    after_reply memory_lock key 30 (after_ask memory_lock key 30 s2 n2) n2 granted

both_lead : (both.leader n1 ≡ true) × (both.leader n2 ≡ true) × (is_stopping (both.phase n1) ≡ true)
unfolding program
both_lead = (refl, refl, refl)
