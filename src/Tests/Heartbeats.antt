-- ===== src/Tests/Heartbeats.antt =====
-- engine/lock/heartbeat-worker.ts at small inputs: another owner takes the lock between two ticks.
use oqronkit.Prelude.{ℕ, ◌≡◌, refl, [], ◌∷◌, List, text, text_discrete, ℕ_discrete, false}
use oqronkit.JsMap
use oqronkit.Lock.Memory.{memory_lock, acquire, renew, release, Locks}
use oqronkit.Heartbeat.{Heartbeat, start, tick, beat, stop, Told, lock_loss_reported}

program : Unit {0}
unfolding text_discrete ℕ_discrete JsMap.get JsMap.set JsMap.delete acquire renew release start tick
    beat stop
program = tt

abbrev worker : Heartbeat
worker = record {
  key = text "k";
  owner_id = text "w";
  ttl_ms = 10;
  active = false;
  timer = false;
  lost = 0;
}

abbrev ticks : List (ℕ × (Locks → Locks))
ticks = (3, λ s. s) ∷ (20, λ s. (acquire (text "k") (text "v") 10 20 s).0) ∷ (24, λ s. s) ∷ []

abbrev ended : Heartbeat
ended = (beat memory_lock ticks (start memory_lock worker 0 []).0).1

told_once : ended.lost ≡ 1
unfolding program
told_once = refl

lock_loss_reported_example : Told memory_lock ended
unfolding program
lock_loss_reported_example = lock_loss_reported memory_lock worker 0 [] ticks refl refl
