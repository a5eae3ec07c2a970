-- ===== src/Throttle.antt =====
-- engine/utils/throttle-gate.ts, `ThrottleGate`, and the way the engines use it: `getAvailable`,
-- then a claim of at most that many jobs, then `record` of the number claimed
-- (worker/worker-engine.ts, queue/queue-engine.ts).
use oqronkit.Prelude.{
  ℕ, ◌-◌, ◌≡◌, ◌≤◌, List, [], ◌∷◌, Option, none, some, leb, if◌then◌else◌, length, min, arith,
}
use oqronkit.Window.{
  prune, push_times, inside, Tracks, prune-Tracks, push-Tracks, length-prune, live-prune,
  live-Tracks, empty-Tracks,
}

pub record ThrottleConfig : Type 0 where
  pub max : ℕ
  pub duration : ℕ

pub record ThrottleGate : Type 0 where
  pub config : ThrottleConfig
  pub timestamps : List ℕ

-- The constructor; `none` is either exception.
unfoldable pub throttle_gate : ThrottleConfig → Option ThrottleGate
throttle_gate config =
    if leb config.max 0
    then none
    else if leb config.duration 0
    then none
    else some (record { config = config; timestamps = [] })

unfoldable pub pruned : ℕ → ThrottleGate → ThrottleGate
pruned now g = record g { timestamps = prune g.config.duration now g.timestamps }

-- Subtraction stops at 0, as `Math.max(0, ...)` does.
unfoldable pub get_available : ℕ → ThrottleGate → ThrottleGate × ℕ
unfolding pruned
get_available now g = let g' = pruned now g in (g', g'.config.max - length g'.timestamps)

unfoldable pub record_dispatches : ℕ → ℕ → ThrottleGate → ThrottleGate
record_dispatches count now g = record g { timestamps = push_times count now g.timestamps }

-- One round of an engine: how much is available at `asked_at`, `offered` jobs are at hand, and what
-- was claimed is recorded at `recorded_at`.
pub record Round : Type 0 where
  pub asked_at : ℕ
  pub recorded_at : ℕ
  pub offered : ℕ

abbrev pub claimed : Round → ThrottleGate → ℕ
claimed r g = min r.offered (get_available r.asked_at g).1

-- The gate, and the log of the instants of all dispatches.
abbrev pub round : Round → ThrottleGate × List ℕ → ThrottleGate × List ℕ
round r (g, log) = (
  record_dispatches (claimed r g) r.recorded_at (get_available r.asked_at g).0,
  push_times (claimed r g) r.recorded_at log,
)

abbrev pub rounds : List Round → ThrottleGate × List ℕ → ThrottleGate × List ℕ
rounds [] s = s
rounds (r ∷ rs) s = rounds rs (round r s)

-- The clock does not run backwards.
abbrev pub InOrder : ℕ → List Round → Type 0
InOrder last [] = Unit {0}
InOrder last (r ∷ rs) =
    (last ≤ r.asked_at) × (r.asked_at ≤ r.recorded_at) × InOrder r.recorded_at rs

module _ (r : Round) (g : ThrottleGate) (log : List ℕ) where
  round-Tracks :
      (last : ℕ)
      → last ≤ r.asked_at
      → r.asked_at ≤ r.recorded_at
      → Tracks g.config.duration g.config.max last g.timestamps log
      → Tracks g.config.duration g.config.max r.recorded_at
          (round r (g, log)).0.timestamps
          (round r (g, log)).1
  unfolding get_available record_dispatches
  round-Tracks last h k v =
      let c = g.config in
      let kept = prune c.duration r.asked_at g.timestamps in
      let pruned_v = prune-Tracks c.duration c.max last r.asked_at g.timestamps log h v in
      push-Tracks c.duration c.max r.asked_at r.recorded_at (claimed r g) kept log k
        (omega (
          arith,
          length-prune c.duration r.asked_at g.timestamps,
          live-prune c.duration r.asked_at r.asked_at g.timestamps (omega arith),
          live-Tracks c.duration c.max last r.asked_at g.timestamps log h v,
        ))
        pruned_v

rounds_bounded :
    (rs : List Round) (g : ThrottleGate) (log : List ℕ) (last t : ℕ)
    → InOrder last rs
    → Tracks g.config.duration g.config.max last g.timestamps log
    → inside g.config.duration t (rounds rs (g, log)).1 ≤ g.config.max
unfolding get_available record_dispatches
rounds_bounded [] g log last t o v = v.bounded t
rounds_bounded (r ∷ rs) g log last t o v =
    let g' = (round r (g, log)).0 in
    let log' = (round r (g, log)).1 in
    let rest = rounds_bounded rs g' log' r.recorded_at t o.2 in
    rest (round-Tracks r g log last o.0 o.1 v)

-- An engine that asks a new gate, dispatches at most the number available and records it, over and
-- over in the order of the clock, never has more than `max` dispatches in any window of length
-- `duration`.
pub dispatches_bounded :
    (c : ThrottleConfig) (g : ThrottleGate) (rs : List Round) (t : ℕ)
    → throttle_gate c ≡ some g
    → InOrder 0 rs
    → inside c.duration t (rounds rs (g, [])).1 ≤ c.max
unfolding throttle_gate
dispatches_bounded c g rs t e o =
    let fresh : g ≡ record { config = c; timestamps = [] } = ground arith in
    rw fresh (rounds_bounded rs _ [] 0 t o (empty-Tracks c.duration c.max))
