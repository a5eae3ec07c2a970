-- ===== src/Circuit.antt =====
-- webhook/circuit-breaker.ts: the circuit of one endpoint, `MemoryCircuitBreaker` and
-- `SharedCircuitBreaker`. `now` is the clock's reading in the call.
pub mod States
pub mod Memory
pub mod Shared
pub mod Agree
use oqronkit.Prelude.{
  ℕ, suc, zero, ◌+◌, ◌≤◌, Bool, true, false, Option, none, some, Text, ltb, leb, if◌then◌else◌,
  or_else,
}

pub data CircuitState : Type 0 where
  closed open_ half_open : CircuitState

pub record CircuitBreakerConfig : Type 0 where
  pub failure_threshold : Option ℕ
  pub reset_timeout_ms : Option ℕ
  pub half_open_max_attempts : Option ℕ
  pub window_ms : Option ℕ

abbrev pub threshold : CircuitBreakerConfig → ℕ
threshold c = or_else c.failure_threshold 5

abbrev pub reset_ms : CircuitBreakerConfig → ℕ
reset_ms c = or_else c.reset_timeout_ms 30_000

abbrev pub half_open_max : CircuitBreakerConfig → ℕ
half_open_max c = or_else c.half_open_max_attempts 1

pub record CircuitEntry : Type 0 where
  pub state : CircuitState
  pub failures : ℕ
  pub last_failure_at : ℕ
  pub half_open_attempts : ℕ

abbrev pub new_entry : CircuitEntry
new_entry = record { state = closed; failures = 0; last_failure_at = 0; half_open_attempts = 0 }

-- The three methods' bodies on the entry that they read; both classes have them.
unfoldable pub succeed : CircuitEntry → CircuitEntry
succeed e = record e { failures = 0; half_open_attempts = 0; state = closed }

-- The entry with its failure counted, by the state that it had.
unfoldable pub trip : CircuitBreakerConfig → CircuitState → CircuitEntry → CircuitEntry
trip c half_open e = record e { state = open_; half_open_attempts = 0 }
trip c _ e = if leb (threshold c) e.failures then record e { state = open_ } else e

unfoldable pub fail : CircuitBreakerConfig → ℕ → CircuitEntry → CircuitEntry
unfolding trip
fail c now e = trip c e.state (record e { failures = e.failures + 1; last_failure_at = now })

-- `getState`: the entry after the call, whether it was written, and the answer.
unfoldable pub probe_at :
    CircuitBreakerConfig → ℕ → CircuitState → CircuitEntry → CircuitEntry × Bool × CircuitState
probe_at c now open_ e =
    if leb (e.last_failure_at + reset_ms c) now
    then (record e { state = half_open; half_open_attempts = 0 }, true, half_open)
    else (e, false, open_)
probe_at c now half_open e =
    if leb (half_open_max c) e.half_open_attempts
    then (record e { state = open_ }, true, open_)
    else (record e { half_open_attempts = e.half_open_attempts + 1 }, true, half_open)
probe_at c now closed e = (e, false, closed)

unfoldable pub probe : CircuitBreakerConfig → ℕ → CircuitEntry → CircuitEntry × Bool × CircuitState
unfolding probe_at
probe c now e = probe_at c now e.state e

abbrev pub is_open : CircuitState → Bool
is_open open_ = true
is_open _ = false
