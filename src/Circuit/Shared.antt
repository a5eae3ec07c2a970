-- ===== src/Circuit/Shared.antt =====
-- webhook/circuit-breaker.ts, `SharedCircuitBreaker` with no lock adapter, over any storage.
use oqronkit.Prelude.{ℕ, Text, or_else, if◌then◌else◌}
use oqronkit.Storage.{Storage}
use oqronkit.Circuit.{
  CircuitState, CircuitBreakerConfig, CircuitEntry, new_entry, succeed, fail, probe,
}

module _ (S : Storage CircuitEntry) where
  open S use {State, get, save, delete}

  abbrev pub get_entry : Text → State → CircuitEntry
  get_entry key s = or_else (get key s) new_entry

  unfoldable pub record_success : Text → State → State
  record_success key s = save key (succeed (get_entry key s)) s

  unfoldable pub record_failure : CircuitBreakerConfig → ℕ → Text → State → State
  record_failure c now key s = save key (fail c now (get_entry key s)) s

  unfoldable pub get_state : CircuitBreakerConfig → ℕ → Text → State → State × CircuitState
  get_state c now key s =
      let (e', written, state) = probe c now (get_entry key s) in
      (if written then save key e' s else s, state)

  unfoldable pub reset : Text → State → State
  reset key s = delete key s
