-- ===== src/Circuit/Memory.antt =====
-- webhook/circuit-breaker.ts, `MemoryCircuitBreaker`. `getEntry` stores the entry that it makes.
use oqronkit.Prelude.{ℕ, none, some, Text}
use oqronkit.JsMap
use oqronkit.JsMap.{JsMap}
use oqronkit.Circuit.{
  CircuitState, CircuitBreakerConfig, CircuitEntry, new_entry, succeed, fail, probe,
}

abbrev pub Circuits : Type 0
Circuits = JsMap CircuitEntry

unfoldable pub get_entry : Text → Circuits → Circuits × CircuitEntry
get_entry key m = elim (JsMap.get key m) [
  | none ↦ (JsMap.set key new_entry m, new_entry)
  | some e ↦ (m, e)
]

unfoldable pub record_success : Text → Circuits → Circuits
record_success key m = let (m', e) = get_entry key m in JsMap.set key (succeed e) m'

unfoldable pub record_failure : CircuitBreakerConfig → ℕ → Text → Circuits → Circuits
record_failure c now key m = let (m', e) = get_entry key m in JsMap.set key (fail c now e) m'

-- The entry is written in place.
unfoldable pub get_state : CircuitBreakerConfig → ℕ → Text → Circuits → Circuits × CircuitState
get_state c now key m =
    let (m', e) = get_entry key m in
    let (e', _, state) = probe c now e in (JsMap.set key e' m', state)

unfoldable pub reset : Text → Circuits → Circuits
reset key m = JsMap.delete key m
