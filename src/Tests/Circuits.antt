-- ===== src/Tests/Circuits.antt =====
-- webhook/circuit-breaker.ts at small inputs.
use oqronkit.Prelude.{
  ℕ, ◌≡◌, refl, none, some, List, [], ◌∷◌, ◌++◌, Text, text, text_discrete, arith, ℕ_discrete,
  replicate,
}
use oqronkit.JsMap
use oqronkit.Storage.{memory_store}
use oqronkit.Circuit.{
  CircuitBreakerConfig, CircuitEntry, new_entry, open_, half_open, succeed, fail, trip, probe,
  probe_at,
}
use oqronkit.Circuit.States.{fail_all, probes_at, probe_cycle}
use oqronkit.Circuit.Memory.{get_entry, record_failure, get_state}
use oqronkit.Circuit.Agree.{Call, memory_answers, shared_answers, answers_agree}
use oqronkit.Circuit.Agree

program : Unit {0}
unfolding text_discrete ℕ_discrete JsMap.get JsMap.set get_entry record_failure get_state succeed
    fail trip probe probe_at
program = tt

abbrev config : CircuitBreakerConfig
config = record {
  failure_threshold = some 2;
  reset_timeout_ms = some 100;
  half_open_max_attempts = none;
  window_ms = none;
}

abbrev tripped : CircuitEntry
tripped = record { state = open_; failures = 2; last_failure_at = 20; half_open_attempts = 0 }

abbrev times : List ℕ
times = 10 ∷ 20 ∷ []

trips : fail_all config times new_entry ≡ tripped
unfolding program
trips = refl

two_probes : (probes_at config 120 4 tripped).1 ≡ half_open ∷ half_open ∷ open_ ∷ half_open ∷ []
unfolding program
two_probes = refl

probe_cycle_example :
    ((probes_at config 120 3 tripped).1 ≡ half_open ∷ replicate 1 half_open ++ open_ ∷ [])
    × ((probes_at config 120 3 tripped).0.state ≡ open_)
    × ((probe config 120 (probes_at config 120 3 tripped).0).2 ≡ half_open)
probe_cycle_example = probe_cycle config 120 tripped refl (omega arith)

abbrev key : Text
key = text "k"

abbrev calls : List Call
calls =
    Agree.record_failure 10 key
    ∷ Agree.record_failure 20 key
    ∷ Agree.get_state 30 key
    ∷ Agree.get_state 120 key
    ∷ []

answers :
    memory_answers config (memory_store CircuitEntry) calls []
    ≡ none ∷ none ∷ some open_ ∷ some half_open ∷ []
unfolding program
answers = refl

answers_agree_example :
    memory_answers config (memory_store CircuitEntry) calls []
    ≡ shared_answers config (memory_store CircuitEntry) calls []
unfolding program
answers_agree_example = answers_agree config (memory_store CircuitEntry) calls [] (λ k. refl)
