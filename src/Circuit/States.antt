-- ===== src/Circuit/States.antt =====
-- The state machine of one circuit.
use oqronkit.Prelude.{
  ℕ, suc, zero, ◌+◌, ◌-◌, ◌≡◌, ◌≤◌, ◌<◌, refl, Bool, true, false, List, [], ◌∷◌, ◌++◌, ltb, arith,
  ap, ◌∙◌, length, replicate,
}
use oqronkit.Circuit.{
  CircuitState, closed, open_, half_open, CircuitBreakerConfig, threshold, reset_ms, half_open_max,
  CircuitEntry, succeed, fail, trip, probe, probe_at,
}

-- The circuit is closed exactly while the failures are below the threshold.
abbrev pub Counted : CircuitBreakerConfig → CircuitState → ℕ → Type 0
Counted c closed failures = failures < threshold c
Counted c open_ failures = threshold c ≤ failures
Counted c half_open failures = threshold c ≤ failures

abbrev pub IsValid : CircuitBreakerConfig → CircuitEntry → Type 0
IsValid c e = Counted c e.state e.failures

pub data Call : Type 0 where
  succeeds : Call
  fails : ℕ → Call
  probes : ℕ → Call

abbrev pub step : CircuitBreakerConfig → Call → CircuitEntry → CircuitEntry
step c succeeds e = succeed e
step c (fails now) e = fail c now e
step c (probes now) e = (probe c now e).0

trip-Counted :
    (c : CircuitBreakerConfig) (s : CircuitState) (e : CircuitEntry)
    → e.state ≡ s
    → Counted c s (e.failures - 1)
    → 0 < e.failures
    → IsValid c (trip c s e)
unfolding trip
trip-Counted c closed e h v pos = ground arith
trip-Counted c half_open e h v pos = ground arith
trip-Counted c open_ e h v pos = ground arith

probe_at-IsValid :
    (c : CircuitBreakerConfig) (now : ℕ) (s : CircuitState) (e : CircuitEntry)
    → e.state ≡ s
    → Counted c s e.failures
    → IsValid c (probe_at c now s e).0
unfolding probe_at
probe_at-IsValid c now closed e h v = ground arith
probe_at-IsValid c now half_open e h v = ground arith
probe_at-IsValid c now open_ e h v = ground arith

-- With a positive threshold, success, failure and probe each keep the invariant that the circuit is
-- closed while its failures are below the threshold, and open or half open from there on.
pub circuit_step-IsValid :
    (c : CircuitBreakerConfig) (call : Call) (e : CircuitEntry)
    → 0 < threshold c
    → IsValid c e
    → IsValid c (step c call e)
unfolding succeed fail probe
circuit_step-IsValid c succeeds e pos v = pos
circuit_step-IsValid c (fails now) e pos v =
    trip-Counted c e.state _ refl (ground arith) (omega arith)
circuit_step-IsValid c (probes now) e pos v = probe_at-IsValid c now e.state e refl v

abbrev pub steps : CircuitBreakerConfig → List Call → CircuitEntry → CircuitEntry
steps c [] e = e
steps c (call ∷ calls) e = steps c calls (step c call e)

-- Failures with no success between them.
abbrev pub fail_all : CircuitBreakerConfig → List ℕ → CircuitEntry → CircuitEntry
fail_all c [] e = e
fail_all c (now ∷ times) e = fail_all c times (fail c now e)

abbrev pub is_closed : CircuitState → Bool
is_closed closed = true
is_closed _ = false

fail-failures :
    (c : CircuitBreakerConfig) (now : ℕ) (e : CircuitEntry)
    → (fail c now e).failures ≡ e.failures + 1
unfolding fail trip
fail-failures c now e = ground arith

fail_all-failures :
    (c : CircuitBreakerConfig) (times : List ℕ) (e : CircuitEntry)
    → (fail_all c times e).failures ≡ e.failures + length times
fail_all-failures c [] e = omega arith
fail_all-failures c (now ∷ times) e =
    omega (arith, fail_all-failures c times (fail c now e), fail-failures c now e)

fail_all-IsValid :
    (c : CircuitBreakerConfig) (times : List ℕ) (e : CircuitEntry)
    → 0 < threshold c
    → IsValid c e
    → IsValid c (fail_all c times e)
fail_all-IsValid c [] e pos v = v
fail_all-IsValid c (now ∷ times) e pos v =
    fail_all-IsValid c times (fail c now e) pos (circuit_step-IsValid c (fails now) e pos v)

closed_of_Counted :
    (c : CircuitBreakerConfig) (s : CircuitState) (n : ℕ)
    → Counted c s n
    → is_closed s ≡ ltb n (threshold c)
closed_of_Counted c closed n v = ground arith
closed_of_Counted c open_ n v = ground arith
closed_of_Counted c half_open n v = ground arith

-- With a positive threshold, after a success and then any number of failures without a success, the
-- circuit is closed exactly if the failures are fewer than the threshold.
pub closed_iff_below :
    (c : CircuitBreakerConfig) (times : List ℕ) (e : CircuitEntry)
    → 0 < threshold c
    → is_closed (fail_all c times (succeed e)).state ≡ ltb (length times) (threshold c)
unfolding succeed
closed_iff_below c times e pos =
    closed_of_Counted c _ _ (fail_all-IsValid c times (succeed e) pos pos)
    ∙ ap (λ n. ltb n (threshold c)) (fail_all-failures c times (succeed e) ∙ omega arith)

pub open_blocks :
    (c : CircuitBreakerConfig) (now : ℕ) (e : CircuitEntry)
    → e.state ≡ open_
    → now < e.last_failure_at + reset_ms c
    → probe c now e ≡ (e, false, open_)
unfolding probe probe_at
open_blocks c now e h early = ground arith

-- `getState`, some times at one instant, and the answers.
abbrev pub probes_at :
    CircuitBreakerConfig → ℕ → ℕ → CircuitEntry → CircuitEntry × List CircuitState
probes_at c now zero e = (e, [])
probes_at c now (suc n) e =
    let (e', _, answer) = probe c now e in
    let (end, answers) = probes_at c now n e' in (end, answer ∷ answers)

half_open_run :
    (c : CircuitBreakerConfig) (now k a failures last : ℕ)
    → a + k ≡ half_open_max c
    → probes_at c now (suc k) (record {
      state = half_open;
      failures = failures;
      last_failure_at = last;
      half_open_attempts = a;
    })
      ≡ (
        record {
          state = open_;
          failures = failures;
          last_failure_at = last;
          half_open_attempts = half_open_max c;
        },
        replicate k half_open ++ open_ ∷ [],
      )
unfolding probe probe_at
half_open_run c now zero a failures last h = ground arith
half_open_run c now (suc k) a failures last h =
    ground (arith, half_open_run c now k (a + 1) failures last (omega arith))

probes_at-suc :
    (c : CircuitBreakerConfig) (now n : ℕ) (e e' end : CircuitEntry) (w : Bool) (a : CircuitState)
    (rest : List CircuitState)
    → probe c now e ≡ (e', w, a)
    → probes_at c now n e' ≡ (end, rest)
    → probes_at c now (suc n) e ≡ (end, a ∷ rest)
probes_at-suc c now n e e' end w a rest h k = rw (h, k)

-- Once the reset timeout of an open circuit has passed, `getState` answers HALF_OPEN once and then
-- `halfOpenMaxAttempts` times more, then OPEN, and HALF_OPEN again at the very next call, all at
-- one instant.
pub probe_cycle :
    (c : CircuitBreakerConfig) (now : ℕ) (e : CircuitEntry)
    → e.state ≡ open_
    → e.last_failure_at + reset_ms c ≤ now
    → let (end, answers) = probes_at c now (suc (suc (half_open_max c))) e in
      (answers ≡ half_open ∷ replicate (half_open_max c) half_open ++ open_ ∷ [])
      × (end.state ≡ open_)
      × ((probe c now end).2 ≡ half_open)
unfolding probe probe_at
probe_cycle c now e h due =
    let first : probe c now e
        ≡ (record e { state = half_open; half_open_attempts = 0 }, true, half_open) =
      ground arith in
    let run = half_open_run c now (half_open_max c) 0 e.failures e.last_failure_at (omega arith) in
    let whole = probes_at-suc c now (suc (half_open_max c)) e _ _ _ _ _ first run in
    (
      ap (λ p. p.1) whole,
      ap (λ p. p.0.state) whole,
      ap (λ p. (probe c now p.0).2) whole ∙ ground arith,
    )
