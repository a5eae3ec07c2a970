-- ===== src/Circuit/Agree.antt =====
-- The two breakers answer alike.
use oqronkit.Prelude.{
  ℕ, ◌≡◌, refl, ap, ◌∙◌, false, Option, none, some, List, [], ◌∷◌, Text, or_else, arith,
  Option-cases, Bool-cases, inl, inr,
}
use oqronkit.JsMap
use oqronkit.JsMap.{JsMap, get-set, get-delete}
use oqronkit.Storage.{Storage}
use oqronkit.Circuit.{
  CircuitState, CircuitBreakerConfig, CircuitEntry, new_entry, succeed, fail, probe, probe_at,
}
use oqronkit.Circuit.Memory
use oqronkit.Circuit.Memory.{Circuits}
use oqronkit.Circuit.Shared

-- A call of `ICircuitBreaker`, on an endpoint.
pub data Call : Type 0 where
  record_success : Text → Call
  record_failure : ℕ → Text → Call
  get_state : ℕ → Text → Call
  reset : Text → Call

module _ (c : CircuitBreakerConfig) (S : Storage CircuitEntry) where
  open S use {State, get, save, get-save}

  abbrev pub memory_step : Call → Circuits → Circuits × Option CircuitState
  memory_step (record_success key) m = (Memory.record_success key m, none)
  memory_step (record_failure now key) m = (Memory.record_failure c now key m, none)
  memory_step (get_state now key) m = let (m', s) = Memory.get_state c now key m in (m', some s)
  memory_step (reset key) m = (Memory.reset key m, none)

  abbrev pub shared_step : Call → State → State × Option CircuitState
  shared_step (record_success key) s = (Shared.record_success S key s, none)
  shared_step (record_failure now key) s = (Shared.record_failure S c now key s, none)
  shared_step (get_state now key) s = let (s', a) = Shared.get_state S c now key s in (s', some a)
  shared_step (reset key) s = (Shared.reset S key s, none)

  abbrev pub memory_answers : List Call → Circuits → List (Option CircuitState)
  memory_answers [] m = []
  memory_answers (call ∷ calls) m = let (m', a) = memory_step call m in a ∷ memory_answers calls m'

  abbrev pub shared_answers : List Call → State → List (Option CircuitState)
  shared_answers [] s = []
  shared_answers (call ∷ calls) s = let (s', a) = shared_step call s in a ∷ shared_answers calls s'

  -- Both read the same entry for every endpoint.
  abbrev Agree : Circuits → State → Type 0
  Agree m s = (key : Text) → or_else (JsMap.get key m) new_entry ≡ or_else (get key s) new_entry

  get_entry_lem :
      (key : Text) (m : Circuits)
      → ((Memory.get_entry key m).1 ≡ or_else (JsMap.get key m) new_entry)
        × ((j : Text)
            → or_else (JsMap.get j (Memory.get_entry key m).0) new_entry
              ≡ or_else (JsMap.get j m) new_entry)
  unfolding Memory.get_entry
  get_entry_lem key m = elim (Option-cases (JsMap.get key m)) [
    | inl e ↦
        (ground arith, λ j. ground (arith, get-set j key new_entry m, ap (λ k. JsMap.get k m)))
    | inr (x, e) ↦ (ground arith, λ j. ground arith)
  ]

  -- What `getState` does not write it leaves alone.
  probe-unwritten : (now : ℕ) (e : CircuitEntry) → (probe c now e).1 ≡ false → (probe c now e).0 ≡ e
  unfolding probe probe_at
  probe-unwritten now e h = ground arith

  -- Writing the same entry on both sides.
  write_both :
      (key : Text) (e e' : CircuitEntry) (m m' : Circuits) (s : State)
      → e ≡ e'
      → ((j : Text) → or_else (JsMap.get j m') new_entry ≡ or_else (JsMap.get j m) new_entry)
      → Agree m s
      → Agree (JsMap.set key e m') (save key e' s)
  write_both key e e' m m' s same kept agree j =
      ground (arith, get-set j key e m', get-save j key e' s, kept j, agree j)

  step-Agree :
      (call : Call) (m : Circuits) (s : State)
      → Agree m s
      → ((memory_step call m).1 ≡ (shared_step call s).1)
        × Agree (memory_step call m).0 (shared_step call s).0
  unfolding Memory.record_success Memory.record_failure Memory.get_state Memory.reset
      Shared.record_success Shared.record_failure Shared.get_state Shared.reset
  step-Agree (record_success key) m s agree =
      let (own, kept) = get_entry_lem key m in
      (refl, write_both key _ _ m _ s (ap succeed (own ∙ agree key)) kept agree)
  step-Agree (record_failure now key) m s agree =
      let (own, kept) = get_entry_lem key m in
      (refl, write_both key _ _ m _ s (ap (fail c now) (own ∙ agree key)) kept agree)
  step-Agree (get_state now key) m s agree =
      let (own, kept) = get_entry_lem key m in
      let same = own ∙ agree key in
      (
        ap (λ e. some (probe c now e).2) same,
        elim (Bool-cases (probe c now (or_else (get key s) new_entry)).1) [
          | inl written ↦
              rw written (write_both key _ _ m _ s (ap (λ e. (probe c now e).0) same) kept agree)
          | inr left ↦ rw left λ j. ground (
            arith,
            get-set j key (probe c now (Memory.get_entry key m).1).0 (Memory.get_entry key m).0,
            probe-unwritten now (or_else (get key s) new_entry) left,
            ap (λ e. (probe c now e).0) same,
            kept j,
            agree j,
            agree key,
            ap (λ k. or_else (get k s) new_entry),
          )
        ],
      )
  step-Agree (reset key) m s agree =
      (refl, λ j. ground (arith, get-delete j key m, S.get-delete j key s, agree j))

  answers-Agree :
      (calls : List Call) (m : Circuits) (s : State)
      → Agree m s
      → memory_answers calls m ≡ shared_answers calls s
  answers-Agree [] m s agree = refl
  answers-Agree (call ∷ calls) m s agree =
      let (now, later) = step-Agree call m s agree in
      let rest = answers-Agree calls (memory_step call m).0 (shared_step call s).0 later in
      ground (arith, now, rest)

  -- The in-memory and the shared circuit breaker, the latter without a lock on any empty storage
  -- that meets the storage laws, give the same answers to any sequence of calls on any endpoints.
  pub answers_agree :
      (calls : List Call) (s : State)
      → ((key : Text) → get key s ≡ none)
      → memory_answers calls [] ≡ shared_answers calls s
  unfolding JsMap.get
  answers_agree calls s empty = answers-Agree calls [] s (λ key. ground (arith, empty key))
