-- ===== src/Backoff.antt =====
-- engine/utils/backoffs.ts. A delay is a whole number of milliseconds; 0 stands for every number that is
-- not positive and finite. The random factor `0.8 + Math.random() * 0.4` is the fraction of two
-- numbers. A number above the largest double is not finite, as `Infinity`; the rounding of doubles is left
-- out.
pub mod Bounds
use oqronkit.Prelude.{
  ℕ, zero, suc, ◌+◌, ◌-◌, ◌*◌, ◌/◌, ◌^◌, max, Option, none, some, Bool, true, false, ltb, leb, ◌&&◌,
  if◌then◌else◌,
}

pub data BackoffType : Type 0 where
  fixed exponential custom : BackoffType

pub record BackoffOptions : Type 0 where
  pub kind : BackoffType
  pub delay : ℕ
  pub backoff_fn : Option (ℕ → ℕ → ℕ)

pub record Jitter : Type 0 where
  pub num : ℕ
  pub den : ℕ

-- `Math.round` of a fraction.
abbrev pub round : ℕ → ℕ → ℕ
round a b = (2 * a + b) / (2 * b)

-- `Number.MAX_VALUE`.
unfoldable pub max_number : ℕ
max_number = (2 ^ 53 - 1) * 2 ^ 971

abbrev pub is_finite : ℕ → Bool
is_finite n = leb n max_number

unfoldable pub exponential_delay : Jitter → ℕ → ℕ → ℕ
exponential_delay j delay attempts = round (2 ^ (attempts - 1) * delay * j.num) j.den

-- `normalizeBackoff` of a number.
abbrev pub fixed_backoff : ℕ → BackoffOptions
fixed_backoff delay = record { kind = fixed; delay = delay; backoff_fn = none }

-- The delay of the strategy; `none` where it throws, or where the power or its product is `Infinity`,
-- which is thrown at next.
abbrev pub strategy_delay : Jitter → ℕ → Option (ℕ → ℕ → ℕ) → ℕ → BackoffType → Option ℕ
strategy_delay j delay f attempts fixed = some delay
strategy_delay j delay f attempts exponential =
    if is_finite (2 ^ (attempts - 1) * delay)
    then some (exponential_delay j delay attempts)
    else none
strategy_delay j delay none attempts custom = none
strategy_delay j delay (some f) attempts custom = some (f attempts delay)

-- `maxDelay` where it is given must be positive.
abbrev pub bad_max : Option ℕ → Bool
bad_max none = false
bad_max (some m) = if ltb 0 m then false else true

-- The cap at the end, on a delay that is checked to be positive and finite.
abbrev pub cap_delay : Option ℕ → ℕ → Option ℕ
cap_delay max_delay zero = none
cap_delay none (suc d) = if is_finite (suc d) then some (suc d) else none
cap_delay (some m) (suc d) =
    if is_finite (suc d) then (if ltb m (suc d) then some m else some (suc d)) else none

-- `none` where it throws.
unfoldable pub calculate_backoff : Jitter → Option BackoffOptions → ℕ → Option ℕ → Option ℕ
calculate_backoff j none attempts max_delay = some 0
calculate_backoff j (some b) attempts max_delay =
    if ltb 0 b.delay
    then if bad_max max_delay
      then none
      else elim (strategy_delay j b.delay b.backoff_fn (max 1 attempts) b.kind) [
        | none ↦ none
        | some d ↦ cap_delay max_delay d
      ]
    else none
