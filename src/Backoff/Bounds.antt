-- ===== src/Backoff/Bounds.antt =====
-- Between which bounds a delay lies.
use oqronkit.Prelude.{
  ℕ, zero, suc, ◌+◌, ◌-◌, ◌*◌, ◌^◌, ◌≡◌, ◌≢◌, ◌≤◌, ◌<◌, max, Option, none, some, ltb, arith, refl,
  lt→ltb, Bool-cases, inl, inr, ltb→le, leb, leb→lt, le→leb, ◌⊎◌,
}
use native.Mathlib.Nat.{
  mul-le-mul_left, mul-le-mul_right, one-le-mul, lt_of_mul-lt-mul_right, le_of_mul-le-mul_right,
}
use oqronkit.Backoff.{
  BackoffType, BackoffOptions, Jitter, fixed, exponential, custom, exponential_delay,
  strategy_delay, cap_delay, calculate_backoff, round, max_number,
}

-- The factor is at least 0.8 and below 1.2.
pub record InRange (j : Jitter) : Type 0 where
  pub low : 8 * j.den ≤ 10 * j.num
  pub high : 10 * j.num < 12 * j.den

pow_pos : (n : ℕ) → 0 < 2 ^ n
pow_pos zero = omega arith
pow_pos (suc n) = grind (arith, pow_pos n)

-- The rounded fraction, from both sides.
round_bounds :
    (a b : ℕ) → 0 < b → (2 * a < round a b * (2 * b) + b) × (round a b * (2 * b) ≤ 2 * a + b)
round_bounds a b pos = grind arith

-- The delay before it is rounded is within 0.8 and 1.2 of `x`.
scaled_bounds :
    (x e num den : ℕ)
    → 0 < den
    → 8 * den ≤ 10 * num
    → 10 * num < 12 * den
    → 2 * (x * num) < e * (2 * den) + den
    → e * (2 * den) ≤ 2 * (x * num) + den
    → (8 * x < 10 * e + 5) × (10 * e ≤ 12 * x + 5)
scaled_bounds x e num den pos low high over under =
    let least : x * (8 * den) ≤ x * (10 * num) = mul-le-mul_left x low in
    let most : x * (10 * num) ≤ x * (12 * den) = mul-le-mul_left x (omega arith) in
    let below : (8 * x) * den < (10 * e + 5) * den = grind arith in
    let above : (10 * e) * den ≤ (12 * x + 5) * den = grind arith in
    (lt_of_mul-lt-mul_right den below, le_of_mul-le-mul_right above pos)

exponential_delay-bounds :
    (j : Jitter) (delay attempts : ℕ)
    → InRange j
    → (8 * (2 ^ (attempts - 1) * delay) < 10 * exponential_delay j delay attempts + 5)
      × (10 * exponential_delay j delay attempts ≤ 12 * (2 ^ (attempts - 1) * delay) + 5)
unfolding exponential_delay
exponential_delay-bounds j delay attempts range =
    let x : ℕ = 2 ^ (attempts - 1) * delay in
    let pos : 0 < j.den = omega (arith, range.high) in
    let (over, under) = round_bounds (x * j.num) j.den pos in
    scaled_bounds x (round (x * j.num) j.den) j.num j.den pos range.low range.high over under

exponential_delay-pos :
    (j : Jitter) (delay attempts : ℕ)
    → InRange j
    → 0 < delay
    → 0 < exponential_delay j delay attempts
exponential_delay-pos j delay attempts range pos =
    let some_power : 0 < 2 ^ (attempts - 1) * delay = one-le-mul (pow_pos (attempts - 1)) pos in
    omega (arith, exponential_delay-bounds j delay attempts range)

-- The delay before the cap: it is there, or a number on the way to it is above the largest double.
strategy_delay-pos :
    (j : Jitter) (delay attempts : ℕ) (f : Option (ℕ → ℕ → ℕ)) (kind : BackoffType)
    → InRange j
    → 0 < delay
    → kind ≢ custom
    → ((d : ℕ) × (strategy_delay j delay f attempts kind ≡ some d)
        × (0 < d)
        × (10 * d ≤ 12 * (2 ^ (attempts - 1) * delay) + 5))
      ⊎ ((strategy_delay j delay f attempts kind ≡ none)
          × (max_number < 2 ^ (attempts - 1) * delay))
strategy_delay-pos j delay attempts f fixed range pos built_in =
    let power = pow_pos (attempts - 1) in
    let most : 1 * delay ≤ 2 ^ (attempts - 1) * delay = mul-le-mul_right delay power in
    inl (delay, refl, pos, omega arith)
strategy_delay-pos j delay attempts f exponential range pos built_in =
    elim (Bool-cases (leb (2 ^ (attempts - 1) * delay) max_number)) [
      | inl small ↦ inl (
        exponential_delay j delay attempts,
        rw small refl,
        exponential_delay-pos j delay attempts range pos,
        (exponential_delay-bounds j delay attempts range).1,
      )
      | inr large ↦ inr (rw large refl, leb→lt (2 ^ (attempts - 1) * delay) max_number large)
    ]
strategy_delay-pos j delay attempts f custom range pos built_in = absurd (built_in refl)

cap_delay-bounds :
    (m d : ℕ)
    → 0 < m
    → 0 < d
    → ((r : ℕ) × (cap_delay (some m) d ≡ some r) × (0 < r) × (r ≤ m))
      ⊎ ((cap_delay (some m) d ≡ none) × (max_number < d))
cap_delay-bounds m zero pos pos' = elim pos' [ ]
cap_delay-bounds m (suc d) pos pos' = elim (Bool-cases (leb (suc d) max_number)) [
  | inr large ↦ inr (rw large refl, leb→lt (suc d) max_number large)
  | inl small ↦ elim (Bool-cases (ltb m (suc d))) [
    | inl over ↦ inl (m, rw (small, over) refl, pos, omega arith)
    | inr under ↦ inl (suc d, rw (small, under) refl, pos', ltb→le m (suc d) under)
  ]
]

-- A built-in strategy with a positive base delay, a positive maximum and a random factor between
-- 0.8 and 1.2, on any attempt: `calculateBackoff` returns a positive delay that is at most the
-- maximum, or it throws and six fifths of the base delay times 2 to the attempts before, up to the
-- rounding of half a millisecond, are above the largest double.
pub calculate_backoff-capped :
    (j : Jitter) (b : BackoffOptions) (attempts m : ℕ)
    → InRange j
    → 0 < b.delay
    → b.kind ≢ custom
    → 0 < m
    → ((d : ℕ) × (calculate_backoff j (some b) attempts (some m) ≡ some d) × (0 < d) × (d ≤ m))
      ⊎ ((calculate_backoff j (some b) attempts (some m) ≡ none)
          × (10 * max_number < 12 * (2 ^ (max 1 attempts - 1) * b.delay) + 5))
unfolding calculate_backoff
calculate_backoff-capped j b attempts m range pos built_in pos' =
    elim (strategy_delay-pos j b.delay (max 1 attempts) b.backoff_fn b.kind range pos built_in) [
      | inr (e, large) ↦ inr (rw (lt→ltb 0 b.delay pos, lt→ltb 0 m pos', e) refl, omega arith)
      | inl (d, e, above, below) ↦ elim (cap_delay-bounds m d pos' above) [
        | inl (r, e', low, high) ↦
            inl (r, rw (lt→ltb 0 b.delay pos, lt→ltb 0 m pos', e) e', low, high)
        | inr (e', large) ↦ inr (rw (lt→ltb 0 b.delay pos, lt→ltb 0 m pos', e) e', omega arith)
      ]
    ]

cap_delay-none : (d : ℕ) → 0 < d → d ≤ max_number → cap_delay none d ≡ some d
cap_delay-none zero pos le = elim pos [ ]
cap_delay-none (suc d) pos le = rw (le→leb (suc d) max_number le) refl

max_number-large : 2 ^ 53 ≤ max_number
unfolding max_number
max_number-large = omega arith

-- Without a maximum, with a positive base delay, from the first attempt on and with a random factor
-- between 0.8 and 1.2, as long as the base delay times 2 to the attempts before is at most 2 to the
-- 52: the exponential delay is within a fifth of that product, up to the rounding of half a
-- millisecond.
pub exponential_backoff_lem :
    (j : Jitter) (delay attempts : ℕ) (f : Option (ℕ → ℕ → ℕ))
    → InRange j
    → 0 < delay
    → 0 < attempts
    → 2 ^ (attempts - 1) * delay ≤ 2 ^ 52
    → (d : ℕ) × (calculate_backoff j
          (some (record { kind = exponential; delay = delay; backoff_fn = f }))
          attempts
          none
        ≡ some d)
      × (8 * (2 ^ (attempts - 1) * delay) < 10 * d + 5)
      × (10 * d ≤ 12 * (2 ^ (attempts - 1) * delay) + 5)
unfolding calculate_backoff
exponential_backoff_lem j delay attempts f range pos pos' small =
    let x : ℕ = 2 ^ (attempts - 1) * delay in
    let (low, high) = exponential_delay-bounds j delay attempts range in
    let same : max 1 attempts ≡ attempts = omega arith in
    let above = exponential_delay-pos j delay attempts range pos in
    let product = le→leb x max_number (omega (arith, small, max_number-large)) in
    let large : exponential_delay j delay attempts ≤ max_number =
      omega (arith, small, high, max_number-large) in
    let kept = cap_delay-none (exponential_delay j delay attempts) above large in
    (exponential_delay j delay attempts, rw (lt→ltb 0 delay pos, same, product) kept, low, high)
