-- ===== src/RateLimit/Bucket.antt =====
-- ratelimit/algorithms/token-bucket.ts, `TokenBucketAlgorithm`. The clock is taken never to be
-- behind the stored `lastRefillAt`, where subtraction on natural numbers is that of the source.
use oqronkit.Prelude.{
  ℕ, ◌+◌, ◌-◌, ◌*◌, ◌/◌, ◌≡◌, ◌≤◌, ◌<◌, refl, ite, true, false, Option, none, some, List, [], ◌∷◌,
  Text, text_discrete, ltb, if◌then◌else◌, arith, Bool-cases, inl, inr, if_neg, ltb→le, min,
}
use native.Mathlib.Nat.{div-mul-le_self, le-div_iff_mul-le}
use oqronkit.Storage.{Storage}
use oqronkit.RateLimit.{AlgorithmResult, Usage}

pub record BucketState : Type 0 where
  pub tokens : ℕ
  pub last_refill_at : ℕ
  -- read by the storage's pruning only
  pub created_at : ℕ

-- The constructor's arguments.
pub record Refill : Type 0 where
  pub rate : ℕ
  pub interval : ℕ

-- `Math.ceil(a / b)`
abbrev pub ceil_div : ℕ → ℕ → ℕ
ceil_div a b = (a + b - 1) / b

-- `if (!bucket) bucket = { tokens: max, lastRefillAt: now }`
abbrev pub or_full : ℕ → ℕ → Option BucketState → BucketState
or_full max now none = record { tokens = max; last_refill_at = now; created_at = 0 }
or_full max now (some bucket) = bucket

unfoldable pub refilled : Refill → ℕ → ℕ → BucketState → BucketState
refilled f max now bucket =
    let intervals = (now - bucket.last_refill_at) / f.interval in
    let refill_count = intervals * f.rate in
    record bucket {
      tokens = min max (bucket.tokens + refill_count);
      last_refill_at =
          if ltb 0 refill_count
          then bucket.last_refill_at + intervals * f.interval
          else bucket.last_refill_at;
    }

module _ (S : Storage BucketState) (f : Refill) where
  open S use {State, get, save}

  unfoldable pub consume : Text → ℕ → ℕ → ℕ → State → State × AlgorithmResult
  consume key max cost now s =
      let bucket = refilled f max now (or_full max now (get key s)) in
      let left = bucket.tokens - cost in
      let reset_ms = ceil_div (max - left) f.rate * f.interval in
      if ltb bucket.tokens cost
      then (
        s,
        record {
          allowed = false;
          current = max - bucket.tokens;
          reset_ms = ceil_div (cost - bucket.tokens) f.rate * f.interval;
        },
      )
      else (
        save key (record bucket { tokens = left; created_at = now + reset_ms }) s,
        record { allowed = true; current = max - left; reset_ms = reset_ms },
      )

  unfoldable pub peek : Text → ℕ → ℕ → State → Usage
  peek key max now s = elim (get key s) [
    | none ↦ record { current = 0; reset_ms = 0 }
    | some bucket ↦
        let tokens =
          min max (bucket.tokens + (now - bucket.last_refill_at) / f.interval * f.rate) in
        record {
          current = max - tokens;
          reset_ms =
              if ltb 0 (max - tokens) then ceil_div (max - tokens) f.rate * f.interval else 0;
        }
  ]

  pub record Request : Type 0 where
    pub key : Text
    pub cost : ℕ
    pub at : ℕ

module _ (S : Storage BucketState) (f : Refill) (max : ℕ) (key : Text) where
  open S use {State, get, get-save}

  abbrev Req : Type 0
  Req = Request S f

  -- One request, and the total that the key was allowed.
  abbrev pub serve : Req → State × ℕ → State × ℕ
  serve r (s, total) =
      let (s', result) = consume S f r.key max r.cost r.at s in
      (s', if result.allowed then ite (text_discrete r.key key) (r.cost + total) total else total)

  abbrev pub serve_all : List Req → State × ℕ → State × ℕ
  serve_all [] st = st
  serve_all (r ∷ rs) st = serve_all rs (serve r st)

  -- The clock does not run backwards, and ends by `end`.
  abbrev pub InOrder : ℕ → ℕ → List Req → Type 0
  InOrder last end [] = last ≤ end
  InOrder last end (r ∷ rs) = (last ≤ r.at) × InOrder r.at end rs

  -- With `refills` intervals credited since `start`, the tokens handed out and those at hand stay
  -- within the capacity and the refills.
  abbrev Within : ℕ → ℕ → Option BucketState → ℕ → Type 0
  Within start last none total = total ≡ 0
  Within start last (some b) total =
      (refills : ℕ) × (b.last_refill_at ≤ last)
      × (start + refills * f.interval ≤ b.last_refill_at)
      × (b.tokens ≤ max)
      × (total + b.tokens ≤ max + refills * f.rate)

  later-Within :
      (start last now : ℕ) (o : Option BucketState) (total : ℕ)
      → last ≤ now
      → Within start last o total
      → Within start now o total
  later-Within start last now none total h v = v
  later-Within start last now (some b) total h v = (v.0, omega arith, v.2, v.3, v.4)

  refilled-Within :
      (start now : ℕ) (b : BucketState) (total : ℕ)
      → Within start now (some b) total
      → Within start now (some (refilled f max now b)) total
  unfolding refilled
  refilled-Within start now b total v =
      let q = (now - b.last_refill_at) / f.interval in
      let elapsed : q * f.interval ≤ now - b.last_refill_at =
        div-mul-le_self (now - b.last_refill_at) f.interval in
      elim (Bool-cases (ltb 0 (q * f.rate))) [
        | inl some_refill ↦
            rw some_refill
              (v.0 + q, omega (arith, v.1), omega (arith, v.2), omega arith, omega (arith, v.4))
        | inr no_refill ↦
            let none_added : q * f.rate ≡ 0 = omega (arith, ltb→le _ _ no_refill) in
            rw no_refill (v.0, v.1, v.2, omega arith, omega (arith, none_added, v.4))
      ]

  -- A bucket that is not there yet is full.
  or_full-Within :
      (start now : ℕ) (o : Option BucketState) (total : ℕ)
      → start ≤ now
      → Within start now o total
      → Within start now (some (or_full max now o)) total
  or_full-Within start now none total h v =
      (0, omega arith, omega arith, omega arith, omega (arith, v))
  or_full-Within start now (some b) total h v = v

  serve_own :
      (start : ℕ) (r : Req) (s : State) (total : ℕ)
      → r.key ≡ key
      → start ≤ r.at
      → Within start r.at (get key s) total
      → ltb (refilled f max r.at (or_full max r.at (get r.key s))).tokens r.cost ≡ false
      → Within start r.at (get key (serve r (s, total)).0) (serve r (s, total)).1
  unfolding consume
  serve_own start r s total same h v enough =
      let old = refilled f max r.at (or_full max r.at (get r.key s)) in
      let left = old.tokens - r.cost in
      let bucket : BucketState = record old {
        tokens = left;
        created_at = r.at + ceil_div (max - left) f.rate * f.interval;
      } in
      let full : Within start r.at (some old) total = rw same (
        refilled-Within start r.at (or_full max r.at (get key s)) total
          (or_full-Within start r.at (get key s) total h v)) in
      let stored : get key (serve r (s, total)).0 ≡ some bucket =
        ground (arith, get-save key r.key bucket s) in
      let spent : (serve r (s, total)).1 ≡ r.cost + total = ground arith in
      rw (stored, spent)
        (full.0, full.1, full.2, omega (arith, full.3), omega (arith, full.4, ltb→le _ _ enough))

  serve-Within :
      (start last : ℕ) (r : Req) (s : State) (total : ℕ)
      → start ≤ last
      → last ≤ r.at
      → Within start last (get key s) total
      → Within start r.at (get key (serve r (s, total)).0) (serve r (s, total)).1
  unfolding consume
  serve-Within start last r s total a h v =
      let v' = later-Within start last r.at (get key s) total h v in
      let bucket = refilled f max r.at (or_full max r.at (get r.key s)) in
      elim (Bool-cases (ltb bucket.tokens r.cost)) [
        | inl short ↦ rw (short, consume) v'
        | inr enough ↦ elim (text_discrete r.key key) [
          | yes same ↦ serve_own start r s total same (omega arith) v' enough
          | no other ↦
              rw
                (
                  enough,
                  consume,
                  get-save,
                  if_neg (text_discrete r.key key) other,
                  if_neg (text_discrete r.key key) other,
                )
                v'
        ]
      ]

  serve_all-Within :
      (start last end : ℕ) (rs : List Req) (s : State) (total : ℕ)
      → start ≤ last
      → InOrder last end rs
      → Within start last (get key s) total
      → Within start end (get key (serve_all rs (s, total)).0) (serve_all rs (s, total)).1
  serve_all-Within start last end [] s total a o v =
      later-Within start last end (get key s) total o v
  serve_all-Within start last end (r ∷ rs) s total a o v =
      serve_all-Within start r.at end rs (serve r (s, total)).0 (serve r (s, total)).1 (omega arith)
        o.1 (serve-Within start last r s total a o.0 v)

  Within-bound :
      (start end : ℕ) (o : Option BucketState) (total : ℕ)
      → 0 < f.interval
      → Within start end o total
      → total ≤ max + (end - start) / f.interval * f.rate
  Within-bound start end none total pos v = omega (arith, v)
  Within-bound start end (some b) total pos v =
      let n : v.0 ≤ (end - start) / f.interval =
        (le-div_iff_mul-le pos).1 (omega (arith, v.1, v.2)) in
      let m : v.0 * f.rate ≤ (end - start) / f.interval * f.rate = grind (arith, n) in
      omega (arith, m, v.4)

  -- With a positive refill interval, requests of any keys served in the order of the clock from
  -- `start` to `end`, from a storage without a record of the key: the total cost that one key was
  -- allowed is at most the capacity and the refill of the whole intervals between.
  pub bucket_total_bounded :
      (start end : ℕ) (rs : List Req) (s : State)
      → 0 < f.interval
      → get key s ≡ none
      → InOrder start end rs
      → (serve_all rs (s, 0)).1 ≤ max + (end - start) / f.interval * f.rate
  bucket_total_bounded start end rs s pos fresh o =
      Within-bound start end (get key (serve_all rs (s, 0)).0) (serve_all rs (s, 0)).1 pos
        (serve_all-Within start start end rs s 0 (omega arith) o (rw fresh refl))
