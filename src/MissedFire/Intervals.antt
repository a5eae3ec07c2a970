-- ===== src/MissedFire/Intervals.antt =====
-- A definition with an interval: the loop ends, and the dates are the ticks up to now, the first ones
-- where there are too many.
use oqronkit.Prelude.{
  ℕ, zero, suc, ◌+◌, ◌*◌, ◌≡◌, ◌≤◌, ◌<◌, refl, sym, ap, ◌∙◌, leb→le, leb→lt, lt→ltb, true, false,
  some, List, [], ◌∷◌, ◌++◌, leb, ltb, length, take, arith, Bool-cases, inl, inr,
}
use mathlib.Core.List.{append-nil}
use oqronkit.MissedFire.{
  MissedFireDef, run_all, CronParser, Enumerated, keep_date, enumerate_ticks, limit_of,
  check_interval, check_missed,
}

-- The first `n` ticks from `t`.
unfoldable pub ticks : ℕ → ℕ → ℕ → List ℕ
ticks interval t zero = []
ticks interval t (suc n) = t ∷ ticks interval (t + interval) n

-- The dates handed to the loop's body, in turn.
unfoldable pub keep_dates : ℕ → List ℕ → Enumerated → Enumerated
keep_dates limit [] found = found
keep_dates limit (d ∷ ds) found = keep_dates limit ds (keep_date limit d found)

length-append_one : (xs : List ℕ) (d : ℕ) → length (xs ++ d ∷ []) ≡ length xs + 1
length-append_one [] d = omega arith
length-append_one (x ∷ xs) d = omega (arith, length-append_one xs d)

append_one : (xs ys : List ℕ) (d : ℕ) → xs ++ d ∷ [] ++ ys ≡ xs ++ (d ∷ ys)
append_one [] ys d = refl
append_one (x ∷ xs) ys d = ap (λ r. x ∷ r) (append_one xs ys d)

pub keep_dates-dates :
    (limit room : ℕ) (ds : List ℕ) (found : Enumerated)
    → length found.dates + room ≡ limit
    → (keep_dates limit ds found).dates ≡ found.dates ++ take room ds
unfolding keep_dates
keep_dates-dates limit zero [] found e = sym (append-nil found.dates)
keep_dates-dates limit (suc room) [] found e = sym (append-nil found.dates)
keep_dates-dates limit zero (d ∷ ds) found e =
    let full : ltb (length found.dates) limit ≡ false = ground arith in
    rw (full, keep_dates)
      (keep_dates-dates limit zero ds (record found { dropped = found.dropped + 1 }) e)
keep_dates-dates limit (suc room) (d ∷ ds) found e =
    let free : ltb (length found.dates) limit ≡ true = ground arith in
    rw (free, keep_dates)
      (keep_dates-dates limit room ds (record found { dates = found.dates ++ d ∷ [] })
          (omega (arith, length-append_one found.dates d))
        ∙ append_one found.dates (take room ds) d)

tick_next : (t n i : ℕ) → t + suc n * i ≡ t + i + n * i
tick_next t n i = grind arith

enumerate_ticks-ends :
    (f interval limit now t : ℕ) (found : Enumerated)
    → 0 < interval
    → now < t + f
    → t ≤ now + interval
    → (n : ℕ) × (enumerate_ticks (suc f) interval limit now t found
        ≡ some (keep_dates limit (ticks interval t n) found))
      × (t + n * interval ≤ now + interval)
      × (now < t + n * interval)
unfolding enumerate_ticks keep_dates ticks
enumerate_ticks-ends zero interval limit now t found pos room start =
    let over : leb t now ≡ false = ground arith in (0, rw over, omega arith, omega arith)
enumerate_ticks-ends (suc f) interval limit now t found pos room start =
    elim (Bool-cases (leb t now)) [
      | inl more ↦
          let le = leb→le t now more in
          let (n, runs, low, high) =
            enumerate_ticks-ends f interval limit now (t + interval) (keep_date limit t found) pos
              (omega arith) (omega arith) in
          (
            suc n,
            rw more runs,
            omega (arith, tick_next t n interval),
            omega (arith, tick_next t n interval),
          )
      | inr over ↦ let lt = leb→lt t now over in (0, rw over, omega arith, omega arith)
    ]

-- With no cron expression, an interval that is not 0, the policy `run-all`, more than an interval
-- since the last run, and more fuel than the present date: `checkMissed` returns, and its dates are
-- the ticks after the last run up to now, the first `maxMissedRuns` of them.
pub missed_ticks :
    (P : CronParser) (fuel : ℕ) (def : MissedFireDef) (last now : ℕ)
    → def.expression ≡ []
    → 0 < def.interval_ms
    → def.missed_fire ≡ run_all
    → last + def.interval_ms < now
    → now < fuel
    → (n : ℕ) × (check_missed P fuel def (some last) now
        ≡ some (record {
          missed = true;
          missed_dates = take (limit_of def) (ticks def.interval_ms (last + def.interval_ms) n);
        }))
      × (last + n * def.interval_ms ≤ now)
      × (now < last + suc n * def.interval_ms)
unfolding check_missed check_interval
missed_ticks P zero def last now cron pos policy late room =
    let never : ⊥ = omega arith in elim never [ ]
missed_ticks P (suc f) def last now cron pos policy late room =
    let (n, runs, low, high) =
      enumerate_ticks-ends f def.interval_ms (limit_of def) now (last + def.interval_ms)
        (record { dates = []; dropped = 0 }) pos (omega arith) (omega arith) in
    let kept =
      keep_dates-dates (limit_of def) (limit_of def)
        (ticks def.interval_ms (last + def.interval_ms) n) (record { dates = []; dropped = 0 })
        (omega arith) in
    (
      n,
      rw (cron, check_missed)
          (rw (lt→ltb 0 def.interval_ms pos, check_interval)
            (rw (lt→ltb (last + def.interval_ms) now late, policy, runs, kept, policy))),
      omega arith,
      omega (arith, tick_next last n def.interval_ms),
    )
