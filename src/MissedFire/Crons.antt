-- ===== src/MissedFire/Crons.antt =====
-- A definition with a cron expression: `run-all` ends, and returns dates up to now, no more than the
-- limit.
use oqronkit.Prelude.{
  ℕ, zero, suc, ◌+◌, ◌≡◌, ◌≤◌, ◌<◌, Bool, true, false, some, List, [], ◌∷◌, ◌++◌, leb, ltb,
  if◌then◌else◌, length, arith, Bool-cases, Option-cases, inl, inr, leb→le,
}
use oqronkit.MissedFire.{
  MissedFireDef, MissedFireResult, CronParser, Enumerated, keep_date, enumerate_runs, limit_of,
  check_missed, no_dates, check_expression, all_runs, last_run, previous, nothing_missed, report,
  is_run_all, MissedFirePolicy, skip, run_once, run_all,
}

-- Dates no later than `now`.
abbrev pub UpTo : ℕ → List ℕ → Type 0
UpTo now [] = Unit {0}
UpTo now (d ∷ ds) = (d ≤ now) × UpTo now ds

append-UpTo : (now d : ℕ) (ds : List ℕ) → UpTo now ds → d ≤ now → UpTo now (ds ++ d ∷ [])
append-UpTo now d [] u le = (le, tt)
append-UpTo now d (x ∷ xs) u le = (u.0, append-UpTo now d xs u.1 le)

length-append_date : (xs : List ℕ) (d : ℕ) → length (xs ++ d ∷ []) ≡ length xs + 1
length-append_date [] d = omega arith
length-append_date (x ∷ xs) d = omega (arith, length-append_date xs d)

-- What the loop keeps true of the dates found.
abbrev Bounded : ℕ → ℕ → Enumerated → Type 0
Bounded limit now found = UpTo now found.dates × (length found.dates ≤ limit)

keep_date-Bounded :
    (limit now d : ℕ) (found : Enumerated)
    → d ≤ now
    → Bounded limit now found
    → Bounded limit now (keep_date limit d found)
keep_date-Bounded limit now d found le b = elim (Bool-cases (ltb (length found.dates) limit)) [
  | inl free ↦
      let short : length found.dates < limit = ground arith in
      rw free
        (append-UpTo now d found.dates b.0 le, omega (arith, length-append_date found.dates d))
  | inr full ↦ rw full b
]

enumerate_runs-ends :
    (P : CronParser) (f limit now t : ℕ) (it : P.Iterator) (found : Enumerated)
    → P.position it ≡ t
    → now < t + f
    → Bounded limit now found
    → (all : Enumerated) × (enumerate_runs P (suc f) limit now t it found ≡ some all)
      × Bounded limit now all
unfolding enumerate_runs
enumerate_runs-ends P zero limit now t it found at room b =
    let over : leb t now ≡ false = ground arith in (found, rw over, b)
enumerate_runs-ends P (suc f) limit now t it found at room b = elim (Bool-cases (leb t now)) [
  | inl more ↦
      let kept = keep_date-Bounded limit now t found (leb→le t now more) b in
      elim (Option-cases (P.next it)) [
        | inl last ↦ (keep_date limit t found, rw (more, last), kept)
        | inr (following, e) ↦
            let (earlier, at') = P.next-later it following.1 following.0 e in
            let past : t < following.0 = rw at at earlier in
            let (all, runs, b') =
              enumerate_runs-ends P f limit now following.0 following.1 (keep_date limit t found)
                at' (omega arith) kept in
            (all, rw (more, e) runs, b')
      ]
  | inr over ↦ (found, rw over, b)
]

-- At most so many dates, none after now.
abbrev pub Within : ℕ → ℕ → List ℕ → Type 0
Within limit now dates = UpTo now dates × (length dates ≤ limit)

report-Within :
    (limit now : ℕ) (policy : MissedFirePolicy) (missed : Bool) (dates : List ℕ)
    → Within limit now dates
    → Within limit now (report policy missed dates).missed_dates
report-Within limit now skip missed dates w = (tt, omega arith)
report-Within limit now run_once true dates w = w
report-Within limit now run_once false dates w = (tt, omega arith)
report-Within limit now run_all true dates w = w
report-Within limit now run_all false dates w = (tt, omega arith)

all_runs-Within :
    (P : CronParser) (f : ℕ) (def : MissedFireDef) (last now : ℕ) (it : P.Iterator)
    → now ≤ f
    → (result : MissedFireResult) × (all_runs P (suc f) def now (P.next it) ≡ some result)
      × Within (limit_of def) now result.missed_dates
unfolding all_runs
all_runs-Within P f def last now it room = elim (Option-cases (P.next it)) [
  | inl none_left ↦ (nothing_missed, rw (none_left, all_runs), (tt, omega arith))
  | inr (first, e) ↦
      let (earlier, at) = P.next-later it first.1 first.0 e in
      let (all, runs, w) =
        enumerate_runs-ends P f (limit_of def) now first.0 first.1
          (record { dates = []; dropped = 0 }) at (omega arith) (tt, omega arith) in
      (
        report def.missed_fire (if no_dates all.dates then false else true) all.dates,
        rw (e, all_runs, runs),
        report-Within (limit_of def) now def.missed_fire
            (if no_dates all.dates then false else true) all.dates w,
      )
]

last_run-Within :
    (P : CronParser) (def : MissedFireDef) (last now : ℕ)
    → Within
        (limit_of def)
        now
        (last_run P def last (previous P (P.parse def.expression now))).missed_dates
last_run-Within P def last now = elim (Option-cases (P.parse def.expression now)) [
  | inl bad ↦ rw bad (tt, omega arith)
  | inr (it, parsed) ↦ elim (Option-cases (P.prev it)) [
    | inl first ↦ rw (parsed, first) (tt, omega arith)
    | inr (run, e) ↦
        let before = P.prev-earlier it run e in
        let at = P.parse-position def.expression now it parsed in
        let le : run ≤ now = omega arith in
        rw (parsed, e)
          (report-Within (limit_of def) now def.missed_fire (ltb last run) (run ∷ [])
            ((le, tt), omega arith))
  ]
]

-- With a cron expression and more fuel than the present date, `checkMissed` returns under every
-- policy, with no date after now and at most as many dates as the limit.
pub missed_runs :
    (P : CronParser) (fuel : ℕ) (def : MissedFireDef) (last now : ℕ)
    → no_dates def.expression ≡ false
    → now < fuel
    → (result : MissedFireResult) × (check_missed P fuel def (some last) now ≡ some result)
      × Within (limit_of def) now result.missed_dates
unfolding check_missed check_expression
missed_runs P zero def last now cron room = let never : ⊥ = omega arith in elim never [ ]
missed_runs P (suc f) def last now cron room = elim (Option-cases (P.parse def.expression last)) [
  | inl bad ↦
      (nothing_missed, rw (cron, check_missed) (rw (bad, check_expression)), (tt, omega arith))
  | inr (it, parsed) ↦ elim (Bool-cases (is_run_all def.missed_fire)) [
    | inl every ↦
        let (result, runs, w) = all_runs-Within P f def last now it (omega arith) in
        (result, rw (cron, check_missed) (rw (parsed, check_expression) (rw every runs)), w)
    | inr other ↦ (
      last_run P def last (previous P (P.parse def.expression now)),
      rw (cron, check_missed) (rw (parsed, check_expression) (rw other)),
      last_run-Within P def last now,
    )
  ]
]
