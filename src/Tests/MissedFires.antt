-- ===== src/Tests/MissedFires.antt =====
-- scheduler/missed-fire.handler.ts at small inputs, with a parser for which every date is an occurrence.
use oqronkit.Prelude.{
  ℕ, suc, ◌+◌, ◌*◌, ◌≡◌, ◌≤◌, ◌<◌, refl, true, none, some, [], ◌∷◌, text, arith, take,
}
use oqronkit.MissedFire.{
  MissedFireDef, MissedFireResult, run_all, CronParser, check_missed, check_interval,
  check_expression, all_runs, enumerate_ticks, enumerate_runs, limit_of,
}
use oqronkit.MissedFire.Intervals.{missed_ticks, ticks}
use oqronkit.MissedFire.Crons.{missed_runs, Within}

program : Unit {0}
unfolding check_missed check_interval check_expression all_runs enumerate_ticks enumerate_runs ticks
program = tt

-- The iterator is the date at which it stands; `next` is the date after it.
abbrev daily : CronParser
daily = record {
  Iterator = ℕ;
  parse = λ e t. some t;
  next = λ t. some (t + 1, t + 1);
  prev = λ t. none;
  position = λ t. t;
  parse-position = λ e t it h. ground arith;
  prev-earlier = λ it t h. ground arith;
  next-later = λ it it' t h. ground arith;
}

abbrev every_5 : MissedFireDef
every_5 = record {
  expression = [];
  interval_ms = 5;
  missed_fire = run_all;
  max_missed_runs = some 2;
}

two_of_three :
    check_missed daily 19 every_5 (some 1) 18
    ≡ some (record { missed = true; missed_dates = 6 ∷ 11 ∷ [] })
unfolding program
two_of_three = refl

missed_ticks_example :
    (n : ℕ) × (check_missed daily 19 every_5 (some 1) 18
      ≡ some (record { missed = true; missed_dates = take (limit_of every_5) (ticks 5 6 n) }))
    × (1 + n * 5 ≤ 18)
    × (18 < 1 + suc n * 5)
missed_ticks_example =
    missed_ticks daily 19 every_5 1 18 refl (omega arith) refl (omega arith) (omega arith)

abbrev each_date : MissedFireDef
each_date = record {
  expression = text "* * * * *";
  interval_ms = 0;
  missed_fire = run_all;
  max_missed_runs = none;
}

missed_runs_example :
    (result : MissedFireResult) × (check_missed daily 9 each_date (some 5) 8 ≡ some result)
    × Within (limit_of each_date) 8 result.missed_dates
missed_runs_example = missed_runs daily 9 each_date 5 8 refl (omega arith)
