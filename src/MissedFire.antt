-- ===== src/MissedFire.antt =====
-- scheduler/missed-fire.handler.ts, `MissedFireHandler.checkMissed`, without the logger and the hooks,
-- which the result does not depend on. Dates are in milliseconds. The cron parser is a package.
pub mod Intervals
pub mod Crons
use oqronkit.Prelude.{
  ℕ, zero, suc, ◌+◌, ◌-◌, ◌≡◌, ◌<◌, Bool, true, false, Option, none, some, List, [], ◌∷◌, ◌++◌,
  Text, or_else, leb, ltb, if◌then◌else◌, length, max,
}

pub data MissedFirePolicy : Type 0 where
  skip run_once run_all : MissedFirePolicy

-- An absent expression is the empty one, an absent interval is 0, and an absent policy is `skip`:
-- the code does not tell them apart.
pub record MissedFireDef : Type 0 where
  pub expression : Text
  pub interval_ms : ℕ
  pub missed_fire : MissedFirePolicy
  pub max_missed_runs : Option ℕ

pub record MissedFireResult : Type 0 where
  pub missed : Bool
  pub missed_dates : List ℕ

-- `parseExpression` at a date, and the iterator's `next` and `prev`; each may throw. An iterator stands
-- at a date, from which `next` goes to a later and `prev` to an earlier one.
pub record CronParser : Type 1 where
  pub Iterator : Type 0
  pub parse : Text → ℕ → Option Iterator
  pub next : Iterator → Option (ℕ × Iterator)
  pub prev : Iterator → Option ℕ
  pub position : Iterator → ℕ
  pub parse-position : (e : Text) (t : ℕ) (it : Iterator) → parse e t ≡ some it → position it ≡ t
  pub prev-earlier : (it : Iterator) (t : ℕ) → prev it ≡ some t → t < position it
  pub next-later :
      (it it' : Iterator) (t : ℕ) → next it ≡ some (t, it') → (position it < t) × (position it' ≡ t)

abbrev pub nothing_missed : MissedFireResult
nothing_missed = record { missed = false; missed_dates = [] }

-- The dates kept, and the number of those dropped.
pub record Enumerated : Type 0 where
  pub dates : List ℕ
  pub dropped : ℕ

abbrev pub keep_date : ℕ → ℕ → Enumerated → Enumerated
keep_date limit date found =
    if ltb (length found.dates) limit
    then record found { dates = found.dates ++ date ∷ [] }
    else record found { dropped = found.dropped + 1 }

-- The loop over the ticks of an interval; `none` is fuel that ran out.
unfoldable pub enumerate_ticks : ℕ → ℕ → ℕ → ℕ → ℕ → Enumerated → Option Enumerated
enumerate_ticks zero interval limit now tick found = none
enumerate_ticks (suc fuel) interval limit now tick found =
    let rest =
      enumerate_ticks fuel interval limit now (tick + interval) (keep_date limit tick found) in
    if leb tick now then rest else some found

abbrev pub limit_of : MissedFireDef → ℕ
limit_of def = max 1 (or_else def.max_missed_runs 100)

-- The last part: `skip` reports nothing.
abbrev pub report : MissedFirePolicy → Bool → List ℕ → MissedFireResult
report skip missed dates = nothing_missed
report _ true dates = record { missed = true; missed_dates = dates }
report _ false dates = nothing_missed

abbrev pub is_run_all : MissedFirePolicy → Bool
is_run_all run_all = true
is_run_all _ = false

abbrev pub no_dates : List ℕ → Bool
no_dates [] = true
no_dates _ = false

-- The branch of a definition with an interval.
unfoldable pub check_interval : ℕ → MissedFireDef → ℕ → ℕ → Option MissedFireResult
check_interval fuel def last now =
    let ticks =
      enumerate_ticks fuel def.interval_ms (limit_of def) now (last + def.interval_ms)
        (record { dates = []; dropped = 0 }) in
    if ltb (last + def.interval_ms) now
    then if is_run_all def.missed_fire
      then elim ticks [ none ↦ none | some found ↦ some (report def.missed_fire true found.dates) ]
      else some (report def.missed_fire true (now ∷ []))
    else some (report def.missed_fire false [])

module _ (P : CronParser) where
  -- The loop over the occurrences, at the date `t` that `next` returned last.
  unfoldable pub enumerate_runs : ℕ → ℕ → ℕ → ℕ → P.Iterator → Enumerated → Option Enumerated
  enumerate_runs zero limit now t it found = none
  enumerate_runs (suc fuel) limit now t it found =
      let rest : Option Enumerated = elim (P.next it) [
        | none ↦ some (keep_date limit t found)
        | some following ↦
            enumerate_runs fuel limit now following.0 following.1 (keep_date limit t found)
      ] in
      if leb t now then rest else some found

  -- `run-all`, from what the first `next` returns.
  unfoldable pub all_runs :
      ℕ → MissedFireDef → ℕ → Option (ℕ × P.Iterator) → Option MissedFireResult
  all_runs fuel def now none = some nothing_missed
  all_runs fuel def now (some first) =
      elim (enumerate_runs fuel (limit_of def) now first.0 first.1
        (record { dates = []; dropped = 0 })) [
          | none ↦ none
          | some found ↦
              some
                (report def.missed_fire (if no_dates found.dates then false else true) found.dates)
        ]

  abbrev pub previous : Option P.Iterator → Option ℕ
  previous none = none
  previous (some it) = P.prev it

  -- The other policies, from the last occurrence before now.
  abbrev pub last_run : MissedFireDef → ℕ → Option ℕ → MissedFireResult
  last_run def last none = nothing_missed
  last_run def last (some run) = report def.missed_fire (ltb last run) (run ∷ [])

  -- The branch of a definition with a cron expression. What the parser throws is caught.
  unfoldable pub check_expression : ℕ → MissedFireDef → ℕ → ℕ → Option MissedFireResult
  check_expression fuel def last now = elim (P.parse def.expression last) [
    | none ↦ some nothing_missed
    | some it ↦
        if is_run_all def.missed_fire
        then all_runs fuel def now (P.next it)
        else some (last_run def last (previous (P.parse def.expression now)))
  ]

  unfoldable pub check_missed : ℕ → MissedFireDef → Option ℕ → ℕ → Option MissedFireResult
  check_missed fuel def none now = some nothing_missed
  check_missed fuel def (some last) now =
      if no_dates def.expression
      then if ltb 0 def.interval_ms
        then check_interval fuel def last now
        else some (report def.missed_fire false [])
      else check_expression fuel def last now
