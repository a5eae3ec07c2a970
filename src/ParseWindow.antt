-- ===== src/ParseWindow.antt =====
-- ratelimit/utils/parse-window.ts. A string is the list of its code units; numbers have no upper bound
-- here.
use oqronkit.Prelude.{
  ℕ, ◌+◌, ◌-◌, ◌*◌, ◌≡◌, ◌<◌, refl, ap, sym, Bool, true, false, ◌&&◌, Option, none, some, List, [],
  ◌∷◌, ◌++◌, Text, leb, ltb, ltb→lt, or_else, ◌==◌, if◌then◌else◌, arith, Bool-cases, Option-cases,
  inl, inr, map,
}

-- `UNITS`, at `s`, `m`, `h` and `d`.
unfoldable pub unit_ms : ℕ → Option ℕ
unit_ms c =
    if c == 115
    then some 1000
    else if c == 109
    then some 60000
    else if c == 104
    then some 3600000
    else if c == 100
    then some 86400000
    else none

abbrev pub is_digit : ℕ → Bool
is_digit c = leb 48 c && leb c 57

-- The end of the match: one unit, and nothing after it.
unfoldable pub match_unit : ℕ → ℕ → Text → Option (ℕ × ℕ)
match_unit amount c [] = elim (unit_ms c) [ none ↦ none | some ms ↦ some (amount, ms) ]
match_unit amount c (_ ∷ _) = none

-- The match of `^(\d+)(s|m|h|d)$` with the value of its digits: `any` says whether one was read.
unfoldable pub match_window : Bool → ℕ → Text → Option (ℕ × ℕ)
match_window any amount [] = none
match_window any amount (c ∷ cs) =
    let rest = match_window true (amount * 10 + (c - 48)) cs in
    if is_digit c then rest else if any then match_unit amount c cs else none

-- `none` where it throws.
unfoldable pub parse_window : Text → Option ℕ
parse_window window = elim (match_window false 0 window) [
  | none ↦ none
  | some found ↦ if ltb 0 found.0 then some (found.0 * found.1) else none
]

-- Decimal digits.
abbrev pub AllDigits : List ℕ → Type 0
AllDigits [] = Unit {0}
AllDigits (d ∷ ds) = (d < 10) × AllDigits ds

-- The value of digits, after those of value `amount`.
abbrev pub decimal : ℕ → List ℕ → ℕ
decimal amount [] = amount
decimal amount (d ∷ ds) = decimal (amount * 10 + d) ds

abbrev pub print_digits : List ℕ → Text
print_digits = map (λ d. 48 + d)

digit_read : (d : ℕ) → d < 10 → is_digit (48 + d) ≡ true
digit_read d lt = ground arith

digit_value : (d : ℕ) → 48 + d - 48 ≡ d
digit_value d = omega arith

unit_no_digit : (c ms : ℕ) → unit_ms c ≡ some ms → is_digit c ≡ false
unfolding unit_ms
unit_no_digit c ms h = ground arith

match_unit-known :
    (amount c ms : ℕ) → unit_ms c ≡ some ms → match_unit amount c [] ≡ some (amount, ms)
unfolding match_unit
match_unit-known amount c ms h = rw (h, match_unit)

match_window-print :
    (amount : ℕ) (ds : List ℕ) (c ms : ℕ)
    → AllDigits ds
    → unit_ms c ≡ some ms
    → match_window true amount (print_digits ds ++ c ∷ []) ≡ some (decimal amount ds, ms)
unfolding match_window
match_window-print amount [] c ms all h = rw (unit_no_digit c ms h) (match_unit-known amount c ms h)
match_window-print amount (d ∷ ds) c ms all h =
    rw (digit_read d all.0, digit_value d) (match_window-print (amount * 10 + d) ds c ms all.1 h)

match_window-first :
    (d : ℕ) (ds : List ℕ) (c ms : ℕ)
    → AllDigits (d ∷ ds)
    → unit_ms c ≡ some ms
    → match_window false 0 (print_digits (d ∷ ds) ++ c ∷ []) ≡ some (decimal 0 (d ∷ ds), ms)
unfolding match_window
match_window-first d ds c ms all h =
    rw (digit_read d all.0, digit_value d) (match_window-print (0 * 10 + d) ds c ms all.1 h)

-- On one or more decimal digits followed by a unit, `parseWindow` returns the value of the digits
-- times the milliseconds of the unit, and throws if that value is 0.
pub parse_window-print :
    (d : ℕ) (ds : List ℕ) (c ms : ℕ)
    → AllDigits (d ∷ ds)
    → unit_ms c ≡ some ms
    → parse_window (print_digits (d ∷ ds) ++ c ∷ [])
      ≡ (if ltb 0 (decimal 0 (d ∷ ds)) then some (decimal 0 (d ∷ ds) * ms) else none)
unfolding parse_window
parse_window-print d ds c ms all h = rw (match_window-first d ds c ms all h, parse_window)

digit_inverse : (c : ℕ) → is_digit c ≡ true → (c - 48 < 10) × (48 + (c - 48) ≡ c)
digit_inverse c h = ground arith

-- What a match says of the string.
abbrev MatchOf : ℕ → Text → ℕ × ℕ → Type 0
MatchOf amount t found =
    (ds : List ℕ) × (c : ℕ) × AllDigits ds
    × (t ≡ print_digits ds ++ c ∷ [])
    × (unit_ms c ≡ some found.1)
    × (found.0 ≡ decimal amount ds)

fst_eq : (a b : ℕ) (p : ℕ × ℕ) → some (a, b) ≡ some p → p.0 ≡ a
fst_eq a b p e = let q : (a, b) ≡ p = cc in ap (λ r. r.0) (sym q)

snd_eq : (a b : ℕ) (p : ℕ × ℕ) → some (a, b) ≡ some p → p.1 ≡ b
snd_eq a b p e = let q : (a, b) ≡ p = cc in ap (λ r. r.1) (sym q)

match_unit-MatchOf :
    (amount c : ℕ) (cs : Text) (found : ℕ × ℕ)
    → match_unit amount c cs ≡ some found
    → MatchOf amount (c ∷ cs) found
unfolding match_unit
match_unit-MatchOf amount c [] found e = elim (Option-cases (unit_ms c)) [
  | inl bad ↦ let never : none ≡ some found = rw (bad, match_unit) at e in ground arith
  | inr (ms, known) ↦
      let same : some (amount, ms) ≡ some found = rw (known, match_unit) at e in
      (
        [],
        c,
        tt,
        refl,
        rw known (ap some (sym (snd_eq amount ms found same))),
        fst_eq amount ms found same,
      )
]
match_unit-MatchOf amount c (d ∷ cs) found e = ground arith

match_window-MatchOf :
    (any : Bool) (amount : ℕ) (t : Text) (found : ℕ × ℕ)
    → match_window any amount t ≡ some found
    → MatchOf amount t found
unfolding match_window
match_window-MatchOf any amount [] found e = ground arith
match_window-MatchOf any amount (c ∷ cs) found e = elim (Bool-cases (is_digit c)) [
  | inl digit ↦
      let (ds, u, all, shape, unit, value) =
        match_window-MatchOf true (amount * 10 + (c - 48)) cs found (rw digit at e) in
      let (small, back) = digit_inverse c digit in
      ((c - 48) ∷ ds, u, (small, all), rw (back, shape), unit, value)
  | inr other ↦ elim (Bool-cases any) [
    | inl read ↦ match_unit-MatchOf amount c cs found (rw (other, read) at e)
    | inr fresh ↦ let never : none ≡ some found = rw (other, fresh) at e in ground arith
  ]
]

-- When `parseWindow` does not throw, the string is decimal digits of a value that is not 0 and one
-- of the units `s`, `m`, `h`, `d`, and the result is that value times the milliseconds of the unit.
pub parse_window-form :
    (t : Text) (n : ℕ)
    → parse_window t ≡ some n
    → (ds : List ℕ) × (c : ℕ) × (ms : ℕ) × AllDigits ds
      × (t ≡ print_digits ds ++ c ∷ [])
      × (unit_ms c ≡ some ms)
      × (n ≡ decimal 0 ds * ms)
      × (0 < decimal 0 ds)
unfolding parse_window
parse_window-form t n e = elim (Option-cases (match_window false 0 t)) [
  | inl bad ↦ let never : none ≡ some n = rw (bad, parse_window) at e in ground arith
  | inr (found, matched) ↦
      let (ds, c, all, shape, unit, value) = match_window-MatchOf false 0 t found matched in
      elim (Bool-cases (ltb 0 found.0)) [
        | inl pos ↦
            let result : found.0 * found.1 ≡ n =
              ap (λ o. or_else o 0) (rw (matched, pos, parse_window) at e) in
            let above = ltb→lt 0 found.0 pos in
            (ds, c, found.1, all, shape, unit, rw (← value) (sym result), rw (← value) above)
        | inr zero_one ↦
            let never : none ≡ some n = rw (matched, zero_one, parse_window) at e in ground arith
      ]
]
