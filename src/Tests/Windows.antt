-- ===== src/Tests/Windows.antt =====
-- ratelimit/utils/parse-window.ts at small inputs.
use oqronkit.Prelude.{◌*◌, ◌++◌, ◌≡◌, refl, none, some, [], ◌∷◌, text, arith, ltb, if◌then◌else◌}
use oqronkit.ParseWindow.{
  parse_window, match_window, match_unit, unit_ms, print_digits, decimal, parse_window-print,
}

program : Unit {0}
unfolding parse_window match_window match_unit unit_ms
program = tt

half_minute : parse_window (text "30s") ≡ some 30000
unfolding program
half_minute = refl

no_unit : parse_window (text "30") ≡ none
unfolding program
no_unit = refl

parse_window-print_example :
    parse_window (print_digits (3 ∷ 0 ∷ []) ++ 115 ∷ [])
    ≡ (if ltb 0 (decimal 0 (3 ∷ 0 ∷ [])) then some (decimal 0 (3 ∷ 0 ∷ []) * 1000) else none)
unfolding program
parse_window-print_example =
    parse_window-print 3 (0 ∷ []) 115 1000 (omega arith, (omega arith, tt)) refl
