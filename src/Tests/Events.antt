-- ===== src/Tests/Events.antt =====
-- webhook/event-matcher.ts at small inputs.
use oqronkit.Prelude.{
  ◌≡◌, ◌↔◌, refl, true, false, [], ◌∷◌, Text, text, text_discrete, mem, ℕ_discrete,
}
use oqronkit.EventMatcher.{
  split, piece_of, repeated, literal, match_pieces, has_star, matches_pattern, matches_event,
}
use oqronkit.EventMatcher.Events.{Matches, matches_event-Accepts}

program : Unit {0}
unfolding text_discrete ℕ_discrete split piece_of repeated literal match_pieces has_star
    matches_pattern matches_event
program = tt

one_segment_only :
    (matches_event (text "user.created") (text "user.*" ∷ []) ≡ true)
    × (matches_event (text "user.profile.updated") (text "user.*" ∷ []) ≡ false)
    × (matches_event (text "user.profile.updated") (text "user.**" ∷ []) ≡ true)
    × (matches_event (text "user.") (text "user.**" ∷ []) ≡ false)
    × (matches_event (text "a.b.c") (text "**.c" ∷ text "x" ∷ []) ≡ true)
    × (matches_event (text "order") (text "ord*" ∷ []) ≡ false)
unfolding program
one_segment_only = (refl, refl, refl, refl, refl, refl)

matches_event-Accepts_example :
    (matches_event (text "user.created") (text "user.*" ∷ []) ≡ true) ↔ (
      (pattern : Text) × (mem pattern (text "user.*" ∷ []) ≡ true)
      × Matches (text "user.created") pattern)
matches_event-Accepts_example = matches_event-Accepts (text "user.created") (text "user.*" ∷ [])
