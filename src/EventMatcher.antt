-- ===== src/EventMatcher.antt =====
-- webhook/event-matcher.ts. The regular expression that a pattern is made into has one piece for each
-- of its segments, with a literal dot in between; `test` with `^` and `$` is the match of the whole
-- event, found by backtracking.
pub mod Segments
pub mod Accepts
pub mod Events
use oqronkit.Prelude.{
  ℕ, Bool, true, false, ◌&&◌, ◌||◌, not, ◌==◌, List, [], ◌∷◌, map, ite, if◌then◌else◌, Text, text,
  text_discrete,
}

-- A segment: `[^.]+`, `.+`, or the escaped text.
pub data Piece : Type 0 where
  one_segment many_segments : Piece
  exact : Text → Piece

abbrev pub dot : ℕ
dot = 46

abbrev pub star : ℕ
star = 42

abbrev pub is_dot : ℕ → Bool
is_dot c = c == dot

abbrev pub no_dot : ℕ → Bool
no_dot c = not (is_dot c)

-- What `.` matches: no line feed, carriage return, line or paragraph separator.
abbrev pub plain : ℕ → Bool
plain c = not (c == 10) && not (c == 13) && not (c == 8232) && not (c == 8233)

abbrev pub push_head : ℕ → List Text → List Text
push_head c [] = (c ∷ []) ∷ []
push_head c (s ∷ ss) = (c ∷ s) ∷ ss

-- `split(".")`
unfoldable pub split : Text → List Text
split [] = [] ∷ []
split (c ∷ cs) = if is_dot c then [] ∷ split cs else push_head c (split cs)

unfoldable pub piece_of : Text → Piece
piece_of seg =
    ite (text_discrete seg (text "**")) many_segments
      (ite (text_discrete seg (text "*")) one_segment (exact seg))

-- One or more units that meet the test, as many as let the rest go on.
unfoldable pub repeated : (ℕ → Bool) → (Text → Bool) → Text → Bool
repeated ok rest [] = false
repeated ok rest (c ∷ cs) = if ok c then rest cs || repeated ok rest cs else false

unfoldable pub literal : Text → (Text → Bool) → Text → Bool
literal [] rest s = rest s
literal (x ∷ xs) rest [] = false
literal (x ∷ xs) rest (c ∷ cs) = if x == c then literal xs rest cs else false

abbrev pub match_piece : Piece → (Text → Bool) → Text → Bool
match_piece one_segment = repeated no_dot
match_piece many_segments = repeated plain
match_piece (exact x) = literal x

abbrev pub at_end : Text → Bool
at_end [] = true
at_end (c ∷ cs) = false

abbrev pub after_dot : (Text → Bool) → Text → Bool
after_dot rest [] = false
after_dot rest (c ∷ cs) = if is_dot c then rest cs else false

unfoldable pub match_pieces : List Piece → Text → Bool
match_pieces [] s = at_end s
match_pieces (p ∷ []) s = match_piece p at_end s
match_pieces (p ∷ q ∷ ps) s = match_piece p (after_dot (match_pieces (q ∷ ps))) s

-- `includes("*")`
unfoldable pub has_star : Text → Bool
has_star [] = false
has_star (c ∷ cs) = c == star || has_star cs

abbrev pub is_text : Text → Text → Bool
is_text s t = ite (text_discrete s t) true false

abbrev pub is_bare : Text → Bool
is_bare pattern = is_text pattern (text "*") || is_text pattern (text "**")

unfoldable pub matches_pattern : Text → Text → Bool
matches_pattern event pattern =
    if is_text pattern event
    then true
    else if is_bare pattern
    then true
    else if has_star pattern
    then match_pieces (map piece_of (split pattern)) event
    else false

-- `patterns.some(…)`
unfoldable pub matches_event : Text → List Text → Bool
matches_event event [] = false
matches_event event (p ∷ ps) = matches_pattern event p || matches_event event ps
