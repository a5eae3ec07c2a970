-- ===== src/EventMatcher/Segments.antt =====
-- The matcher read segment by segment: a star stands for one segment that is not empty, two stars for
-- any part that is not empty.
use oqronkit.Prelude.{
  ℕ, ◌≡◌, refl, sym, ap, ◌∙◌, inl, inr, Bool, true, false, ◌&&◌, ◌==◌, List, [], ◌∷◌, ◌++◌, Text,
  arith, Bool-cases,
}
use mathlib.Core.List.{append-nil}
use oqronkit.EventMatcher.{
  Piece, one_segment, many_segments, exact, dot, is_dot, no_dot, plain, repeated, literal,
  match_piece, at_end, after_dot, match_pieces,
}

unfoldable pub all_units : (ℕ → Bool) → Text → Bool
all_units ok [] = true
all_units ok (c ∷ cs) = ok c && all_units ok cs

abbrev pub nonempty : Text → Bool
nonempty [] = false
nonempty (c ∷ cs) = true

-- What a piece may stand for.
abbrev pub Fits : Piece → Text → Type 0
Fits one_segment u = (nonempty u ≡ true) × (all_units no_dot u ≡ true)
Fits many_segments u = (nonempty u ≡ true) × (all_units plain u ≡ true)
Fits (exact x) u = u ≡ x

-- The text before a rest that the continuation takes.
abbrev Split : Piece → (Text → Bool) → Text → Type 0
Split p rest s = (u : Text) × (v : Text) × (s ≡ u ++ v) × Fits p u × (rest v ≡ true)

abbrev Several : (ℕ → Bool) → (Text → Bool) → Text → Type 0
Several ok rest s =
    (u : Text) × (v : Text) × (s ≡ u ++ v)
    × ((nonempty u ≡ true) × (all_units ok u ≡ true))
    × (rest v ≡ true)

repeated-Several :
    (ok : ℕ → Bool) (rest : Text → Bool) (s : Text) → repeated ok rest s ≡ true → Several ok rest s
unfolding repeated all_units
repeated-Several ok rest [] h = ground arith
repeated-Several ok rest (c ∷ cs) h = elim (Bool-cases (ok c)) [
  | inr bad ↦ ground (arith, bad)
  | inl good ↦ elim (Bool-cases (rest cs)) [
    | inl now ↦ (c ∷ [], cs, refl, (refl, ground arith), now)
    | inr later ↦
        let (u, v, e, (full, all), taken) =
          repeated-Several ok rest cs (ground (arith, good, later)) in
        (c ∷ u, v, ap (◌∷◌ c) e, (refl, ground (arith, good, all)), taken)
  ]
]

Several-repeated :
    (ok : ℕ → Bool) (rest : Text → Bool) (u v : Text)
    → nonempty u ≡ true
    → all_units ok u ≡ true
    → rest v ≡ true
    → repeated ok rest (u ++ v) ≡ true
unfolding repeated all_units
Several-repeated ok rest [] v full all taken = ground arith
Several-repeated ok rest (c ∷ []) v full all taken = ground arith
Several-repeated ok rest (c ∷ d ∷ u) v full all taken =
    ground (arith, Several-repeated ok rest (d ∷ u) v refl)

literal-Split :
    (x : Text) (rest : Text → Bool) (s : Text) → literal x rest s ≡ true → Split (exact x) rest s
unfolding literal
literal-Split [] rest s h = ([], s, refl, refl, h)
literal-Split (x ∷ xs) rest [] h = ground arith
literal-Split (x ∷ xs) rest (c ∷ cs) h = elim (Bool-cases (x == c)) [
  | inr other ↦ ground (arith, other)
  | inl same ↦
      let (u, v, e, fits, taken) = literal-Split xs rest cs (ground (arith, same)) in
      let e' : c ≡ x = ground (arith, same) in
      (x ∷ u, v, ap (λ d. d ∷ cs) e' ∙ ap (◌∷◌ x) e, ap (◌∷◌ x) fits, taken)
]

Split-literal :
    (x : Text) (rest : Text → Bool) (v : Text) → rest v ≡ true → literal x rest (x ++ v) ≡ true
unfolding literal
Split-literal [] rest v taken = taken
Split-literal (x ∷ xs) rest v taken = ground (arith, Split-literal xs rest v taken)

match_piece-Split :
    (p : Piece) (rest : Text → Bool) (s : Text) → match_piece p rest s ≡ true → Split p rest s
match_piece-Split one_segment rest s h = repeated-Several no_dot rest s h
match_piece-Split many_segments rest s h = repeated-Several plain rest s h
match_piece-Split (exact x) rest s h = literal-Split x rest s h

Split-match_piece :
    (p : Piece) (rest : Text → Bool) (u v : Text)
    → Fits p u
    → rest v ≡ true
    → match_piece p rest (u ++ v) ≡ true
Split-match_piece one_segment rest u v (full, all) taken =
    Several-repeated no_dot rest u v full all taken
Split-match_piece many_segments rest u v (full, all) taken =
    Several-repeated plain rest u v full all taken
Split-match_piece (exact x) rest u v e taken = rw e (Split-literal x rest v taken)

-- The pieces in turn, with dots between them.
abbrev pub Reads : List Piece → Text → Type 0
Reads [] s = s ≡ []
Reads (p ∷ []) s = Fits p s
Reads (p ∷ q ∷ ps) s = (u : Text) × (v : Text) × (s ≡ u ++ dot ∷ v) × Fits p u × Reads (q ∷ ps) v

at_end-nil : (s : Text) → at_end s ≡ true → s ≡ []
at_end-nil [] h = refl
at_end-nil (c ∷ cs) h = ground arith

after_dot-cons :
    (rest : Text → Bool) (s : Text)
    → after_dot rest s ≡ true
    → (v : Text) × (s ≡ dot ∷ v) × (rest v ≡ true)
after_dot-cons rest [] h = ground arith
after_dot-cons rest (c ∷ cs) h = elim (Bool-cases (is_dot c)) [
  | inr other ↦ ground (arith, other)
  | inl same ↦
      let e : c ≡ dot = ground (arith, same) in (cs, ap (λ x. x ∷ cs) e, ground (arith, same))
]

pub match_pieces-Reads : (ps : List Piece) (s : Text) → match_pieces ps s ≡ true → Reads ps s
unfolding match_pieces
match_pieces-Reads [] s h = at_end-nil s h
match_pieces-Reads (p ∷ []) s h =
    let (u, v, e, fits, over) = match_piece-Split p at_end s h in
    let e' : s ≡ u = e ∙ ap (λ (x : Text). u ++ x) (at_end-nil v over) ∙ append-nil u in rw e' fits
match_pieces-Reads (p ∷ q ∷ ps) s h =
    let (u, v, e, fits, taken) = match_piece-Split p (after_dot (match_pieces (q ∷ ps))) s h in
    let (w, e', more) = after_dot-cons (match_pieces (q ∷ ps)) v taken in
    (u, w, e ∙ ap (λ (x : Text). u ++ x) e', fits, match_pieces-Reads (q ∷ ps) w more)

pub Reads-match_pieces : (ps : List Piece) (s : Text) → Reads ps s → match_pieces ps s ≡ true
unfolding match_pieces
Reads-match_pieces [] s e = rw e refl
Reads-match_pieces (p ∷ []) s fits =
    rw (sym (append-nil s)) (Split-match_piece p at_end s [] fits refl)
Reads-match_pieces (p ∷ q ∷ ps) s (u, v, e, fits, more) = rw e (
    Split-match_piece p (after_dot (match_pieces (q ∷ ps))) u (dot ∷ v) fits
      (Reads-match_pieces (q ∷ ps) v more))
