-- ===== src/EventMatcher/Events.antt =====
-- What `matchesEvent` answers, from the segments of the event and of the patterns.
use oqronkit.Prelude.{
  ℕ, ◌≡◌, ◌⊎◌, ◌↔◌, refl, sym, ap, subst, ◌∙◌, inl, inr, Bool, true, false, ◌&&◌, not, ◌==◌, List,
  [], ◌∷◌, ◌++◌, map, if_pos, if_neg, Text, text, text_discrete, arith, Bool-cases, mem,
}
use oqronkit.EventMatcher.{
  Piece, exact, star, is_dot, no_dot, plain, split, push_head, piece_of, match_pieces, has_star,
  is_bare, matches_pattern, matches_event,
}
use oqronkit.EventMatcher.Segments.{
  all_units, nonempty, Reads, match_pieces-Reads, Reads-match_pieces,
}
use oqronkit.EventMatcher.Accepts.{
  Accepts, Clean, Reads-Accepts, Accepts-Reads, no_dots, no_dots-split, join, join-split,
  split-cons, split-no_dot,
}

abbrev pub pieces : Text → List Piece
pieces pattern = map piece_of (split pattern)

Clean-map : (segs : List Text) → no_dots segs ≡ true → Clean (map piece_of segs)
unfolding piece_of
Clean-map [] h = tt
Clean-map (seg ∷ segs) h = elim (text_discrete seg (text "**")) [
  | yes two ↦ rw (if_pos (text_discrete seg (text "**")) two) (Clean-map segs (ground arith))
  | no away ↦ elim (text_discrete seg (text "*")) [
    | yes one ↦
        rw (if_neg (text_discrete seg (text "**")) away, if_pos (text_discrete seg (text "*")) one)
          (Clean-map segs (ground arith))
    | no away' ↦
        rw
          (if_neg (text_discrete seg (text "**")) away, if_neg (text_discrete seg (text "*")) away')
          (ground arith, Clean-map segs (ground arith))
  ]
]

-- Every pattern accepts its own segments.
Accepts-self : (segs : List Text) → no_dots segs ≡ true → Accepts (map piece_of segs) segs
unfolding piece_of all_units
Accepts-self [] h = refl
Accepts-self (seg ∷ segs) h =
    let rest = Accepts-self segs (ground arith) in
    let clean : all_units no_dot seg ≡ true = ground arith in
    elim (text_discrete seg (text "**")) [
      | yes two ↦ rw (if_pos (text_discrete seg (text "**")) two) (
        seg,
        segs,
        ap (λ (x : List Text). x ++ segs) (sym (split-no_dot seg clean)),
        ap nonempty two,
        ap (all_units plain) two,
        rest,
      )
      | no away ↦ elim (text_discrete seg (text "*")) [
        | yes one ↦
            rw
              (
                if_neg (text_discrete seg (text "**")) away,
                if_pos (text_discrete seg (text "*")) one,
              )
              (seg, segs, refl, ap nonempty one, rest)
        | no away' ↦
            rw
              (
                if_neg (text_discrete seg (text "**")) away,
                if_neg (text_discrete seg (text "*")) away',
              )
              (segs, refl, rest)
      ]
    ]

abbrev no_stars : List Text → Bool
no_stars [] = true
no_stars (s ∷ ss) = not (has_star s) && no_stars ss

no_stars-push_head :
    (c : ℕ) (segs : List Text)
    → (c == star) ≡ false
    → no_stars segs ≡ true
    → no_stars (push_head c segs) ≡ true
unfolding has_star
no_stars-push_head c [] away h = ground (arith, away)
no_stars-push_head c (s ∷ ss) away h = ground (arith, away)

no_stars-split : (s : Text) → has_star s ≡ false → no_stars (split s) ≡ true
unfolding split has_star
no_stars-split [] h = refl
no_stars-split (c ∷ cs) h =
    let rest = no_stars-split cs (ground arith) in
    elim (Bool-cases (is_dot c)) [
      | inl here ↦ rw here rest
      | inr away ↦ rw away (no_stars-push_head c (split cs) (ground arith) rest)
    ]

star_free : (seg : Text) → has_star seg ≡ false → piece_of seg ≡ exact seg
unfolding piece_of has_star
star_free seg h = elim (text_discrete seg (text "**")) [
  | yes two ↦ let never : true ≡ false = rw two at h in ground arith
  | no away ↦ elim (text_discrete seg (text "*")) [
    | yes one ↦ let never : true ≡ false = rw one at h in ground arith
    | no away' ↦
        rw
          (if_neg (text_discrete seg (text "**")) away, if_neg (text_discrete seg (text "*")) away')
          refl
  ]
]

-- Without a star the segments must be the same.
Accepts-exact :
    (segs es : List Text) → no_stars segs ≡ true → Accepts (map piece_of segs) es → es ≡ segs
Accepts-exact [] es h a = a
Accepts-exact (seg ∷ segs) es h a =
    let (rest, e, more) : Accepts (exact seg ∷ map piece_of segs) es =
      subst (λ q. Accepts (q ∷ map piece_of segs) es) (star_free seg (ground arith)) a in
    e ∙ ap (◌∷◌ seg) (Accepts-exact segs rest (ground arith) more)

pieces-Accepts :
    (segs : List Text) (h : Text) (t : List Text) (s : Text)
    → segs ≡ h ∷ t
    → Clean (map piece_of segs)
    → Reads (map piece_of segs) s
    → Accepts (map piece_of segs) (split s)
pieces-Accepts [] h t s e clean r = cc
pieces-Accepts (g ∷ gs) h t s e clean r = Reads-Accepts (piece_of g) (map piece_of gs) s clean r

pieces-Reads :
    (segs : List Text) (h : Text) (t : List Text) (s : Text)
    → segs ≡ h ∷ t
    → Accepts (map piece_of segs) (split s)
    → Reads (map piece_of segs) s
pieces-Reads [] h t s e a = cc
pieces-Reads (g ∷ gs) h t s e a =
    subst (Reads (map piece_of (g ∷ gs))) (join-split s)
      (Accepts-Reads (piece_of g) (map piece_of gs) (split s) (no_dots-split s) a)

-- A bare star or two, or the segments of the pattern against those of the event.
abbrev pub Matches : Text → Text → Type 0
Matches event pattern = (is_bare pattern ≡ true) ⊎ Accepts (pieces pattern) (split event)

match-Matches :
    (event pattern : Text) → match_pieces (pieces pattern) event ≡ true → Matches event pattern
match-Matches event pattern h =
    let (p, ps, e) = split-cons pattern in
    inr (
      pieces-Accepts (split pattern) p ps event e
        (Clean-map (split pattern) (no_dots-split pattern))
        (match_pieces-Reads (pieces pattern) event h))

Accepts-match :
    (event pattern : Text)
    → Accepts (pieces pattern) (split event)
    → match_pieces (pieces pattern) event ≡ true
Accepts-match event pattern a =
    let (p, ps, e) = split-cons pattern in
    Reads-match_pieces (pieces pattern) event (pieces-Reads (split pattern) p ps event e a)

-- An event that a pattern without a star accepts is the pattern.
starless_eq :
    (event pattern : Text)
    → has_star pattern ≡ false
    → Accepts (pieces pattern) (split event)
    → pattern ≡ event
starless_eq event pattern h a =
    let e = Accepts-exact (split pattern) (split event) (no_stars-split pattern h) a in
    sym (sym (join-split event) ∙ ap join e ∙ join-split pattern)

matches_pattern-Matches :
    (event pattern : Text) → matches_pattern event pattern ≡ true → Matches event pattern
unfolding matches_pattern
matches_pattern-Matches event pattern h = elim (text_discrete pattern event) [
  | yes same ↦
      let self = Accepts-self (split pattern) (no_dots-split pattern) in
      inr (subst (λ (s : Text). Accepts (pieces pattern) (split s)) same self)
  | no other ↦ elim (Bool-cases (is_bare pattern)) [
    | inl bare ↦ inl bare
    | inr full ↦ elim (Bool-cases (has_star pattern)) [
      | inr without ↦
          let never : false ≡ true =
            rw (if_neg (text_discrete pattern event) other, full, without) at h in
          ground arith
      | inl starred ↦
          let found : match_pieces (pieces pattern) event ≡ true =
            rw (if_neg (text_discrete pattern event) other, full, starred) at h in
          match-Matches event pattern found
    ]
  ]
]

Matches-matches_pattern :
    (event pattern : Text) → Matches event pattern → matches_pattern event pattern ≡ true
unfolding matches_pattern
Matches-matches_pattern event pattern (inl bare) = elim (text_discrete pattern event) [
  | yes same ↦ rw (if_pos (text_discrete pattern event) same) refl
  | no other ↦ rw (if_neg (text_discrete pattern event) other, bare) refl
]
Matches-matches_pattern event pattern (inr a) = elim (text_discrete pattern event) [
  | yes same ↦ rw (if_pos (text_discrete pattern event) same) refl
  | no other ↦ elim (Bool-cases (is_bare pattern)) [
    | inl bare ↦ rw (if_neg (text_discrete pattern event) other, bare) refl
    | inr full ↦ elim (Bool-cases (has_star pattern)) [
      | inl starred ↦
          rw (if_neg (text_discrete pattern event) other, full, starred)
            (Accepts-match event pattern a)
      | inr without ↦ elim (other (starless_eq event pattern without a)) [ ]
    ]
  ]
]

-- `matchesEvent` answers true exactly if some pattern of the list is a bare `*` or `**`, or accepts
-- the event segment by segment between dots: a text takes the segment that it is, `*` one segment
-- that is not empty, `**` the segments of any part that is not empty and has no line break.
pub matches_event-Accepts :
    (event : Text) (patterns : List Text)
    → (matches_event event patterns ≡ true)
      ↔ ((pattern : Text) × (mem pattern patterns ≡ true) × Matches event pattern)
unfolding matches_event
matches_event-Accepts event patterns = (there patterns, λ x. back patterns x.0 x.1 x.2)
  where
    there :
        (ps : List Text)
        → matches_event event ps ≡ true
        → (pattern : Text) × (mem pattern ps ≡ true) × Matches event pattern
    there [] h = ground arith
    there (p ∷ ps) h = elim (Bool-cases (matches_pattern event p)) [
      | inl this ↦ (p, if_pos (text_discrete p p) refl _ _, matches_pattern-Matches event p this)
      | inr other ↦
          let (q, found, m) = there ps (ground (arith, other)) in (q, ground (arith, found), m)
    ]

    back :
        (ps : List Text) (pattern : Text)
        → mem pattern ps ≡ true
        → Matches event pattern
        → matches_event event ps ≡ true
    back [] pattern h m = ground arith
    back (p ∷ ps) pattern h m = elim (text_discrete p pattern) [
      | yes same ↦
          let this = Matches-matches_pattern event p (subst (Matches event) (sym same) m) in
          ground (arith, this)
      | no other ↦
          let later = back ps pattern (rw (if_neg (text_discrete p pattern) other) at h) m in
          ground (arith, later)
    ]
