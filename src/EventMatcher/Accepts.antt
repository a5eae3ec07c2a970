-- ===== src/EventMatcher/Accepts.antt =====
-- The matcher on the segments of the event.
use oqronkit.Prelude.{
  ℕ, ◌≡◌, refl, sym, ap, ◌∙◌, inl, inr, Bool, true, false, ◌&&◌, List, [], ◌∷◌, ◌++◌, Text, arith,
  Bool-cases,
}
use mathlib.Core.List.{append-nil}
use oqronkit.EventMatcher.{
  Piece, one_segment, many_segments, exact, dot, is_dot, no_dot, plain, split, push_head,
}
use oqronkit.EventMatcher.Segments.{all_units, nonempty, Fits, Reads}

-- The pieces of a pattern against the segments of an event: `*` takes one segment that is not empty, a
-- text takes itself, `**` takes the segments of a part that is not empty and has no line break.
abbrev pub Accepts : List Piece → List Text → Type 0
Accepts [] es = es ≡ []
Accepts (one_segment ∷ ps) es =
    (u : Text) × (rest : List Text) × (es ≡ u ∷ rest) × (nonempty u ≡ true) × Accepts ps rest
Accepts (many_segments ∷ ps) es =
    (u : Text) × (rest : List Text) × (es ≡ split u ++ rest)
    × (nonempty u ≡ true)
    × (all_units plain u ≡ true)
    × Accepts ps rest
Accepts (exact x ∷ ps) es = (rest : List Text) × (es ≡ x ∷ rest) × Accepts ps rest

abbrev pub join : List Text → Text
join [] = []
join (s ∷ []) = s
join (s ∷ t ∷ ss) = s ++ dot ∷ join (t ∷ ss)

abbrev pub no_dots : List Text → Bool
no_dots [] = true
no_dots (s ∷ ss) = all_units no_dot s && no_dots ss

pub split-cons : (s : Text) → (h : Text) × (t : List Text) × (split s ≡ h ∷ t)
unfolding split
split-cons [] = ([], [], refl)
split-cons (c ∷ cs) = elim (Bool-cases (is_dot c)) [
  | inl here ↦ ([], split cs, ground (arith, here))
  | inr away ↦ let (h, t, e) = split-cons cs in (c ∷ h, t, rw (away, e) refl)
]

push_head-append :
    (c : ℕ) (h : Text) (t es : List Text) (segs : List Text)
    → segs ≡ h ∷ t
    → push_head c (segs ++ es) ≡ push_head c segs ++ es
push_head-append c h t es segs e = rw e refl

split-append : (u v : Text) → split (u ++ dot ∷ v) ≡ split u ++ split v
unfolding split
split-append [] v = refl
split-append (c ∷ u) v =
    let (h, t, e) = split-cons u in
    elim (Bool-cases (is_dot c)) [
      | inl here ↦ rw (here, split-append u v) refl
      | inr away ↦ rw (away, split-append u v) (push_head-append c h t (split v) (split u) e)
    ]

pub split-no_dot : (u : Text) → all_units no_dot u ≡ true → split u ≡ u ∷ []
unfolding split all_units
split-no_dot [] h = refl
split-no_dot (c ∷ u) h = elim (Bool-cases (is_dot c)) [
  | inl here ↦ ground (arith, here)
  | inr away ↦ rw (away, split-no_dot u (ground (arith, away))) refl
]

no_dots-push_head :
    (c : ℕ) (segs : List Text)
    → is_dot c ≡ false
    → no_dots segs ≡ true
    → no_dots (push_head c segs) ≡ true
unfolding all_units
no_dots-push_head c [] away h = ground (arith, away)
no_dots-push_head c (s ∷ ss) away h = ground (arith, away)

pub no_dots-split : (s : Text) → no_dots (split s) ≡ true
unfolding split all_units
no_dots-split [] = refl
no_dots-split (c ∷ cs) = elim (Bool-cases (is_dot c)) [
  | inl here ↦ rw here (no_dots-split cs)
  | inr away ↦ rw away (no_dots-push_head c (split cs) away (no_dots-split cs))
]

no_dots-append : (xs ys : List Text) → no_dots (xs ++ ys) ≡ true → no_dots ys ≡ true
no_dots-append [] ys h = h
no_dots-append (x ∷ xs) ys h = no_dots-append xs ys (ground arith)

join-dot : (h : Text) (t segs : List Text) → segs ≡ h ∷ t → join ([] ∷ segs) ≡ dot ∷ join segs
join-dot h t segs e = rw e refl

join-push_cons : (c : ℕ) (h : Text) (t : List Text) → join (push_head c (h ∷ t)) ≡ c ∷ join (h ∷ t)
join-push_cons c h [] = refl
join-push_cons c h (w ∷ t) = refl

join-push_head :
    (c : ℕ) (h : Text) (t segs : List Text) → segs ≡ h ∷ t → join (push_head c segs) ≡ c ∷ join segs
join-push_head c h t segs e = rw e (join-push_cons c h t)

dot_eq : (c : ℕ) → is_dot c ≡ true → dot ≡ c
dot_eq c h = ground arith

-- A part and the segments after it.
join-split-append :
    (u r : Text) (rs : List Text) → join (split u ++ r ∷ rs) ≡ u ++ dot ∷ join (r ∷ rs)
unfolding split
join-split-append [] r rs = refl
join-split-append (c ∷ u) r rs =
    let (h, t, e) = split-cons u in
    let e' : split u ++ r ∷ rs ≡ h ∷ (t ++ r ∷ rs) = ap (λ (x : List Text). x ++ r ∷ rs) e in
    elim (Bool-cases (is_dot c)) [
      | inl here ↦ rw here (
          join-dot h (t ++ r ∷ rs) (split u ++ r ∷ rs) e'
          ∙ (λ i. dot_eq c here i ∷ join-split-append u r rs i))
      | inr away ↦ rw away (
          ap join (sym (push_head-append c h t (r ∷ rs) (split u) e))
          ∙ join-push_head c h (t ++ r ∷ rs) (split u ++ r ∷ rs) e'
          ∙ ap (◌∷◌ c) (join-split-append u r rs))
    ]

pub join-split : (s : Text) → join (split s) ≡ s
unfolding split
join-split [] = refl
join-split (c ∷ cs) =
    let (h, t, e) = split-cons cs in
    elim (Bool-cases (is_dot c)) [
      | inl here ↦ rw here (join-dot h t (split cs) e ∙ (λ i. dot_eq c here i ∷ join-split cs i))
      | inr away ↦ rw away (join-push_head c h t (split cs) e ∙ ap (◌∷◌ c) (join-split cs))
    ]

-- A part that fits the first piece, and segments that the others accept.
Fits-Accepts :
    (p : Piece) (ps : List Piece) (u : Text) (es : List Text)
    → (p ≡ exact u → all_units no_dot u ≡ true)
    → Fits p u
    → Accepts ps es
    → Accepts (p ∷ ps) (split u ++ es)
Fits-Accepts one_segment ps u es clean (full, all) a =
    (u, es, ap (λ (x : List Text). x ++ es) (split-no_dot u all), full, a)
Fits-Accepts many_segments ps u es clean (full, all) a = (u, es, refl, full, all, a)
Fits-Accepts (exact x) ps u es clean e a = (
  es,
  ap (λ (x : List Text). x ++ es) (split-no_dot u (clean (ap exact (sym e)))) ∙ ap (λ x. x ∷ es) e,
  a,
)

-- And back.
Accepts-Fits :
    (p : Piece) (ps : List Piece) (es : List Text)
    → no_dots es ≡ true
    → Accepts (p ∷ ps) es
    → (u : Text) × (rest : List Text) × (es ≡ split u ++ rest) × Fits p u × Accepts ps rest
Accepts-Fits one_segment ps es clean (u, rest, e, full, a) =
    let all : all_units no_dot u ≡ true = ground (arith, e, clean) in
    (u, rest, e ∙ sym (ap (λ (x : List Text). x ++ rest) (split-no_dot u all)), (full, all), a)
Accepts-Fits many_segments ps es clean (u, rest, e, full, all, a) = (u, rest, e, (full, all), a)
Accepts-Fits (exact x) ps es clean (rest, e, a) =
    let all : all_units no_dot x ≡ true = ground (arith, e, clean) in
    (x, rest, e ∙ sym (ap (λ (y : List Text). y ++ rest) (split-no_dot x all)), refl, a)

-- The exact pieces have no dot.
abbrev pub Clean : List Piece → Type 0
Clean [] = Unit {0}
Clean (one_segment ∷ ps) = Clean ps
Clean (many_segments ∷ ps) = Clean ps
Clean (exact x ∷ ps) = (all_units no_dot x ≡ true) × Clean ps

Clean-head :
    (p : Piece) (ps : List Piece) (u : Text)
    → Clean (p ∷ ps)
    → p ≡ exact u
    → all_units no_dot u ≡ true
Clean-head one_segment ps u c e = cc
Clean-head many_segments ps u c e = cc
Clean-head (exact x) ps u c e = let same : x ≡ u = cc in rw (sym same) c.0

Clean-tail : (p : Piece) (ps : List Piece) → Clean (p ∷ ps) → Clean ps
Clean-tail one_segment ps c = c
Clean-tail many_segments ps c = c
Clean-tail (exact x) ps c = c.1

pub Reads-Accepts :
    (p : Piece) (ps : List Piece) (s : Text)
    → Clean (p ∷ ps)
    → Reads (p ∷ ps) s
    → Accepts (p ∷ ps) (split s)
Reads-Accepts p [] s c fits =
    rw (sym (append-nil (split s))) (Fits-Accepts p [] s [] (Clean-head p [] s c) fits refl)
Reads-Accepts p (q ∷ ps) s c (u, v, e, fits, more) =
    rw (e, split-append u v)
      (Fits-Accepts p (q ∷ ps) u (split v) (Clean-head p (q ∷ ps) u c) fits
        (Reads-Accepts q ps v (Clean-tail p (q ∷ ps) c) more))

Accepts-cons :
    (p : Piece) (ps : List Piece) (es : List Text)
    → Accepts (p ∷ ps) es
    → (h : Text) × (t : List Text) × (es ≡ h ∷ t)
Accepts-cons one_segment ps es (u, rest, e, full, a) = (u, rest, e)
Accepts-cons many_segments ps es (u, rest, e, full, all, a) =
    let (h, t, e') = split-cons u in (h, t ++ rest, e ∙ ap (λ (x : List Text). x ++ rest) e')
Accepts-cons (exact x) ps es (rest, e, a) = (x, rest, e)

pub Accepts-Reads :
    (p : Piece) (ps : List Piece) (es : List Text)
    → no_dots es ≡ true
    → Accepts (p ∷ ps) es
    → Reads (p ∷ ps) (join es)
Accepts-Reads p [] es clean a =
    let (u, rest, e, fits, over) = Accepts-Fits p [] es clean a in
    let e' : es ≡ split u = e ∙ ap (λ (x : List Text). split u ++ x) over ∙ append-nil (split u) in
    rw (e', join-split u) fits
Accepts-Reads p (q ∷ ps) es clean a =
    let (u, rest, e, fits, more) = Accepts-Fits p (q ∷ ps) es clean a in
    let (h, t, e') = Accepts-cons q ps rest more in
    let clean' : no_dots rest ≡ true = no_dots-append (split u) rest (rw (sym e) clean) in
    (
      u,
      join rest,
      ap join (e ∙ ap (λ (x : List Text). split u ++ x) e')
          ∙ join-split-append u h t
          ∙ ap (λ (x : List Text). u ++ dot ∷ join x) (sym e'),
      fits,
      Accepts-Reads q ps rest clean' more,
    )
