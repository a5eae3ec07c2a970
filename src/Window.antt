-- ===== src/Window.antt =====
-- Counting instants in a sliding window: what engine/utils/throttle-gate.ts and
-- ratelimit/algorithms/sliding-window.ts share. An entry at `e` is in the window of length `d` that
-- ends at `t` if `t - d < e`, which over natural numbers is `t < e + d`.
use oqronkit.Prelude.{
  ℕ, suc, zero, ◌+◌, ◌≡◌, ◌≤◌, ◌<◌, refl, List, [], ◌∷◌, ◌++◌, ltb, leb, if◌then◌else◌, length,
  length-append, ◌*◌, arith, ◌∙◌, ◌&&◌, dec_lt,
}

-- `entries.filter((e) => e > now - d)`
unfoldable pub prune : ℕ → ℕ → List ℕ → List ℕ
prune d now [] = []
prune d now (e ∷ es) = if ltb now (e + d) then e ∷ prune d now es else prune d now es

-- `count` pushes of `now`
unfoldable pub push_times : ℕ → ℕ → List ℕ → List ℕ
push_times zero now es = es
push_times (suc n) now es = push_times n now (es ++ now ∷ [])

-- The entries that a prune at `t` keeps.
unfoldable pub live : ℕ → ℕ → List ℕ → ℕ
live d t [] = 0
live d t (e ∷ es) = if ltb t (e + d) then suc (live d t es) else live d t es

-- The entries in the window that ends at `t`, later ones not counted.
unfoldable pub inside : ℕ → ℕ → List ℕ → ℕ
inside d t [] = 0
inside d t (e ∷ es) = if ltb t (e + d) && leb e t then suc (inside d t es) else inside d t es

abbrev pub AllUpTo : ℕ → List ℕ → Type 0
AllUpTo t [] = Unit {0}
AllUpTo t (e ∷ es) = (e ≤ t) × AllUpTo t es

pub length-prune : (d now : ℕ) (es : List ℕ) → length (prune d now es) ≡ live d now es
unfolding prune live
length-prune d now [] = refl
length-prune d now (e ∷ es) = ground (arith, length-prune d now es)

-- A prune loses nothing that a later one would keep.
pub live-prune : (d now t : ℕ) (es : List ℕ) → now ≤ t → live d t (prune d now es) ≡ live d t es
unfolding prune live
live-prune d now t [] h = refl
live-prune d now t (e ∷ es) h = ground (arith, live-prune d now t es h)

live-later : (d s t : ℕ) (es : List ℕ) → s ≤ t → live d t es ≤ live d s es
unfolding live
live-later d s t [] h = omega arith
live-later d s t (e ∷ es) h = ground (arith, live-later d s t es h)

inside-le-live : (d t : ℕ) (es : List ℕ) → inside d t es ≤ live d t es
unfolding inside live
inside-le-live d t [] = omega arith
inside-le-live d t (e ∷ es) = ground (arith, inside-le-live d t es)

module _ (d t now : ℕ) where
  live-append : (es : List ℕ) → live d t (es ++ now ∷ []) ≡ live d t es + live d t (now ∷ [])
  unfolding live
  live-append [] = omega arith
  live-append (e ∷ es) = ground (arith, live-append es)

  inside-append :
      (es : List ℕ) → inside d t (es ++ now ∷ []) ≡ inside d t es + inside d t (now ∷ [])
  unfolding inside
  inside-append [] = omega arith
  inside-append (e ∷ es) = ground (arith, inside-append es)

  live-push_times :
      (n : ℕ) (es : List ℕ) → live d t (push_times n now es) ≡ live d t es + n * live d t (now ∷ [])
  unfolding push_times
  live-push_times zero es = omega arith
  live-push_times (suc n) es = omega (arith, live-push_times n (es ++ now ∷ []), live-append es)

  inside-push_times :
      (n : ℕ) (es : List ℕ)
      → inside d t (push_times n now es) ≡ inside d t es + n * inside d t (now ∷ [])
  unfolding push_times
  inside-push_times zero es = omega arith
  inside-push_times (suc n) es =
      omega (arith, inside-push_times n (es ++ now ∷ []), inside-append es)

pub length-push_times : (n now : ℕ) (es : List ℕ) → length (push_times n now es) ≡ length es + n
unfolding push_times
length-push_times zero now es = omega arith
length-push_times (suc n) now es =
    omega (arith, length-push_times n now (es ++ now ∷ []), length-append es (now ∷ []))

AllUpTo-mono : (s t : ℕ) (es : List ℕ) → s ≤ t → AllUpTo s es → AllUpTo t es
AllUpTo-mono s t [] h a = tt
AllUpTo-mono s t (e ∷ es) h a = (omega arith, AllUpTo-mono s t es h a.1)

AllUpTo-append : (t now : ℕ) (es : List ℕ) → now ≤ t → AllUpTo t es → AllUpTo t (es ++ now ∷ [])
AllUpTo-append t now [] h a = (h, tt)
AllUpTo-append t now (e ∷ es) h a = (a.0, AllUpTo-append t now es h a.1)

AllUpTo-push_times :
    (t now n : ℕ) (es : List ℕ) → now ≤ t → AllUpTo t es → AllUpTo t (push_times n now es)
unfolding push_times
AllUpTo-push_times t now zero es h a = a
AllUpTo-push_times t now (suc n) es h a =
    AllUpTo-push_times t now n (es ++ now ∷ []) h (AllUpTo-append t now es h a)

-- The entries kept, against the log of all that were ever admitted, up to the time `last`.
pub record Tracks (d max last : ℕ) (kept log : List ℕ) : Type 0 where
  pub agree : (t : ℕ) → last ≤ t → live d t kept ≡ live d t log
  pub past : AllUpTo last log
  pub bounded : (t : ℕ) → inside d t log ≤ max

pub prune-Tracks :
    (d max last now : ℕ) (kept log : List ℕ)
    → last ≤ now
    → Tracks d max last kept log
    → Tracks d max now (prune d now kept) log
prune-Tracks d max last now kept log h v = record {
  agree = λ t le. live-prune d now t kept le ∙ v.agree t (omega arith);
  past = AllUpTo-mono last now log h v.past;
  bounded = v.bounded;
}

inside_one : (d t now : ℕ) → (inside d t (now ∷ []) ≤ 1) × (t < now → inside d t (now ∷ []) ≡ 0)
unfolding inside
inside_one d t now = (ground arith, λ h. ground arith)

push_bounded :
    (d max now later n t : ℕ) (kept log : List ℕ)
    → now ≤ later
    → live d now kept + n ≤ max
    → Tracks d max now kept log
    → inside d t (push_times n later log) ≤ max
push_bounded d max now later n t kept log h room v = elim (dec_lt t later) [
  | yes early ↦
      let none_new : inside d t (later ∷ []) ≡ 0 = (inside_one d t later).1 early in
      rw (inside-push_times d t later n log, none_new) (omega (arith, v.bounded t))
  | no late ↦ grind (
    arith,
    inside-push_times d t later n log,
    (inside_one d t later).0,
    inside-le-live d t log,
    live-later d now t log,
    v.agree now,
  )
]

-- `n` more entries, as many as the window that ends at `now` has room for.
pub push-Tracks :
    (d max now later n : ℕ) (kept log : List ℕ)
    → now ≤ later
    → live d now kept + n ≤ max
    → Tracks d max now kept log
    → Tracks d max later (push_times n later kept) (push_times n later log)
push-Tracks d max now later n kept log h room v = record {
  agree = λ t le. omega (
    arith,
    live-push_times d t later n kept,
    live-push_times d t later n log,
    v.agree t (omega arith),
  );
  past = AllUpTo-push_times later later n log (omega arith) (AllUpTo-mono now later log h v.past);
  bounded = λ t. push_bounded d max now later n t kept log h room v;
}

inside_past : (d t : ℕ) (es : List ℕ) → AllUpTo t es → inside d t es ≡ live d t es
unfolding inside live
inside_past d t [] a = refl
inside_past d t (e ∷ es) a = ground (arith, inside_past d t es a.1)

-- What is kept never exceeds the limit.
pub live-Tracks :
    (d max last now : ℕ) (kept log : List ℕ)
    → last ≤ now
    → Tracks d max last kept log
    → live d now kept ≤ max
live-Tracks d max last now kept log h v = omega (
  arith,
  v.agree now h,
  inside_past d now log (AllUpTo-mono last now log h v.past),
  v.bounded now,
)

pub empty-Tracks : (d max : ℕ) → Tracks d max 0 [] []
unfolding live inside
empty-Tracks d max = record { agree = λ t h. refl; past = tt; bounded = λ t. omega arith }

-- Time passes and nothing is pruned.
pub later-Tracks :
    (d max last now : ℕ) (kept log : List ℕ)
    → last ≤ now
    → Tracks d max last kept log
    → Tracks d max now kept log
later-Tracks d max last now kept log h v = record {
  agree = λ t le. v.agree t (omega arith);
  past = AllUpTo-mono last now log h v.past;
  bounded = v.bounded;
}
