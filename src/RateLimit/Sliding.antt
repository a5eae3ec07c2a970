-- ===== src/RateLimit/Sliding.antt =====
-- ratelimit/algorithms/sliding-window.ts, `SlidingWindowAlgorithm`. An entry is its instant.
use oqronkit.Prelude.{
  ℕ, ◌+◌, ◌-◌, ◌≡◌, ◌≤◌, ite, true, false, Option, none, some, List, [], ◌∷◌, Text, text_discrete,
  ltb, if◌then◌else◌, arith, Bool-cases, inl, inr, ap, if_neg, ltb→le, length,
}
use oqronkit.Storage.{Storage}
use oqronkit.Window.{
  prune, push_times, inside, Tracks, prune-Tracks, push-Tracks, length-prune, live-prune,
  empty-Tracks, later-Tracks,
}
use oqronkit.RateLimit.{AlgorithmResult, Usage}

pub record SlidingWindowState : Type 0 where
  pub entries : List ℕ
  -- read by the storage's pruning only
  pub created_at : ℕ

-- `state?.entries ?? []`
abbrev pub entries_of : Option SlidingWindowState → List ℕ
entries_of none = []
entries_of (some st) = st.entries

-- `Math.max(0, oldestTs + windowMs - now)`; the subtraction stops at 0.
abbrev pub reset_in : ℕ → ℕ → List ℕ → ℕ
reset_in window now [] = now + window - now
reset_in window now (oldest ∷ es) = oldest + window - now

module _ (S : Storage SlidingWindowState) where
  open S use {State, get, save}

  unfoldable pub consume : Text → ℕ → ℕ → ℕ → ℕ → State → State × AlgorithmResult
  consume key max window cost now s =
      let entries = prune window now (entries_of (get key s)) in
      let entries' = push_times cost now entries in
      if ltb max (length entries + cost)
      then (
        s,
        record {
          allowed = false;
          current = length entries;
          reset_ms = reset_in window now entries;
        },
      )
      else (
        save key (record { entries = entries'; created_at = now + window }) s,
        record {
          allowed = true;
          current = length entries';
          reset_ms = reset_in window now entries';
        },
      )

  unfoldable pub peek : Text → ℕ → ℕ → State → Usage
  peek key window now s =
      let entries = prune window now (entries_of (get key s)) in
      record { current = length entries; reset_ms = reset_in window now entries }

  pub record Request : Type 0 where
    pub key : Text
    pub cost : ℕ
    pub at : ℕ

module _ (S : Storage SlidingWindowState) (max window : ℕ) (key : Text) where
  open S use {State, get, get-save}

  abbrev Req : Type 0
  Req = Request S

  -- One request, and the instants of all units that the key was allowed.
  abbrev pub serve : Req → State × List ℕ → State × List ℕ
  serve r (s, log) =
      let (s', result) = consume S r.key max window r.cost r.at s in
      (
        s',
        if result.allowed
            then ite (text_discrete r.key key) (push_times r.cost r.at log) log
            else log,
      )

  abbrev pub serve_all : List Req → State × List ℕ → State × List ℕ
  serve_all [] st = st
  serve_all (r ∷ rs) st = serve_all rs (serve r st)

  -- The clock does not run backwards.
  abbrev pub InOrder : ℕ → List Req → Type 0
  InOrder last [] = Unit {0}
  InOrder last (r ∷ rs) = (last ≤ r.at) × InOrder r.at rs

  abbrev Kept : ℕ → State × List ℕ → Type 0
  Kept last st = Tracks window max last (entries_of (get key st.0)) st.1

  serve-Kept :
      (last : ℕ) (r : Req) (s : State) (log : List ℕ)
      → last ≤ r.at
      → Kept last (s, log)
      → Kept r.at (serve r (s, log))
  unfolding consume
  serve-Kept last r s log h v =
      let v' = later-Tracks window max last r.at (entries_of (get key s)) log h v in
      elim (Bool-cases (ltb max (length (prune window r.at (entries_of (get r.key s))) + r.cost))) [
        | inl full ↦ rw (full, consume) v'
        | inr room ↦ elim (text_discrete r.key key) [
          | yes same ↦
              let kept = entries_of (get key s) in
              let entry : SlidingWindowState = record {
                entries = push_times r.cost r.at (prune window r.at (entries_of (get r.key s)));
                created_at = r.at + window;
              } in
              let new_kept : entries_of (get key (serve r (s, log)).0)
                  ≡ push_times r.cost r.at (prune window r.at kept) =
                ground (arith, get-save key r.key entry s, ap (λ k. entries_of (get k s)) same) in
              let new_log : (serve r (s, log)).1 ≡ push_times r.cost r.at log = ground arith in
              rw (new_kept, new_log)
                (push-Tracks window max r.at r.at r.cost (prune window r.at kept) log (omega arith)
                  (omega (
                    arith,
                    length-prune window r.at kept,
                    live-prune window r.at r.at kept (omega arith),
                    ltb→le _ _ room,
                    ap (λ k. length (prune window r.at (entries_of (get k s)))) same,
                  ))
                  (prune-Tracks window max last r.at kept log h v))
          | no other ↦
              rw
                (
                  room,
                  consume,
                  get-save,
                  if_neg (text_discrete r.key key) other,
                  if_neg (text_discrete r.key key) other,
                )
                v'
        ]
      ]

  serve_all-Kept :
      (last : ℕ) (rs : List Req) (s : State) (log : List ℕ) (t : ℕ)
      → InOrder last rs
      → Kept last (s, log)
      → inside window t (serve_all rs (s, log)).1 ≤ max
  serve_all-Kept last [] s log t o v = v.bounded t
  serve_all-Kept last (r ∷ rs) s log t o v =
      serve_all-Kept r.at rs (serve r (s, log)).0 (serve r (s, log)).1 t o.1
        (serve-Kept last r s log o.0 v)

  -- Requests of any keys served in the order of the clock, from a storage without a record of the
  -- key: the units that one key was allowed within any window of the given length are at most
  -- `max`.
  pub sliding_window_bounded :
      (rs : List Req) (s : State) (t : ℕ)
      → get key s ≡ none
      → InOrder 0 rs
      → inside window t (serve_all rs (s, [])).1 ≤ max
  sliding_window_bounded rs s t fresh o =
      serve_all-Kept 0 rs s [] t o (rw fresh (empty-Tracks window max))
