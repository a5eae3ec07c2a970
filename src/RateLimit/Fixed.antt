-- ===== src/RateLimit/Fixed.antt =====
-- ratelimit/algorithms/fixed-window.ts, `FixedWindowAlgorithm`.
use oqronkit.Prelude.{
  ℕ, ◌+◌, ◌-◌, ◌*◌, ◌/◌, ◌≡◌, ◌≢◌, ◌≤◌, ◌<◌, refl, ite, true, false, Option, none, some, List, [],
  ◌∷◌, Text, text_discrete, ltb, ◌==◌, if◌then◌else◌, arith, Bool-cases, inl, inr, sym, ◌∙◌, if_pos,
  if_neg, subst, ltb→le,
}
use oqronkit.Storage.{Storage}
use oqronkit.RateLimit.{AlgorithmResult, Usage}

pub record FixedWindowState : Type 0 where
  pub window_id : ℕ
  pub count : ℕ
  -- read by the storage's pruning only
  pub created_at : ℕ

-- `if (!state || state.windowId !== currentWindowId) state = { windowId, count: 0 }`
abbrev pub current_count : ℕ → Option FixedWindowState → ℕ
current_count window_id none = 0
current_count window_id (some st) = if st.window_id == window_id then st.count else 0

abbrev pub reset_in : ℕ → ℕ → ℕ
reset_in window now = (now / window + 1) * window - now

module _ (S : Storage FixedWindowState) where
  open S use {State, get, save}

  unfoldable pub consume : Text → ℕ → ℕ → ℕ → ℕ → State → State × AlgorithmResult
  consume key max window cost now s =
      if ltb max (count + cost)
      then (s, record { allowed = false; current = count; reset_ms = reset_in window now })
      else (
        save key
            (record {
              window_id = now / window;
              count = count + cost;
              created_at = now + reset_in window now;
            })
            s,
        record { allowed = true; current = count + cost; reset_ms = reset_in window now },
      )
    where
      count : ℕ
      count = current_count (now / window) (get key s)

  unfoldable pub peek : Text → ℕ → ℕ → State → Usage
  peek key window now s = record {
    current = current_count (now / window) (get key s);
    reset_ms = reset_in window now;
  }

  -- A request, and the log of the requests that were allowed.
  pub record Request : Type 0 where
    pub key : Text
    pub cost : ℕ
    pub at : ℕ

module _ (S : Storage FixedWindowState) (max window : ℕ) where
  open S use {State, get, get-save}

  abbrev Req : Type 0
  Req = Request S

  abbrev pub serve : Req → State × List Req → State × List Req
  serve r (s, log) =
      let (s', result) = consume S r.key max window r.cost r.at s in
      (s', if result.allowed then r ∷ log else log)

  abbrev pub serve_all : List Req → State × List Req → State × List Req
  serve_all [] st = st
  serve_all (r ∷ rs) st = serve_all rs (serve r st)

  -- What a key was allowed to spend in one window.
  unfoldable pub spent : Text → ℕ → List Req → ℕ
  spent key w [] = 0
  spent key w (r ∷ log) =
      if r.at / window == w
      then ite (text_discrete r.key key) (r.cost + spent key w log) (spent key w log)
      else spent key w log

  -- The clock does not run backwards.
  abbrev pub InOrder : ℕ → List Req → Type 0
  InOrder last [] = Unit {0}
  InOrder last (r ∷ rs) = (last ≤ r.at) × InOrder r.at rs

  -- The stored state against the log.
  abbrev Tracks : Text → ℕ → Option FixedWindowState → List Req → Type 0
  Tracks key last none log = (w : ℕ) → spent key w log ≡ 0
  Tracks key last (some st) log =
      (st.window_id ≤ last / window)
      × (spent key st.window_id log ≡ st.count)
      × ((w : ℕ) → spent key w log ≤ max)
      × ((w : ℕ) → st.window_id < w → spent key w log ≡ 0)

  spent_bounded :
      (key : Text) (last : ℕ) (o : Option FixedWindowState) (log : List Req) (w : ℕ)
      → Tracks key last o log
      → spent key w log ≤ max
  spent_bounded key last none log w v = omega (arith, v w)
  spent_bounded key last (some st) log w v = v.2 w

  div_mono : (a b : ℕ) → a ≤ b → a / window ≤ b / window
  div_mono a b h = grind arith

  later-Tracks :
      (key : Text) (last at : ℕ) (o : Option FixedWindowState) (log : List Req)
      → last ≤ at
      → Tracks key last o log
      → Tracks key at o log
  later-Tracks key last at none log h v = v
  later-Tracks key last at (some st) log h v =
      (omega (arith, div_mono last at h, v.0), v.1, v.2, v.3)

  spent-other :
      (key : Text) (r : Req) (log : List Req) (w : ℕ)
      → r.key ≢ key
      → spent key w (r ∷ log) ≡ spent key w log
  unfolding spent
  spent-other key r log w ne = ground arith

  other-Tracks :
      (key : Text) (last : ℕ) (r : Req) (o : Option FixedWindowState) (log : List Req)
      → r.key ≢ key
      → Tracks key last o log
      → Tracks key last o (r ∷ log)
  other-Tracks key last r none log ne v = λ w. spent-other key r log w ne ∙ v w
  other-Tracks key last r (some st) log ne v = (
    v.0,
    spent-other key r log st.window_id ne ∙ v.1,
    (λ w. rw (spent-other key r log w ne) (v.2 w)),
    λ w h. spent-other key r log w ne ∙ v.3 w h,
  )

  -- The count that a request reads is what the key has spent in the window.
  count-Tracks :
      (key : Text) (at : ℕ) (o : Option FixedWindowState) (log : List Req)
      → Tracks key at o log
      → current_count (at / window) o ≡ spent key (at / window) log
  count-Tracks key at none log v = sym (v (at / window))
  count-Tracks key at (some st) log v = ground (arith, v.3 (at / window), v.1, v.0)

  spent_after :
      (key : Text) (at : ℕ) (o : Option FixedWindowState) (log : List Req) (w : ℕ)
      → Tracks key at o log
      → at / window < w
      → spent key w log ≡ 0
  spent_after key at none log w v h = v w
  spent_after key at (some st) log w v h = v.3 w (omega (arith, v.0))

  own-Tracks :
      (r : Req) (o : Option FixedWindowState) (log : List Req) (created : ℕ)
      → Tracks r.key r.at o log
      → current_count (r.at / window) o + r.cost ≤ max
      → Tracks r.key r.at
          (some (record {
            window_id = r.at / window;
            count = current_count (r.at / window) o + r.cost;
            created_at = created;
          }))
          (r ∷ log)
  unfolding spent
  own-Tracks r o log created v room =
      let count = count-Tracks r.key r.at o log v in
      (
        omega arith,
        ground (arith, count),
        (λ w. ground (arith, count, spent_bounded r.key r.at o log w v)),
        λ w h. ground (arith, spent_after r.key r.at o log w v h),
      )

  serve_own :
      (r : Req) (s : State) (log : List Req)
      → Tracks r.key r.at (get r.key s) log
      → ltb max (current_count (r.at / window) (get r.key s) + r.cost) ≡ false
      → Tracks r.key r.at (get r.key (serve r (s, log)).0) (serve r (s, log)).1
  unfolding consume
  serve_own r s log v room =
      rw (room, consume, get-save, if_pos (text_discrete r.key r.key) refl)
        (own-Tracks r (get r.key s) log (r.at + reset_in window r.at) v (ltb→le _ _ room))

  serve-Tracks :
      (key : Text) (last : ℕ) (r : Req) (s : State) (log : List Req)
      → last ≤ r.at
      → Tracks key last (get key s) log
      → Tracks key r.at (get key (serve r (s, log)).0) (serve r (s, log)).1
  unfolding consume
  serve-Tracks key last r s log h v =
      let v' = later-Tracks key last r.at (get key s) log h v in
      elim (Bool-cases (ltb max (current_count (r.at / window) (get r.key s) + r.cost))) [
        | inl full ↦ rw (full, consume) v'
        | inr room ↦ elim (text_discrete r.key key) [
          | yes same ↦
              subst (λ k. Tracks k r.at (get k (serve r (s, log)).0) (serve r (s, log)).1) same
                (serve_own r s log (subst (λ k. Tracks k r.at (get k s) log) (sym same) v') room)
          | no other ↦
              rw (room, consume, get-save, if_neg (text_discrete r.key key) other)
                (other-Tracks key r.at r (get key s) log other v')
        ]
      ]

  serve_all-Tracks :
      (key : Text) (last : ℕ) (rs : List Req) (s : State) (log : List Req) (w : ℕ)
      → InOrder last rs
      → Tracks key last (get key s) log
      → spent key w (serve_all rs (s, log)).1 ≤ max
  serve_all-Tracks key last [] s log w o v = spent_bounded key last (get key s) log w v
  serve_all-Tracks key last (r ∷ rs) s log w o v =
      serve_all-Tracks key r.at rs (serve r (s, log)).0 (serve r (s, log)).1 w o.1
        (serve-Tracks key last r s log o.0 v)

  -- Requests of any keys served in the order of the clock, from a storage without a record of the
  -- key: the total cost that one key was allowed in any one window is at most `max`.
  pub fixed_window_bounded :
      (key : Text) (rs : List Req) (s : State) (w : ℕ)
      → get key s ≡ none
      → InOrder 0 rs
      → spent key w (serve_all rs (s, [])).1 ≤ max
  unfolding spent
  fixed_window_bounded key rs s w fresh o =
      serve_all-Tracks key 0 rs s [] w o (rw fresh (λ w. refl))

  -- `peek` right after `consume`, at the same instant, reports the usage and the reset time that
  -- `consume` returned, whether it allowed the request or not.
  pub peek-consume :
      (key : Text) (cost now : ℕ) (s : State)
      → let (s', result) = consume S key max window cost now s in
        peek S key window now s' ≡ record { current = result.current; reset_ms = result.reset_ms }
  unfolding consume peek
  peek-consume key cost now s =
      let count = current_count (now / window) (get key s) in
      ground (
        arith,
        get-save key key
            (record {
              window_id = now / window;
              count = count + cost;
              created_at = now + reset_in window now;
            })
            s,
      )
