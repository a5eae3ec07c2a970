-- ===== src/Heartbeat.antt =====
-- engine/lock/heartbeat-worker.ts, `HeartbeatWorker`, over any lock. A call reads the clock once, as
-- `now`. The callback that extends the broker's claim is not modelled: what it throws is caught.
use oqronkit.Prelude.{
  ℕ, ◌+◌, ◌≡◌, Bool, true, false, List, [], ◌∷◌, Text, if◌then◌else◌, Bool-cases, inl, inr, ap,
  arith,
}
use oqronkit.Lock.{LockAdapter, Reply, granted, refused, threw}

pub record Heartbeat : Type 0 where
  pub key : Text
  pub owner_id : Text
  pub ttl_ms : ℕ
  pub active : Bool
  -- whether the interval is set
  pub timer : Bool
  -- how often `onLockLost` was called
  pub lost : ℕ

module _ (L : LockAdapter) where
  -- `start`, with the lock's reply: it returns true if that is `granted`, false if it is `refused`.
  unfoldable pub start : Heartbeat → ℕ → L.State → (L.State × Heartbeat) × Reply
  start h now s =
      let (s', reply) = L.acquire h.key h.owner_id h.ttl_ms now s in
      elim reply [
        | granted ↦ ((s', record h { active = true; timer = true }), granted)
        | refused ↦ ((s', h), refused)
        | threw ↦ ((s', h), threw)
      ]

  -- What a tick makes of the reply to `renew`.
  abbrev pub renewed : Reply → Heartbeat → Heartbeat
  renewed granted h = h
  renewed refused h = record h { active = false; timer = false; lost = h.lost + 1 }
  renewed threw h = h

  -- The callback of the interval.
  unfoldable pub tick : Heartbeat → ℕ → L.State → L.State × Heartbeat
  tick h now s =
      let (s', reply) = L.renew h.key h.owner_id h.ttl_ms now s in
      if h.active then (s', renewed reply h) else (s, h)

  unfoldable pub stop : Heartbeat → L.State → L.State × Heartbeat
  stop h s = (L.release h.key h.owner_id s, record h { active = false; timer = false })

  -- Ticks at the given times; before each of them others use the lock.
  unfoldable pub beat : List (ℕ × (L.State → L.State)) → L.State × Heartbeat → L.State × Heartbeat
  beat [] (s, h) = (s, h)
  beat ((now, others) ∷ ticks) (s, h) = beat ticks (tick h now (others s))

  -- An active worker has its timer and was not told of a loss; one that lost the lock was told once.
  abbrev pub Told : Heartbeat → Type 0
  Told h = (h.timer ≡ h.active) × (h.lost + (if h.active then 1 else 0) ≡ 1)

  tick-Told : (h : Heartbeat) (now : ℕ) (s : L.State) → Told h → Told (tick h now s).1
  unfolding tick
  tick-Told h now s told = elim (Bool-cases h.active) [
    | inl running ↦
        let e : (tick h now s).1 ≡ renewed (L.renew h.key h.owner_id h.ttl_ms now s).1 h =
          ap (λ r. r.1) (active_tick running) in
        rw e (go running (L.renew h.key h.owner_id h.ttl_ms now s).1)
    | inr ended ↦ let e : (tick h now s).1 ≡ h = ap (λ r. r.1) (ended_tick ended) in rw e told
  ]
    where
      active_tick :
          h.active ≡ true
          → tick h now s ≡ (
            (L.renew h.key h.owner_id h.ttl_ms now s).0,
            renewed (L.renew h.key h.owner_id h.ttl_ms now s).1 h,
          )
      active_tick running = ground arith

      ended_tick : h.active ≡ false → tick h now s ≡ (s, h)
      ended_tick ended = ground arith

      go : h.active ≡ true → (reply : Reply) → Told (renewed reply h)
      go running granted = told
      go running refused = ground arith
      go running threw = told

  beat-Told :
      (ticks : List (ℕ × (L.State → L.State))) (s : L.State) (h : Heartbeat)
      → Told h
      → Told (beat ticks (s, h)).1
  unfolding beat
  beat-Told [] s h told = told
  beat-Told ((now, others) ∷ ticks) s h told =
      beat-Told ticks (tick h now (others s)).0 (tick h now (others s)).1
        (tick-Told h now (others s) told)

  started-Told :
      (h : Heartbeat) (now : ℕ) (s : L.State)
      → h.lost ≡ 0
      → (start h now s).1 ≡ granted
      → Told (start h now s).0.1
  unfolding start
  started-Told h now s fresh won = ground arith

-- A worker that has told of no loss and starts with the lock granted, after any ticks with any use
-- of the lock by others in between: its timer is set exactly if it is active, and it has called
-- `onLockLost` once if it is no longer active and never if it is.
pub lock_loss_reported :
    (L : LockAdapter) (h : Heartbeat) (now : ℕ) (s : L.State)
    (ticks : List (ℕ × (L.State → L.State)))
    → h.lost ≡ 0
    → (start L h now s).1 ≡ granted
    → Told L (beat L ticks (start L h now s).0).1
lock_loss_reported L h now s ticks fresh won =
    beat-Told L ticks (start L h now s).0.0 (start L h now s).0.1 (started-Told L h now s fresh won)
