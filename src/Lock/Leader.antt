-- ===== src/Lock/Leader.antt =====
-- engine/lock/leader-election.ts, `LeaderElection`: the parts of a campaign and of `stop` before and after
-- the call of the lock that they await, over any lock.
use oqronkit.Prelude.{ℕ, Bool, true, false, Text}
use oqronkit.Lock.{LockAdapter, Reply, granted, refused, threw}

-- The constructor's arguments.
pub record Election : Type 0 where
  pub leader_key : Text
  pub node_id : Text
  pub ttl_ms : ℕ

-- What a node awaits: nothing, the reply of the lock to a campaign, or its release in `stop`.
pub data Phase : Type 0 where
  idle releasing : Phase
  asked : Reply → Phase

-- `_isLeader` after the reply: a refusal and an exception both clear it.
abbrev pub won : Reply → Bool
won granted = true
won refused = false
won threw = false

module _ (L : LockAdapter) where
  open L use {State, acquire, renew, release}

  -- The call of a campaign, beside `_isLeader`.
  unfoldable pub ask : Election → ℕ → State → Bool → State × Reply
  ask e now s true = renew e.leader_key e.node_id e.ttl_ms now s
  ask e now s false = acquire e.leader_key e.node_id e.ttl_ms now s

  -- A leader releases its lease, and counts itself leader until that returns or fails.
  unfoldable pub begin_stop : Election → State → Bool → State × Phase
  begin_stop e s true = (release e.leader_key e.node_id s, releasing)
  begin_stop e s false = (s, idle)

-- `_isLeader` after the release.
abbrev pub after_release : Bool
after_release = false
