-- ===== src/Lock.antt =====
-- engine/types/engine.ts, `ILockAdapter`: what the engines rely on of a distributed lock. A call
-- takes the clock's reading as `now`, may throw, and returns the adapter's new state.
pub mod Memory
pub mod Leader
pub mod Safety
use oqronkit.Prelude.{ℕ, ◌+◌, ◌<◌, ◌≡◌, ◌≢◌, ◌⊎◌, Bool, true, false, Option, none, some, Text}

pub record Lease : Type 0 where
  pub owner : Text
  pub expires_at : ℕ

pub data Reply : Type 0 where
  granted refused threw : Reply

-- The lease on each key, if there is one, lapsed or not.
abbrev pub Leases : Type 0
Leases = Text → Option Lease

-- The key is leased to the owner until `now + ttl`. No live lease of another owner was taken, and
-- no other key was touched.
pub record Grants (key owner : Text) (ttl now : ℕ) (before after : Leases) : Type 0 where
  pub leased : after key ≡ some (record { owner = owner; expires_at = now + ttl })
  pub fair : (l : Lease) → before key ≡ some l → l.owner ≢ owner → l.expires_at < now
  pub frame : (j : Text) → j ≢ key → after j ≡ before j

abbrev pub Same : Leases → Leases → Type 0
Same before after = (j : Text) → after j ≡ before j

-- A call that throws may or may not have reached the lock.
abbrev pub Effect : Reply → Text → Text → ℕ → ℕ → Leases → Leases → Type 0
Effect granted key owner ttl now before after = Grants key owner ttl now before after
Effect refused key owner ttl now before after = Same before after
Effect threw key owner ttl now before after =
    Grants key owner ttl now before after ⊎ Same before after

-- A release drops the caller's own lease on the key at most.
abbrev pub Drops : Text → Text → Leases → Leases → Type 0
Drops key owner before after =
    (j : Text)
    → (after j ≡ before j)
      ⊎ ((j ≡ key) × ((l : Lease) → before key ≡ some l → l.owner ≡ owner) × (after j ≡ none))

pub record LockAdapter : Type 1 where
  pub State : Type 0
  pub acquire : Text → Text → ℕ → ℕ → State → State × Reply
  pub renew : Text → Text → ℕ → ℕ → State → State × Reply
  pub release : Text → Text → State → State
  pub is_owner : Text → Text → ℕ → State → Bool
  pub leases : State → Leases
  pub acquire-Effect :
      (key owner : Text) (ttl now : ℕ) (s : State)
      → Effect
          (acquire key owner ttl now s).1
          key
          owner
          ttl
          now
          (leases s)
          (leases (acquire key owner ttl now s).0)
  pub renew-Effect :
      (key owner : Text) (ttl now : ℕ) (s : State)
      → Effect
          (renew key owner ttl now s).1
          key
          owner
          ttl
          now
          (leases s)
          (leases (renew key owner ttl now s).0)
  pub release-Drops :
      (key owner : Text) (s : State) → Drops key owner (leases s) (leases (release key owner s))
  pub is_owner_lem :
      (key owner : Text) (now : ℕ) (s : State)
      → is_owner key owner now s ≡ true
      → (l : Lease) × (leases s key ≡ some l) × (l.owner ≡ owner) × (now < l.expires_at)
