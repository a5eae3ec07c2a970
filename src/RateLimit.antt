-- ===== src/RateLimit.antt =====
-- ratelimit/types.ts: what the algorithms return.
pub mod Fixed
pub mod Sliding
pub mod Bucket
use oqronkit.Prelude.{ℕ, Bool}

pub record AlgorithmResult : Type 0 where
  pub allowed : Bool
  pub current : ℕ
  pub reset_ms : ℕ

pub record Usage : Type 0 where
  pub current : ℕ
  pub reset_ms : ℕ
