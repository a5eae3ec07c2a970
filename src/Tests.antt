-- ===== src/Tests.antt =====
-- Runs of the model at small inputs, and the theorems at inputs that meet their hypotheses.
mod Sample
mod Brokers
mod Locks
mod Limits
mod Caches
mod Circuits
mod Dependencies
mod Retentions
mod Stalls
mod MissedFires
mod Windows
mod Heartbeats
mod Executions
mod Events
mod Reconciles
mod Cached
mod Stores
