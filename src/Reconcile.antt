-- ===== src/Reconcile.antt =====
-- The package reconciliation/: desired states, the attempts on them, and the engine that applies them.
pub mod Desired
pub mod Contracts
pub mod State
pub mod Engine
pub mod ManagedFile
