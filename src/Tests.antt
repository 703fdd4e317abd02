-- ===== src/Tests.antt =====
-- Runs of the models on concrete inputs.
mod Samples
mod Reconcile
mod Domain
mod Storage
mod Ledger
mod Runtime
mod Facts
mod Wire
mod Files
