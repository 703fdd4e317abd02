-- ===== src/Domain.antt =====
-- domain.py and domain_v2.py: event envelopes and their validation.
pub mod Patterns
pub mod Decimal
pub mod V1
pub mod V2
