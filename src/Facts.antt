-- ===== src/Facts.antt =====
-- ingest.py and storage/facts.py: the projection of events to redacted facts.
pub mod Keys
pub mod Redact
pub mod Store
pub mod Ingest
