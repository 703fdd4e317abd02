-- ===== src/Table.antt =====
-- The statements of SQL that the storage code uses, over a table as the list of its rows in the
-- order of their row ids.
mod Defs
pub mod Laws
unfoldable pub use Defs.*
