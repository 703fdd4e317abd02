-- ===== src/Transport.antt =====
-- transport: the wire protocol, its reader, and the requests of the client.
pub mod Wire
pub mod Socket
pub mod Reader
pub mod Client
