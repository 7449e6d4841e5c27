-- ===== src/Transport.antt =====
-- transport: what the transports of the schemes share.
pub mod Url
