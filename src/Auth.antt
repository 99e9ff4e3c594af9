-- ===== src/Auth.antt =====
-- postgres-protocol/src/authentication/, password/mod.rs and hex.rs: the answers of the client to the
-- server's requests for authentication.
pub mod Crypto
pub mod Parser
pub mod Scram
pub mod Password
pub mod Server
pub mod Exchange
pub mod Plain
