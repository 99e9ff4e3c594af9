-- ===== src/Message.antt =====
-- postgres-protocol/src/message and tokio-postgres/src/codec.rs: the messages of the protocol.
pub mod Frontend
pub mod Backend
