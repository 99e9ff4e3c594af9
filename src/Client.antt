-- ===== src/Client.antt =====
-- tokio-postgres/src: the client's side of a session.
pub mod DbError
pub mod Connection
pub mod Startup
pub mod Connect
