-- ===== src/Api.antt =====
-- pkg/api: the HTTP side of the server.
pub mod Handlers
pub mod Server
