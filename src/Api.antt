-- ===== src/Api.antt =====
-- The HTTP server (api/).
pub mod UpdateRedis
pub mod Response
pub mod Requests
pub mod Handlers
pub mod Server
