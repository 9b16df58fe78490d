-- ===== src/Client.antt =====
-- The clients of the other services (client/). What a server answers is a parameter.
pub mod Model
pub mod Http
pub mod Core
pub mod Cms
pub mod Guacamole
pub mod Rustfs
