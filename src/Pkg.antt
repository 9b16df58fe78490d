-- ===== src/Pkg.antt =====
-- The packages under pkg/.
pub mod Network
pub mod Crypto
pub mod Guacamole
