-- ===== src/Service.antt =====
-- The service layer (service/).
pub mod Cleanup
pub mod Redis
pub mod Action
pub mod Preserve
pub mod Network
pub mod Guacamole
pub mod Vm
pub mod Wire
pub mod Snapshot
pub mod Usage
pub mod Sound
