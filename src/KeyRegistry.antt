-- ===== src/KeyRegistry.antt =====
-- key_registry/: the key records, their storage, and the registry.
pub mod Models
pub mod Storage
pub mod Registry
mod Tests
