-- ===== src/PoiGenerator.antt =====
-- poi_generator/: the Proof of Intent, its signature, and the callback that makes one for each tool
-- call.
pub mod Models
pub mod AgentKeys
pub mod Poi
pub mod Callback
mod Tests
