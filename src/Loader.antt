-- ===== src/Loader.antt =====
-- crates/chasm-engine/src/loader.rs.
pub mod Yaml
pub mod Pointers
pub mod Schemas
pub mod Semantics
pub mod Places
pub mod Normalize
pub mod Load
pub mod Tests
