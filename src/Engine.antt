-- ===== src/Engine.antt =====
-- crates/chasm-engine/src/engine.rs: the mock engine.
pub mod Values
pub mod Config
pub mod Status
pub mod Negotiation
pub mod Faker
pub mod Headers
pub mod Body
pub mod Mock
mod Tests
