-- ===== src/Server.antt =====
-- crates/chasm-server/src/main.rs: the answer to a request, around the engine.
pub mod Http
pub mod Requests
pub mod Problems
pub mod Responses
pub mod Metrics
pub mod Routes
mod Tests
