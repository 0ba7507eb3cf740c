-- ===== src/Validation.antt =====
-- crates/chasm-engine/src/validation.rs: the validation of a request.
pub mod Errors
pub mod Library
pub mod Regex
pub mod Formats
pub mod Coercion
pub mod Checked
pub mod Equality
pub mod Scalars
pub mod Values
pub mod Dispatch
pub mod DeepObjects
pub mod Parameters
pub mod Forms
pub mod Multipart
pub mod Body
pub mod Whole
pub mod Tests
