-- ===== src/Faker.antt =====
-- crates/chasm-faker: the static walk, and what it is built on.
pub mod Merge
pub mod Strings
pub mod RefResolver
pub mod Static
pub mod Walk
pub mod Tests
