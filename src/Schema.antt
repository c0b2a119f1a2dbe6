-- ===== src/Schema.antt =====
-- internal/schema/validator.go: the subset of JSON Schema by which tool arguments are checked.
pub mod Values
pub mod Check
pub mod Validate
pub mod Safety
pub mod Keywords
pub mod Panic
