-- ===== src/Patch.antt =====
-- internal/patch: the model of patches, the compiler and the registry.
pub mod Names
pub mod Model
pub mod Sointu
pub mod Schema
pub mod Compiler
pub mod Registry
pub mod Tests
