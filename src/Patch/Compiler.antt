-- ===== src/Patch/Compiler.antt =====
-- internal/patch/compiler.go.
pub mod Normalize
pub mod Parameters
pub mod Spec
pub mod Stack
pub mod Operands
pub mod Compile
