-- ===== src/Lisp.antt =====
-- internal/lisp: the functions that the Lisp code calls.
pub mod Install
pub mod Notes
pub mod Forms
pub mod Controls
pub mod NoteNames
pub mod Evaluate
mod Tests
