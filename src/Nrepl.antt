-- ===== src/Nrepl.antt =====
-- internal/nrepl: the server that evaluates what clients send.
pub mod Buffer
pub mod Server
mod Tests
