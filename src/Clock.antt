-- ===== src/Clock.antt =====
-- internal/clock: exact beats, and the tempo map that turns beats into frames.
pub mod Beat
pub mod Transport
