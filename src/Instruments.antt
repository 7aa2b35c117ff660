-- ===== src/Instruments.antt =====
-- internal/instruments: the allocation of voices to notes.
pub mod Voices
