-- ===== src/Audio.antt =====
-- internal/audio: the engine that plays the events, its controls and its automation.
pub mod Synth
pub mod State
pub mod Controls
pub mod Lanes
pub mod Automation
pub mod Engine
pub mod Render
mod Tests
pub mod Offline
pub mod PatchUpdate
