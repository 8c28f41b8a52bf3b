-- ===== src/Stream.antt =====
-- src/pwf_stream*.c, src/pwf_buffer.c, src/pwf_audio_format.c and src/pwf_video_format.c: one capture or
-- playback session.
mod Tests
pub mod State
pub mod Events
pub mod Playback
pub mod Capture
pub mod Settings
pub mod Running
pub mod Links
pub mod Routing
pub mod Session
pub mod Targets
