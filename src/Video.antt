-- ===== src/Video.antt =====
-- src/pwf_video_enum.c: reading the video formats that a node offers.
mod Tests
pub mod Framerates
pub mod Enumerate
pub mod Request
