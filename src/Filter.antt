-- ===== src/Filter.antt =====
-- src/pwf_filter*.c: the multi-port filter.
mod Tests
pub mod State
pub mod Event
pub mod Link
pub mod Ports
pub mod Lifecycle
pub mod Push
pub mod Target
pub mod Process
pub mod Formats
pub mod Session
