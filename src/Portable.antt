-- ===== src/Portable.antt =====
-- portable.go: the temporary host that phones reach through an invitation on the local network.
pub mod Private
pub mod Link
pub mod Bootstrap
pub mod Watch
pub mod Run
mod Tests
