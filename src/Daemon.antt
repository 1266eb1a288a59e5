-- ===== src/Daemon.antt =====
-- The daemon around the store: crates/unixnotis-daemon/src/daemon.rs, daemon/*.rs and expire.rs.
pub mod Notify
pub mod Frames
pub mod Reachable
pub mod Payload
pub mod Burst
pub mod Expire
pub mod Control
pub mod Announce
