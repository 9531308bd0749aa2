-- ===== src/Video.antt =====
-- kyproto/src/protocol/driver/av/video_unreliable.rs: video over unreliable datagrams.
pub mod Search
pub mod Sender
pub mod Segments
pub mod Schedule
pub mod Group
pub mod Groups
pub mod Receiver
pub mod Tests
