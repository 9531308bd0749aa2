-- ===== src/VideoFec.antt =====
-- kyproto/src/protocol/driver/av/video_unreliable_fec.rs: video over datagrams, with forward error
-- correction.
pub mod Segments
pub mod Group
pub mod Groups
pub mod Choice
pub mod Receiver
pub mod Sender
mod Tests
