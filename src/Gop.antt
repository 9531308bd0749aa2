-- ===== src/Gop.antt =====
-- kyproto/src/protocol/driver/av/video_gopstream.rs: each group of pictures on a stream of its own.
pub mod Sender
pub mod Receiver
pub mod Broadcast
mod Tests
