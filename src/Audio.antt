-- ===== src/Audio.antt =====
-- kyproto/src/protocol/driver/av/audio_unreliable.rs: audio over datagrams.
pub mod Group
pub mod Receiver
pub mod Sender
mod Tests
