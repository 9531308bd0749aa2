-- ===== src/Av/Hole.antt =====
-- kymux-types/src/av.rs: `HolePacketHeader`.
use plank_kymux.Common.{◌++◌, ltb, ◌==◌, Result, ok, ◌>>◌, require, length, replicate}
use plank_kymux.Wire.{Bytes, be32, of_be32, IoError}
use plank_kymux.Av.Packet.{HolePacketHeader, serialized_size, at, zero_tag}

unfoldable pub serialize : HolePacketHeader → Bytes
serialize h = replicate 4 0 ++ be32 h.missing_audio_samples ++ replicate 4 0

unfoldable pub deserialize : Bytes → Result IoError HolePacketHeader
deserialize buf = do
  require (length buf == serialized_size)
  require (zero_tag buf)
  let samples = of_be32 (at buf 4) (at buf 5) (at buf 6) (at buf 7)
  require (ltb 0 samples)
  ok (record { missing_audio_samples = samples })
