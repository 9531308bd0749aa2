-- ===== src/Av/Media.antt =====
-- kymux-types/src/av.rs: `MediaPacketHeader`.
use plank_kymux.Common.{
  ℕ, ◌+◌, ◌*◌, ◌%◌, ◌^◌, ◌++◌, ltb, leb, ◌==◌, Result, ok, ◌>>◌, require, length,
}
use plank_kymux.Wire.{Bytes, be32, be64, of_be32, IoError}
use plank_kymux.Av.Packet.{MediaPacketHeader, serialized_size, at, flag, test_bit}

-- `pts` has passed the assertion, so that `|=` of the bits 63, 62 and 61 adds them.
unfoldable pub pts_and_flags : MediaPacketHeader → ℕ
pts_and_flags h = h.pts + 2 ^ 63 + flag h.is_config 62 + flag h.is_key 61

unfoldable pub serialize : MediaPacketHeader → Result IoError Bytes
serialize h = do require (ltb h.pts (2 ^ 61)); ok (be64 (pts_and_flags h) ++ be32 h.size)

unfoldable pub deserialize : Bytes → Result IoError MediaPacketHeader
deserialize buf = do
  require (length buf == serialized_size)
  require (leb 0x80 (at buf 0))
  let hi = of_be32 (at buf 0) (at buf 1) (at buf 2) (at buf 3)
  let lo = of_be32 (at buf 4) (at buf 5) (at buf 6) (at buf 7)
  let n = hi * 2 ^ 32 + lo
  ok (record {
    is_config = test_bit n 62;
    is_key = test_bit n 61;
    pts = n % 2 ^ 61;
    size = of_be32 (at buf 8) (at buf 9) (at buf 10) (at buf 11);
  })
