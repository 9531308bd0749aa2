-- ===== src/Av/Codec.antt =====
-- kymux-types/src/av.rs: `CodecPacketHeader`.
use plank_kymux.Common.{[], ◌∷◌, ◌++◌, ltb, ◌==◌, Result, ok, ◌>>◌, require, length, replicate}
use plank_kymux.Wire.{Bytes, be16, be32, of_be16, of_be32, IoError}
use plank_kymux.Av.Packet.{CodecPacketHeader, serialized_size, at}

unfoldable pub serialize : CodecPacketHeader → Bytes
serialize h = be32 h.codec ++ (h.rotation ∷ []) ++ be16 h.frame_size ++ replicate 5 0

-- `panic` is a failed assertion: the length, or the top bit of the first byte.
unfoldable pub deserialize : Bytes → Result IoError CodecPacketHeader
deserialize buf = do
  require (length buf == serialized_size)
  require (ltb (at buf 0) 0x80)
  ok (record {
    codec = of_be32 (at buf 0) (at buf 1) (at buf 2) (at buf 3);
    rotation = at buf 4;
    frame_size = of_be16 (at buf 5) (at buf 6);
  })
