-- ===== src/Av.antt =====
-- kymux-types/src/av.rs: the packets of the audio and video streams and their wire form.
pub mod Packet
pub mod Codec
pub mod Media
pub mod Hole
pub mod Headers
pub mod Stream
use plank_kymux.Common.{
  Option, none, some, ◌++◌, leb, ◌==◌, if◌then◌else◌, Result, ok, err, panic, ◌>>=◌, ◌>>◌, require,
  length,
}
use plank_kymux.Wire.{
  Bytes, IoError, unexpected_eof, invalid_input, invalid_data, broken, Reader, read_exact,
}
use Packet.{
  CodecPacketHeader, MediaPacketHeader, HolePacketHeader, AvPacketHeader, AvPacket, serialized_size,
  at, zero_tag,
}
use Codec
use Media
use Hole

-- `AVPacketHeader::deserialize`
unfoldable pub deserialize : Bytes → Result IoError AvPacketHeader
deserialize buf = do
  require (length buf == serialized_size)
  if leb 0x80 (at buf 0)
      then (Media.deserialize buf >>= λ h. ok (AvPacketHeader.media h))
      else if zero_tag buf
      then (Hole.deserialize buf >>= λ h. ok (AvPacketHeader.hole h))
      else (Codec.deserialize buf >>= λ h. ok (AvPacketHeader.codec h))

-- `Serializable::write`, as the bytes that it hands to the writer.
unfoldable pub write : AvPacket → Result IoError Bytes
write (AvPacket.codec p) = ok (Codec.serialize p.header)
write (AvPacket.media p) = Media.serialize p.header >>= λ h. ok (h ++ p.payload)
write (AvPacket.hole p) = ok (Hole.serialize p.header)

-- The part of `read` that follows the header.
unfoldable pub read_body : AvPacketHeader → Reader → Result IoError (Option AvPacket) × Reader
read_body (AvPacketHeader.media h) r =
    let (got, r') = read_exact h.size r in
    (got >>= λ payload. ok (some (AvPacket.media (record { header = h; payload = payload }))), r')
read_body (AvPacketHeader.codec h) r = (ok (some (AvPacket.codec (record { header = h }))), r)
read_body (AvPacketHeader.hole h) r = (ok (some (AvPacket.hole (record { header = h }))), r)

after_header : Result IoError AvPacketHeader → Reader → Result IoError (Option AvPacket) × Reader
after_header (ok h) r = read_body h r
after_header (err e) r = (err e, r)
after_header panic r = (panic, r)

-- The end of the stream inside a header is a clean end.
after_read : Result IoError Bytes → Reader → Result IoError (Option AvPacket) × Reader
unfolding after_header
after_read (ok buf) r = after_header (deserialize buf) r
after_read (err unexpected_eof) r = (ok none, r)
after_read (err e) r = (err e, r)
after_read panic r = (panic, r)

-- `Serializable::read`
unfoldable pub read : Reader → Result IoError (Option AvPacket) × Reader
unfolding after_read
read r = let (got, r') = read_exact serialized_size r in after_read got r'
