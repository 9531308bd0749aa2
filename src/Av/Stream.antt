-- ===== src/Av/Stream.antt =====
-- `write` and `read` of an AV packet on a stream.
use plank_kymux.Common.{
  ◌≤◌, ◌<◌, ◌≡◌, refl, ap, ◌∙◌, Bool, true, none, some, [], ◌++◌, arith, Result, ok, err, panic,
  length,
}
use plank_kymux.Wire.{
  Bytes, be32, be64, IoError, unexpected_eof, invalid_input, invalid_data, broken, Reader,
  read_exact,
}
use plank_kymux.Wire.Ints.{read_exact-append, read_exact_shrinks, read_exact_le}
use plank_kymux.Serial.{Serializable, IsFaithful}
use plank_kymux.Av.Packet.{
  CodecPacketHeader, MediaPacketHeader, HolePacketHeader, AvPacketHeader, AvPacket, serialized_size,
}
use plank_kymux.Av.Headers.{IsCodecHeader, IsMediaHeader, IsHoleHeader}
use plank_kymux.Av.Codec
use plank_kymux.Av.Media
use plank_kymux.Av.Hole
use plank_kymux.Av

-- The fields fit their types, and a media packet's size field is the length of its payload.
abbrev pub IsInRange : AvPacket → Type 0
IsInRange (AvPacket.codec p) = IsCodecHeader p.header
IsInRange (AvPacket.media p) = IsMediaHeader p.header × (p.header.size ≡ length p.payload)
IsInRange (AvPacket.hole p) = IsHoleHeader p.header

abbrev header_of : AvPacket → AvPacketHeader
header_of (AvPacket.codec p) = AvPacketHeader.codec p.header
header_of (AvPacket.media p) = AvPacketHeader.media p.header
header_of (AvPacket.hole p) = AvPacketHeader.hole p.header

abbrev payload_of : AvPacket → Bytes
payload_of (AvPacket.media p) = p.payload
payload_of _ = []

pub deserialize-codec :
    (h : CodecPacketHeader)
    → IsCodecHeader h
    → Av.deserialize (Codec.serialize h) ≡ ok (AvPacketHeader.codec h)
unfolding Av.deserialize Codec.serialize Codec.deserialize
deserialize-codec h v = ground arith

pub deserialize-hole :
    (h : HolePacketHeader)
    → IsHoleHeader h
    → Av.deserialize (Hole.serialize h) ≡ ok (AvPacketHeader.hole h)
unfolding Av.deserialize Hole.serialize Hole.deserialize
deserialize-hole h v = ground arith

abbrev media_bytes : MediaPacketHeader → Bytes
media_bytes h = be64 (Media.pts_and_flags h) ++ be32 h.size

pub deserialize-media :
    (h : MediaPacketHeader)
    → IsMediaHeader h
    → Av.deserialize (media_bytes h) ≡ ok (AvPacketHeader.media h)
unfolding Av.deserialize Media.deserialize Media.pts_and_flags
deserialize-media h v = ground arith

read_head :
    (head rest : Bytes) (ends : Bool) (h : AvPacketHeader)
    → length head ≡ serialized_size
    → Av.deserialize head ≡ ok h
    → Av.read (record { input = head ++ rest; ends = ends })
      ≡ Av.read_body h (record { input = rest; ends = ends })
unfolding Av.read
read_head head rest ends h l e =
    let step = rw l at (read_exact-append head rest (record { input = rest; ends = ends })) in
    rw (step, e)

length-codec : (h : CodecPacketHeader) → length (Codec.serialize h) ≡ serialized_size
unfolding Codec.serialize
length-codec h = refl

length-hole : (h : HolePacketHeader) → length (Hole.serialize h) ≡ serialized_size
unfolding Hole.serialize
length-hole h = refl

serialize-media : (h : MediaPacketHeader) → IsMediaHeader h → Media.serialize h ≡ ok (media_bytes h)
unfolding Media.serialize
serialize-media h v = ground arith

-- A packet in range is read back from the bytes that `write` makes of it, with nothing after them
-- consumed.
pub read-write :
    (p : AvPacket)
    → IsInRange p
    → (bs : Bytes) × (Av.write p ≡ ok bs)
      × ((rest : Bytes) (ends : Bool)
          → Av.read (record { input = bs ++ rest; ends = ends })
            ≡ (ok (some p), record { input = rest; ends = ends }))
unfolding Av.write Av.read_body
read-write (AvPacket.codec p) v = (
  Codec.serialize p.header,
  refl,
  λ rest ends. read_head _ rest ends _ (length-codec p.header) (deserialize-codec p.header v),
)
read-write (AvPacket.hole p) v = (
  Hole.serialize p.header,
  refl,
  λ rest ends. read_head _ rest ends _ (length-hole p.header) (deserialize-hole p.header v),
)
read-write (AvPacket.media p) v = (
  media_bytes p.header ++ p.payload,
  rw (serialize-media p.header v.0),
  λ rest ends.
      read_head (media_bytes p.header) (p.payload ++ rest) ends _ refl
        (deserialize-media p.header v.0)
      ∙ rw (v.1, read_exact-append p.payload rest (record { input = rest; ends = ends })),
)

read_body-le :
    (h : AvPacketHeader) (r : Reader) → length (Av.read_body h r).1.input ≤ length r.input
unfolding Av.read_body
read_body-le (AvPacketHeader.codec h) r = omega arith
read_body-le (AvPacketHeader.hole h) r = omega arith
read_body-le (AvPacketHeader.media h) r = read_exact_le h.size r

after_header-le :
    (h : Result IoError AvPacketHeader) (r : Reader)
    → length (Av.after_header h r).1.input ≤ length r.input
unfolding Av.after_header
after_header-le (ok h) r = read_body-le h r
after_header-le (err e) r = omega arith
after_header-le panic r = omega arith

after_read-some :
    (got : Result IoError Bytes) (r r' : Reader) (p : AvPacket)
    → Av.after_read got r ≡ (ok (some p), r')
    → (bs : Bytes) × (got ≡ ok bs) × (length r'.input ≤ length r.input)
unfolding Av.after_read
after_read-some (ok bs) r r' p e =
    (bs, refl, rw (ap (λ q. q.1) e) at (after_header-le (Av.deserialize bs) r))
after_read-some (err unexpected_eof) r r' p e = cc
after_read-some (err invalid_input) r r' p e = cc
after_read-some (err invalid_data) r r' p e = cc
after_read-some (err broken) r r' p e = cc
after_read-some panic r r' p e = cc

-- A packet that is read uses up a header at least.
pub read_progress :
    (r r' : Reader) (p : AvPacket)
    → Av.read r ≡ (ok (some p), r')
    → length r'.input < length r.input
unfolding Av.read
read_progress r r' p e =
    let (bs, got, le) = after_read-some _ _ r' p e in
    omega (
      arith,
      le,
      read_exact_shrinks serialized_size r (read_exact serialized_size r).1 bs
          (ap (λ q. (q, (read_exact serialized_size r).1)) got),
    )

abbrev pub serializable : Serializable AvPacket
serializable = record { write = Av.write; read = Av.read }

pub serializable-IsFaithful : IsFaithful serializable IsInRange
serializable-IsFaithful = record { read-write = read-write; progress = read_progress }

-- The end of the stream between two packets is a clean end.
pub clean_end : (Av.read (record { input = []; ends = true })).0 ≡ ok none
unfolding Av.read read_exact
clean_end = refl
