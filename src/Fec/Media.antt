-- ===== src/Fec/Media.antt =====
-- `media_packet` and `read_stream_packet` of fec.rs: from bytes that a peer chose to a packet.
pub mod Safety
use plank_kymux.Common.{
  ℕ, ◌-◌, min, Bool, not, ◌&&◌, leb, ◌==◌, if◌then◌else◌, Result, ok, err, panic, ◌>>=◌, ◌>>◌,
  guard, map_err, length, take, drop,
}
use plank_kymux.Wire.{Bytes, IoError, Reader, read_exact}
use plank_kymux.Av.Packet.{AvPacket, MediaPacketHeader, serialized_size, at, zero_tag}
use plank_kymux.Av.Codec
use plank_kymux.Av.Media
use plank_kymux.Fec.{FecError, io, max_config_payload}

-- `bytes[0] & 0x80 == 0`
abbrev pub is_media : Bytes → Bool
is_media bytes = leb 0x80 (at bytes 0)

-- The assertions of `deserialize` are panics, of this component's errors too.
abbrev pub lifted {ℓ} : {A : Type ℓ} → Result IoError A → Result FecError A
lifted = map_err io

unfoldable pub media_packet : Bytes → Result FecError AvPacket
media_packet bytes = do
  guard (leb serialized_size (length bytes) && is_media bytes) FecError.not_media
  header ← lifted (Media.deserialize (take serialized_size bytes))
  guard (not header.is_config && header.size == length bytes - serialized_size)
      FecError.media_mismatch
  ok (AvPacket.media (record { header = header; payload = drop serialized_size bytes }))

-- What follows once the payload of a config packet is read, or is not.
abbrev pub with_payload :
    MediaPacketHeader → Result IoError Bytes × Reader → Result FecError AvPacket × Reader
with_payload header (got, rest) = (
  lifted got >>= λ payload. ok (AvPacket.media (record { header = header; payload = payload })),
  rest,
)

abbrev pub read_config :
    ℕ → Result IoError MediaPacketHeader → Reader → Result FecError AvPacket × Reader
read_config max_payload (ok header) r =
    if header.is_config && leb header.size (min max_payload max_config_payload)
    then with_payload header (read_exact header.size r)
    else (err FecError.invalid_config, r)
read_config max_payload (err e) r = (err (io e), r)
read_config max_payload panic r = (panic, r)

-- What follows once the twelve bytes of a header are read, or are not.
abbrev pub after_raw : ℕ → Result IoError Bytes × Reader → Result FecError AvPacket × Reader
after_raw max_payload (ok raw, rest) =
    if is_media raw
    then read_config max_payload (Media.deserialize raw) rest
    else if zero_tag raw
    then (err FecError.hole_record, rest)
    else (
      lifted (Codec.deserialize raw) >>= λ header. ok (AvPacket.codec (record { header = header })),
      rest,
    )
after_raw max_payload (err e, rest) = (err (io e), rest)
after_raw max_payload (panic, rest) = (panic, rest)

unfoldable pub read_stream_packet : ℕ → Reader → Result FecError AvPacket × Reader
read_stream_packet max_payload r = after_raw max_payload (read_exact serialized_size r)
