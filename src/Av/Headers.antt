-- ===== src/Av/Headers.antt =====
-- av.rs: `serialize` and `deserialize` of each header, against each other.
use plank_kymux.Common.{◌^◌, ◌<◌, ◌≡◌, arith, ok, ◌>>=◌}
use plank_kymux.Av.Packet.{CodecPacketHeader, MediaPacketHeader, HolePacketHeader}
use plank_kymux.Av.Codec
use plank_kymux.Av.Media
use plank_kymux.Av.Hole

-- The fields fit their types; the codec is no media packet and no hole by its first bytes.
pub record IsCodecHeader (h : CodecPacketHeader) : Type 0 where
  pub codec_pos : 0 < h.codec
  pub codec_lt : h.codec < 2 ^ 31
  pub rotation_lt : h.rotation < 2 ^ 8
  pub frame_size_lt : h.frame_size < 2 ^ 16

pub record IsMediaHeader (h : MediaPacketHeader) : Type 0 where
  pub pts_lt : h.pts < 2 ^ 61
  pub size_lt : h.size < 2 ^ 32

pub record IsHoleHeader (h : HolePacketHeader) : Type 0 where
  pub samples_pos : 0 < h.missing_audio_samples
  pub samples_lt : h.missing_audio_samples < 2 ^ 32

pub codec_deserialize-serialize :
    (h : CodecPacketHeader) → IsCodecHeader h → Codec.deserialize (Codec.serialize h) ≡ ok h
unfolding Codec.serialize Codec.deserialize
codec_deserialize-serialize h v = ground arith

pub hole_deserialize-serialize :
    (h : HolePacketHeader) → IsHoleHeader h → Hole.deserialize (Hole.serialize h) ≡ ok h
unfolding Hole.serialize Hole.deserialize
hole_deserialize-serialize h v = ground arith

pub media_deserialize-serialize :
    (h : MediaPacketHeader) → IsMediaHeader h → (Media.serialize h >>= Media.deserialize) ≡ ok h
unfolding Media.serialize Media.deserialize Media.pts_and_flags
media_deserialize-serialize h v = ground arith
