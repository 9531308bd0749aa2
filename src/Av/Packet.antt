-- ===== src/Av/Packet.antt =====
-- kymux-types/src/av.rs: the packet types, and the tests on a header's bytes.
use plank_kymux.Common.{ℕ, ◌/◌, ◌%◌, ◌^◌, Bool, not, ◌&&◌, ◌==◌, if◌then◌else◌, get_or}
use plank_kymux.Wire.{Bytes}

pub record CodecPacketHeader : Type 0 where
  pub codec : ℕ
  pub rotation : ℕ
  pub frame_size : ℕ

pub record MediaPacketHeader : Type 0 where
  pub is_config : Bool
  pub is_key : Bool
  pub pts : ℕ
  pub size : ℕ

pub record HolePacketHeader : Type 0 where
  pub missing_audio_samples : ℕ

pub record CodecPacket : Type 0 where
  pub header : CodecPacketHeader

pub record MediaPacket : Type 0 where
  pub header : MediaPacketHeader
  pub payload : Bytes

pub record HolePacket : Type 0 where
  pub header : HolePacketHeader

pub data AvPacketHeader : Type 0 where
  codec : CodecPacketHeader → AvPacketHeader
  media : MediaPacketHeader → AvPacketHeader
  hole : HolePacketHeader → AvPacketHeader

pub data AvPacket : Type 0 where
  codec : CodecPacket → AvPacket
  media : MediaPacket → AvPacket
  hole : HolePacket → AvPacket

-- `AVPacketHeader::SERIALIZED_SIZE`
abbrev pub serialized_size : ℕ
serialized_size = 12

-- `buf[i]` of a buffer whose length was asserted.
abbrev pub at : Bytes → ℕ → ℕ
at buf i = get_or buf i 0

abbrev pub flag : Bool → ℕ → ℕ
flag b bit = if b then 2 ^ bit else 0

abbrev pub test_bit : ℕ → ℕ → Bool
test_bit n bit = not (n / 2 ^ bit % 2 == 0)

-- The first four bytes are 0.
abbrev pub zero_tag : Bytes → Bool
zero_tag buf = at buf 0 == 0 && at buf 1 == 0 && at buf 2 == 0 && at buf 3 == 0
