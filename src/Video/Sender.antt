-- ===== src/Video/Sender.antt =====
-- `VideoUnreliableProtocolSendDriver` of video_unreliable.rs.
pub mod Pieces
pub mod Delivery
use plank_kymux.Common.{
  ℕ, zero, suc, ◌+◌, ◌-◌, ◌/◌, ◌%◌, ◌^◌, min, Bool, not, ◌&&◌, Option, none, some, List, [], ◌∷◌,
  ◌++◌, ltb, ◌==◌, if◌then◌else◌, Result, ok, err, panic, ◌>>=◌, length, take, drop, replicate,
}
use plank_kymux.Wire.{Bytes, be16, be32, IoError}
use plank_kymux.Av.Packet.{AvPacket, MediaPacket, CodecPacket}
use plank_kymux.Av.Codec
use plank_kymux.Av.Media
use plank_kymux.Video.Receiver.{datagram_header_size}

-- What the driver uses of its `KyChannel` and `SendStream` (crate kynet): the datagram size, and
-- whether a datagram or a write is taken.
pub record Channel : Type 0 where
  pub endpoint_id : ℕ
  pub max_datagram_size : Option ℕ
  pub takes_datagram : Bytes → Bool
  pub takes_write : Bytes → Bool

pub data SendError : Type 0 where
  not_supported datagram_failed write_failed bad_packet : SendError

pub record VideoSender : Type 0 where
  pub kypacket_seq : ℕ
  pub group_seq : ℕ

unfoldable pub start : VideoSender
start = record { kypacket_seq = 0; group_seq = 0 }

-- What a call of `send` does: its result, the state it leaves, and what it handed to the transport.
pub record Sent : Type 0 where
  pub result : Result SendError (Unit {0})
  pub sender : VideoSender
  pub written : Bytes
  pub datagrams : List Bytes

-- `datagram_number | if end { 1 << 31 } else { 0 }` of a u32.
abbrev pub number_and_end : ℕ → Bool → ℕ
number_and_end n end = if end && n / 2 ^ 31 % 2 == 0 then n + 2 ^ 31 else n

unfoldable pub datagram_of : Channel → VideoSender → ℕ → Bool → Bytes → Bytes
datagram_of c s n end piece =
    be16 c.endpoint_id
    ++ be32 s.kypacket_seq
    ++ be32 s.group_seq
    ++ be32 (number_and_end n end)
    ++ piece

-- The loop of `send_datagrams` on what is left of the data, with the datagrams that were taken. Each
-- round takes a byte at least, so that `length rest` rounds are enough (Sender/Pieces).
unfoldable pub send_loop :
    Channel → VideoSender → ℕ → ℕ → Bytes → ℕ → Result SendError (Unit {0}) × List Bytes
send_loop c s size fuel [] n = (ok tt, [])
send_loop c s size zero (b ∷ bs) n = (panic, [])
send_loop c s size (suc fuel) (b ∷ bs) n =
    let rest = b ∷ bs in
    let k = min size (length rest) in
    let d = datagram_of c s n (k == length rest) (take k rest) in
    let (result, sent) = send_loop c s size fuel (drop k rest) ((n + 1) % 2 ^ 32) in
    let next : Result SendError (Unit {0}) × List Bytes = (result, d ∷ sent) in
    if not (ltb k (2 ^ 16))
    then (panic, [])
    else if c.takes_datagram d
    then next
    else (err datagram_failed, [])

unfoldable pub send_bytes :
    Channel → VideoSender → ℕ → Result IoError Bytes → Result SendError (Unit {0}) × List Bytes
send_bytes c s size (ok bytes) = send_loop c s size (length bytes) bytes 0
send_bytes c s size (err e) = (err bad_packet, [])
send_bytes c s size panic = (panic, [])

-- `send_datagrams` on the wire form of the packet, for the datagram size that the channel gives.
unfoldable pub send_sized :
    Channel
    → VideoSender
    → Result IoError Bytes
    → Option ℕ
    → Result SendError (Unit {0}) × List Bytes
unfolding send_bytes
send_sized c s bytes none = (err not_supported, [])
send_sized c s bytes (some max_size) =
    if ltb datagram_header_size max_size
    then send_bytes c s (max_size - datagram_header_size) bytes
    else (panic, [])

abbrev pub next_seq : ℕ → ℕ
next_seq n = (n + 1) % 2 ^ 32

-- `self.kypacket_seq` moves on only after a success.
abbrev pub after : Result SendError (Unit {0}) → VideoSender → VideoSender
after (ok u) s = record s { kypacket_seq = next_seq s.kypacket_seq }
after (err e) s = s
after panic s = s

abbrev pub write_result : Bool → Result SendError (Unit {0})
write_result taken = if taken then ok tt else err write_failed

abbrev written_if : Bool → Bytes → Bytes
written_if taken bytes = if taken then bytes else []

unfoldable pub send_config : Channel → VideoSender → Result IoError Bytes → Sent
send_config c s (ok bytes) =
    let s' = record s { group_seq = next_seq s.group_seq } in
    let buf = be32 s.kypacket_seq ++ be32 (next_seq s.group_seq) ++ bytes in
    let result = write_result (c.takes_write buf) in
    record {
      result = result;
      sender = after result s';
      written = written_if (c.takes_write buf) buf;
      datagrams = [];
    }
send_config c s (err e) = record {
  result = err bad_packet;
  sender = s;
  written = [];
  datagrams = [];
}
send_config c s panic = record { result = panic; sender = s; written = []; datagrams = [] }

unfoldable pub send_media : Channel → VideoSender → Result IoError Bytes → Sent
send_media c s bytes =
    let (result, sent) = send_sized c s bytes c.max_datagram_size in
    record { result = result; sender = after result s; written = []; datagrams = sent }

-- The wire form of a media packet; `panic` is the assertion of `serialize`.
unfoldable pub wire : MediaPacket → Result IoError Bytes
wire p = Media.serialize p.header >>= λ h. ok (h ++ p.payload)

abbrev codec_bytes : CodecPacket → Bytes
codec_bytes p = replicate 8 0 ++ Codec.serialize p.header

-- `send`
unfoldable pub send : Channel → VideoSender → AvPacket → Sent
send c s (AvPacket.codec p) = record {
  result = write_result (c.takes_write (codec_bytes p));
  sender = s;
  written = written_if (c.takes_write (codec_bytes p)) (codec_bytes p);
  datagrams = [];
}
send c s (AvPacket.media p) =
    if p.header.is_config then send_config c s (wire p) else send_media c s (wire p)
send c s (AvPacket.hole p) = record { result = panic; sender = s; written = []; datagrams = [] }
