-- ===== src/VideoFec/Sender.antt =====
-- `VideoUnreliableFecProtocolSendDriver` of video_unreliable_fec.rs, without the experiment that sends
-- source symbols first.
pub mod Delivery
use plank_kymux.Common.{
  ℕ, ◌-◌, max, ◌&&◌, Option, none, some, List, [], ◌∷◌, ◌++◌, ltb, ◌==◌, if◌then◌else◌, Result, ok,
  err, panic, length, replicate,
}
use plank_kymux.Wire.{Bytes, be16, be32, IoError}
use plank_kymux.Av.Packet.{AvPacket, MediaPacket, CodecPacket}
use plank_kymux.Av.Codec
use plank_kymux.Fec.{Oti, PayloadId, div_ceil}
use plank_kymux.Video.Sender.{
  Channel, SendError, VideoSender, Sent, next_seq, after, write_result, wire,
}
use plank_kymux.VideoFec.Receiver.{datagram_header_size}

-- What the sender calls of raptorq, and the floating-point rounding `(n as f32 * 0.3).ceil() as u32`.
pub record Encoder : Type 0 where
  pub config : Bytes → ℕ → Oti
  pub encoded_packets : Bytes → ℕ → ℕ → List (PayloadId × Bytes)
  pub serialize_oti : Oti → Bytes
  pub serialize_id : PayloadId → Bytes
  pub three_tenths : ℕ → ℕ

unfoldable pub datagram_of : Encoder → Channel → VideoSender → Oti → PayloadId → Bytes → Bytes
datagram_of e c s oti id symbol =
    (be16 c.endpoint_id ++ be32 s.kypacket_seq ++ be32 s.group_seq)
    ++ (e.serialize_oti oti ++ (e.serialize_id id ++ symbol))

-- The loop over the encoded packets, with the datagrams that were taken.
unfoldable pub send_packets :
    Encoder
    → Channel
    → VideoSender
    → Oti
    → List (PayloadId × Bytes)
    → Result SendError (Unit {0}) × List Bytes
send_packets e c s oti [] = (ok tt, [])
send_packets e c s oti ((id, symbol) ∷ packets) =
    let d = datagram_of e c s oti id symbol in
    let (result, sent) = send_packets e c s oti packets in
    if c.takes_datagram d then (result, d ∷ sent) else (err SendError.datagram_failed, [])

-- 30% repair symbols, at least two.
abbrev pub repair_symbols : Encoder → Oti → Bytes → ℕ
repair_symbols e oti bytes = max (e.three_tenths (div_ceil (length bytes) oti.symbol_size)) 2

unfoldable pub send_bytes :
    Encoder
    → Channel
    → VideoSender
    → ℕ
    → Result IoError Bytes
    → Result SendError (Unit {0}) × List Bytes
send_bytes e c s size (ok bytes) =
    let oti = e.config bytes size in
    if oti.symbol_size == 0
    then (panic, [])
    else send_packets e c s oti (e.encoded_packets bytes size (repair_symbols e oti bytes))
send_bytes e c s size (err x) = (err SendError.bad_packet, [])
send_bytes e c s size panic = (panic, [])

-- `send_datagrams` on the wire form of the packet, for the datagram size that the channel gives.
unfoldable pub send_sized :
    Encoder
    → Channel
    → VideoSender
    → Result IoError Bytes
    → Option ℕ
    → Result SendError (Unit {0}) × List Bytes
send_sized e c s bytes none = (err SendError.not_supported, [])
send_sized e c s bytes (some max_size) =
    if ltb datagram_header_size max_size && ltb max_size 0x10000
    then send_bytes e c s (max_size - datagram_header_size) bytes
    else (panic, [])

abbrev pub stopped : Result SendError (Unit {0}) → VideoSender → Sent
stopped result s = record { result = result; sender = s; written = []; datagrams = [] }

abbrev pub written : Channel → Bytes → VideoSender → VideoSender → Sent
written c buf s s' =
    if c.takes_write buf
    then record { result = ok tt; sender = s'; written = buf; datagrams = [] }
    else stopped (err SendError.write_failed) s

unfoldable pub send_config : Channel → VideoSender → Result IoError Bytes → Sent
send_config c s (ok bytes) =
    let s' = record s { group_seq = next_seq s.group_seq } in
    written c (be32 s'.kypacket_seq ++ be32 s'.group_seq ++ bytes) s'
      (record s' { kypacket_seq = next_seq s'.kypacket_seq })
send_config c s (err x) = stopped (err SendError.bad_packet) s
send_config c s panic = stopped panic s

abbrev pub moved_on : VideoSender → Result SendError (Unit {0}) × List Bytes → Sent
moved_on s (result, sent) = record {
  result = result;
  sender = after result s;
  written = [];
  datagrams = sent;
}

unfoldable pub send : Encoder → Channel → VideoSender → AvPacket → Sent
send e c s (AvPacket.codec p) = written c (replicate 8 0 ++ Codec.serialize p.header) s s
send e c s (AvPacket.media p) =
    if p.header.is_config
    then send_config c s (wire p)
    else moved_on s (send_sized e c s (wire p) c.max_datagram_size)
send e c s (AvPacket.hole p) = stopped panic s
