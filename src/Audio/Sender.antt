-- ===== src/Audio/Sender.antt =====
-- `AudioUnreliableProtocolSendDriver` of audio_unreliable.rs.
pub mod Delivery
use plank_kymux.Common.{
  ℕ, zero, suc, ◌+◌, ◌-◌, ◌%◌, ◌^◌, min, Bool, not, Option, none, some, List, [], ◌∷◌, ◌++◌, ltb,
  ◌==◌, if◌then◌else◌, Result, ok, err, panic, length, take, drop, replicate,
}
use plank_kymux.Wire.{Bytes, be16, be32, IoError}
use plank_kymux.Av.Packet.{AvPacket, MediaPacket, CodecPacket}
use plank_kymux.Av.Codec
use plank_kymux.Video.Sender.{Channel, SendError, number_and_end, next_seq, write_result, wire}
use plank_kymux.Audio.Receiver.{datagram_header_size}

pub record AudioSender : Type 0 where
  pub kypacket_seq : ℕ

unfoldable pub start : AudioSender
start = record { kypacket_seq = 0 }

pub record Sent : Type 0 where
  pub result : Result SendError (Unit {0})
  pub sender : AudioSender
  pub written : Bytes
  pub datagrams : List Bytes

unfoldable pub datagram_of : Channel → AudioSender → ℕ → Bool → Bytes → Bytes
datagram_of c s n end piece =
    be16 c.endpoint_id ++ be32 s.kypacket_seq ++ be32 (number_and_end n end) ++ piece

-- The loop of `send_datagrams` on what is left of the data, with the datagrams that were taken. Each
-- round takes a byte at least, so that `length rest` rounds are enough (Sender/Delivery).
unfoldable pub send_loop :
    Channel → AudioSender → ℕ → ℕ → Bytes → ℕ → Result SendError (Unit {0}) × List Bytes
send_loop c s size fuel [] n = (ok tt, [])
send_loop c s size zero (b ∷ bs) n = (panic, [])
send_loop c s size (suc fuel) (b ∷ bs) n =
    let rest = b ∷ bs in
    let k = min size (length rest) in
    let d = datagram_of c s n (k == length rest) (take k rest) in
    let (result, sent) = send_loop c s size fuel (drop k rest) ((n + 1) % 2 ^ 32) in
    let next : Result SendError (Unit {0}) × List Bytes = (result, d ∷ sent) in
    if not (ltb k (2 ^ 16))
    then (panic, [])
    else if c.takes_datagram d
    then next
    else (err SendError.datagram_failed, [])

unfoldable pub send_bytes :
    Channel → AudioSender → ℕ → Result IoError Bytes → Result SendError (Unit {0}) × List Bytes
send_bytes c s size (ok bytes) = send_loop c s size (length bytes) bytes 0
send_bytes c s size (err e) = (err SendError.bad_packet, [])
send_bytes c s size panic = (panic, [])

-- `send_datagrams` on the wire form of the packet, for the datagram size that the channel gives.
unfoldable pub send_sized :
    Channel
    → AudioSender
    → Result IoError Bytes
    → Option ℕ
    → Result SendError (Unit {0}) × List Bytes
unfolding send_bytes
send_sized c s bytes none = (err SendError.not_supported, [])
send_sized c s bytes (some max_size) =
    if ltb datagram_header_size max_size
    then send_bytes c s (max_size - datagram_header_size) bytes
    else (panic, [])

-- `self.kypacket_seq` moves on only after a success.
abbrev pub after : Result SendError (Unit {0}) → AudioSender → AudioSender
after (ok u) s = record s { kypacket_seq = next_seq s.kypacket_seq }
after (err e) s = s
after panic s = s

abbrev written_if : Bool → Bytes → Bytes
written_if taken bytes = if taken then bytes else []

unfoldable pub send_config : Channel → AudioSender → Result IoError Bytes → Sent
send_config c s (ok bytes) =
    let buf = be32 s.kypacket_seq ++ bytes in
    let result = write_result (c.takes_write buf) in
    record {
      result = result;
      sender = after result s;
      written = written_if (c.takes_write buf) buf;
      datagrams = [];
    }
send_config c s (err e) = record {
  result = err SendError.bad_packet;
  sender = s;
  written = [];
  datagrams = [];
}
send_config c s panic = record { result = panic; sender = s; written = []; datagrams = [] }

unfoldable pub send_media : Channel → AudioSender → Result IoError Bytes → Sent
send_media c s bytes =
    let (result, sent) = send_sized c s bytes c.max_datagram_size in
    record { result = result; sender = after result s; written = []; datagrams = sent }

abbrev codec_bytes : CodecPacket → Bytes
codec_bytes p = replicate 4 0 ++ Codec.serialize p.header

-- `send`
unfoldable pub send : Channel → AudioSender → AvPacket → Sent
send c s (AvPacket.codec p) = record {
  result = write_result (c.takes_write (codec_bytes p));
  sender = s;
  written = written_if (c.takes_write (codec_bytes p)) (codec_bytes p);
  datagrams = [];
}
send c s (AvPacket.media p) =
    if p.header.is_config then send_config c s (wire p) else send_media c s (wire p)
send c s (AvPacket.hole p) = record { result = panic; sender = s; written = []; datagrams = [] }
