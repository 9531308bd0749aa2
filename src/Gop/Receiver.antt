-- ===== src/Gop/Receiver.antt =====
-- `VideoGopStreamProtocolRecvDriver` of video_gopstream.rs: one message of the loop of `recv`.
use plank_kymux.Common.{
  ℕ, zero, suc, ◌+◌, Bool, true, Option, none, some, List, [], ◌∷◌, ltb, ◌==◌, if◌then◌else◌,
  Result, ok, err, panic, ◌>>=◌,
}
use plank_kymux.Wire.{Bytes, IoError, Reader, of_be32, read_exact}
use plank_kymux.Av
use plank_kymux.Av.Packet.{AvPacket, at}

pub record Gop : Type 0 where
  pub id : ℕ
  pub codec_gen : ℕ
  pub config_gen : ℕ

-- The streams themselves are with the tasks that read them.
pub data RecvMsg : Type 0 where
  new_stream : RecvMsg
  stream_ids : Gop → RecvMsg
  new_packet : AvPacket → ℕ → RecvMsg

-- `reading` is the group whose task reads packets.
pub record GopReceiver : Type 0 where
  pub gop : Option Gop
  pub last_codec_gen : ℕ
  pub last_config_gen : ℕ
  pub reading : Option ℕ

unfoldable pub start : GopReceiver
start = record { gop = none; last_codec_gen = 0; last_config_gen = 0; reading = none }

abbrev pub u32_at : Bytes → ℕ → ℕ
u32_at buf i = of_be32 (at buf i) (at buf (i + 1)) (at buf (i + 2)) (at buf (i + 3))

abbrev pub gop_of_ids : Result IoError Bytes × Reader → Result IoError Gop × Reader
gop_of_ids (got, rest) = (
  got >>= λ ids.
      ok (record { id = u32_at ids 0; codec_gen = u32_at ids 4; config_gen = u32_at ids 8 }),
  rest,
)

unfoldable pub read_stream_ids : Reader → Result IoError Gop × Reader
read_stream_ids r = gop_of_ids (read_exact 12 r)

-- The next packet, and what the loop does then; the end of the stream ends it.
abbrev pub after_packet :
    Result IoError (Option AvPacket) × Reader
    → (Reader → Result IoError (List AvPacket) × Reader)
    → Result IoError (List AvPacket) × Reader
after_packet (ok none, r) next = (ok [], r)
after_packet (ok (some p), r) next = let (got, rest) = next r in (got >>= λ ps. ok (p ∷ ps), rest)
after_packet (err e, r) next = (err e, r)
after_packet (panic, r) next = (panic, r)

-- The first rounds of the loop of `read_packets`, as the packets that it passes on.
unfoldable pub read_packets : ℕ → Reader → Result IoError (List AvPacket) × Reader
read_packets zero r = (ok [], r)
read_packets (suc n) r = after_packet (Av.read r) (read_packets n)

abbrev pub is_newer : Option Gop → Gop → Bool
is_newer none gop = true
is_newer (some prev) gop = ltb prev.id gop.id

-- What is done with a packet of the current group: `none` where it is ignored.
unfoldable pub take_packet :
    GopReceiver → Gop → AvPacket → Result IoError (GopReceiver × Option AvPacket)
take_packet r gop (AvPacket.codec p) =
    if gop.codec_gen == r.last_codec_gen
    then ok (r, none)
    else ok (record r { last_codec_gen = gop.codec_gen }, some (AvPacket.codec p))
take_packet r gop (AvPacket.media p) =
    if p.header.is_config
    then if gop.config_gen == r.last_config_gen
      then ok (r, none)
      else ok (record r { last_config_gen = gop.config_gen }, some (AvPacket.media p))
    else ok (r, some (AvPacket.media p))
take_packet r gop (AvPacket.hole p) = panic

-- `panic` is the `unwrap` of no group.
abbrev pub packet_of_gop :
    GopReceiver → Option Gop → AvPacket → ℕ → Result IoError (GopReceiver × Option AvPacket)
packet_of_gop r none p id = panic
packet_of_gop r (some gop) p id = if id == gop.id then take_packet r gop p else ok (r, none)

-- A round of the loop of `recv`, with the packet that it returns.
unfoldable pub handle : GopReceiver → RecvMsg → Result IoError (GopReceiver × Option AvPacket)
handle r new_stream = ok (r, none)
handle r (stream_ids gop) =
    if is_newer r.gop gop
    then ok (record r { gop = some gop; reading = some gop.id }, none)
    else ok (r, none)
handle r (new_packet p id) = packet_of_gop r r.gop p id
