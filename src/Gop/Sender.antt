-- ===== src/Gop/Sender.antt =====
-- `VideoGopStreamProtocolSendDriver` of video_gopstream.rs.
pub mod Opening
use plank_kymux.Common.{
  ℕ, ◌+◌, ◌%◌, ◌^◌, Bool, Option, none, some, List, [], ◌∷◌, ◌++◌, if◌then◌else◌, Result, ok, err,
  panic,
}
use plank_kymux.Wire.{Bytes, IoError, be32}
use plank_kymux.Av.Packet.{AvPacket, CodecPacket, MediaPacket}
use plank_kymux.Av.Codec
use plank_kymux.Av.Media

-- What the driver uses of kynet: whether a stream opens, and whether a stream takes bytes.
pub record Transport : Type 0 where
  pub opens : ℕ → Bool
  pub takes : ℕ → Bytes → Bool

pub data GopError : Type 0 where
  open_failed write_failed bad_packet : GopError

-- What the driver does to the streams, which are numbered as they are opened.
pub data Effect : Type 0 where
  opened : ℕ → Effect
  wrote : ℕ → Bytes → Effect
  finished : ℕ → Effect

-- `streams` is how many have been opened.
pub record GopSender : Type 0 where
  pub streams : ℕ
  pub current_stream : Option ℕ
  pub gop_id : ℕ
  pub codec_gen : ℕ
  pub codec_packet : Option CodecPacket
  pub config_gen : ℕ
  pub config_packet : Option MediaPacket

unfoldable pub start : GopSender
start = record {
  streams = 0;
  current_stream = none;
  gop_id = 0;
  codec_gen = 0;
  codec_packet = none;
  config_gen = 0;
  config_packet = none;
}

-- `+= 1` of a u32, as a release build has it.
abbrev pub next_id : ℕ → ℕ
next_id n = (n + 1) % 2 ^ 32

pub record Sent : Type 0 where
  pub result : Result GopError (Unit {0})
  pub sender : GopSender
  pub effects : List Effect

abbrev pub prepended : List Effect → Sent → Sent
prepended es s = record s { effects = es ++ s.effects }

-- What went before, and what follows it if it succeeded.
abbrev pub and_then : Sent → (GopSender → Sent) → Sent
and_then first next = elim first.result [
  | ok u ↦ prepended first.effects (next first.sender)
  | err e ↦ first
  | panic ↦ first
]

abbrev pub stop : Result GopError (Unit {0}) → GopSender → Sent
stop result s = record { result = result; sender = s; effects = [] }

unfoldable pub write_all : Transport → ℕ → Bytes → GopSender → Sent
write_all t n bytes s =
    if t.takes n bytes
    then record { result = ok tt; sender = s; effects = Effect.wrote n bytes ∷ [] }
    else stop (err write_failed) s

-- `header.serialize()`, whose assertion is a panic, and what is done with it.
abbrev pub with_header : Result IoError Bytes → GopSender → (Bytes → Sent) → Sent
with_header (ok head) s next = next head
with_header (err e) s next = stop (err bad_packet) s
with_header panic s next = stop panic s

abbrev pub write_packet : Transport → MediaPacket → ℕ → GopSender → Bytes → Sent
write_packet t p n s head = and_then (write_all t n head s) (write_all t n p.payload)

-- With no stream, the packet is dropped.
abbrev pub write_to : Transport → MediaPacket → Option ℕ → GopSender → Sent
write_to t p none s = stop (ok tt) s
write_to t p (some n) s = with_header (Media.serialize p.header) s (write_packet t p n s)

unfoldable pub write_media : Transport → MediaPacket → GopSender → Sent
write_media t p s = write_to t p s.current_stream s

abbrev pub finish_old : Option ℕ → List Effect
finish_old none = []
finish_old (some n) = Effect.finished n ∷ []

-- `self.current_stream.replace(new_stream)`; an error of `finish` is logged.
abbrev pub replace_stream : ℕ → GopSender → Sent
replace_stream n s = record {
  result = ok tt;
  sender = record s { current_stream = some n };
  effects = finish_old s.current_stream;
}

abbrev pub ids_of : GopSender → Bytes
ids_of s = be32 s.gop_id ++ be32 s.codec_gen ++ be32 s.config_gen

-- The beginning of stream `n`, once it is open; `panic` is the `unwrap` of a packet that is missing.
unfoldable pub write_opening :
    Transport → ℕ → Bytes → Option CodecPacket → Option MediaPacket → GopSender → Sent
write_opening t n ids none config s = stop panic s
write_opening t n ids (some codec) none s = stop panic s
write_opening t n ids (some codec) (some config) s =
    with_header (Media.serialize config.header) s λ head.
      and_then (write_all t n (ids ++ Codec.serialize codec.header ++ head ++ config.payload) s)
        (replace_stream n)

unfoldable pub start_gop : Transport → GopSender → Sent
start_gop t s =
    let n = s.streams in
    let s' = record s { streams = n + 1; gop_id = next_id s.gop_id } in
    if t.opens n
    then and_then (record { result = ok tt; sender = s'; effects = Effect.opened n ∷ [] })
        (write_opening t n (ids_of s) s.codec_packet s.config_packet)
    else stop (err open_failed) s

unfoldable pub send_media : Transport → MediaPacket → GopSender → Sent
send_media t p s =
    if p.header.is_config
    then stop (ok tt) (record s { config_gen = next_id s.config_gen; config_packet = some p })
    else if p.header.is_key
    then and_then (start_gop t s) (write_media t p)
    else write_media t p s

unfoldable pub send : Transport → GopSender → AvPacket → Sent
send t s (AvPacket.codec p) =
    stop (ok tt) (record s { codec_gen = next_id s.codec_gen; codec_packet = some p })
send t s (AvPacket.media p) = send_media t p s
send t s (AvPacket.hole p) = stop panic s
