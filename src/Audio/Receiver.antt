-- ===== src/Audio/Receiver.antt =====
-- `AudioUnreliableProtocolRecvDriver` of audio_unreliable.rs: the datagrams, and `process`.
pub mod Samples
pub mod Polling
use plank_kymux.Common.{
  ℕ, ◌+◌, ◌-◌, ◌*◌, ◌/◌, ◌%◌, ◌^◌, min, Bool, not, Option, none, some, List, [], ◌∷◌, ltb, leb,
  ◌==◌, if◌then◌else◌, Result, ok, panic, ◌>>=◌, ◌>>◌, require, length, drop,
}
use plank_kymux.Wire.{Bytes, of_be32, IoError}
use plank_kymux.Av.Packet.{AvPacket, CodecPacket, HolePacket, at}
use plank_kymux.Sequencer
use plank_kymux.Sequencer.{w32, Sequencer, seq}
use plank_kymux.Video.Receiver.{or_default}
use plank_kymux.Audio.Group
use plank_kymux.Audio.Group.{
  PendingGroup, Action, insert_stream_packet, insert_datagram, take_next_packet,
}

abbrev pub datagram_header_size : ℕ
datagram_header_size = 10

pub record DatagramMsg : Type 0 where
  pub bytes : Bytes
  pub raw_kypacket_seq : ℕ
  pub datagram_number : ℕ
  pub end : Bool

pub record StreamMsg : Type 0 where
  pub packet : AvPacket
  pub raw_kypacket_seq : ℕ

pub data RecvMsg : Type 0 where
  stream : StreamMsg → RecvMsg
  datagram : DatagramMsg → RecvMsg

abbrev u32_at : Bytes → ℕ → ℕ
u32_at buf i = of_be32 (at buf i) (at buf (i + 1)) (at buf (i + 2)) (at buf (i + 3))

-- One round of `recv_datagrams`: the endpoint id is skipped; `panic` is the assertion on the length.
unfoldable pub parse_datagram : Bytes → Result IoError DatagramMsg
parse_datagram buf = do
  require (leb datagram_header_size (length buf))
  ok (record {
    bytes = drop datagram_header_size buf;
    raw_kypacket_seq = u32_at buf 2;
    datagram_number = u32_at buf 6 % 2 ^ 31;
    end = not (u32_at buf 6 / 2 ^ 31 % 2 == 0);
  })

-- The variables of `process`.
pub record Receiver : Type 0 where
  pub kypacket_sequencer : Sequencer
  pub pending_group : PendingGroup
  pub next_kypacket_seq : ℕ
  pub deadline : Option ℕ
  pub frame_size : Option ℕ
  pub dropped_packets : Option ℕ

unfoldable pub start : Receiver
unfolding Sequencer.new Group.new
start = record {
  kypacket_sequencer = Sequencer.new;
  pending_group = Group.new;
  next_kypacket_seq = 0;
  deadline = none;
  frame_size = none;
  dropped_packets = none;
}

-- The samples of a gap, as a u32.
abbrev pub hole_samples : ℕ → ℕ → ℕ
hole_samples missing frame_size = min (missing * frame_size) (2 ^ 32 - 1)

abbrev pub hole_of : ℕ → ℕ → AvPacket
hole_of missing frame_size =
    AvPacket.hole
      (record { header = record { missing_audio_samples = hole_samples missing frame_size } })

-- Packet `k` goes to the client, after a hole for those before it that are missing.
unfoldable pub give : Receiver → ℕ → AvPacket → ℕ → Receiver × List AvPacket
give r k p frame_size =
    let sent = record r { next_kypacket_seq = k + 1; deadline = none } in
    let missing = k - r.next_kypacket_seq in
    if ltb r.next_kypacket_seq k
    then (
      record sent { dropped_packets = some (or_default r.dropped_packets + missing) },
      hole_of missing frame_size ∷ p ∷ [],
    )
    else (sent, p ∷ [])

-- `panic` is the assertion that a codec packet came before.
abbrev pub give_packet :
    Receiver → ℕ → AvPacket → Option ℕ → Result IoError (Receiver × List AvPacket)
give_packet r k p none = panic
give_packet r k p (some frame_size) = ok (give r k p frame_size)

abbrev pub apply_action :
    Receiver → Action × PendingGroup → Result IoError (Receiver × List AvPacket)
apply_action r (Action.nothing, g) = ok (record r { pending_group = g; deadline = none }, [])
apply_action r (Action.deadline t, g) = ok (record r { pending_group = g; deadline = some t }, [])
apply_action r (Action.packet k p, g) =
    give_packet (record r { pending_group = g }) k p r.frame_size

-- What follows the `select!`.
unfoldable pub poll : Receiver → ℕ → Result IoError (Receiver × List AvPacket)
poll r now = take_next_packet r.pending_group r.next_kypacket_seq now >>= apply_action r

unfoldable pub accept_codec : Receiver → CodecPacket → Result IoError (Receiver × List AvPacket)
accept_codec r p = do
  require (ltb 0 p.header.frame_size)
  ok (record r { frame_size = some p.header.frame_size }, AvPacket.codec p ∷ [])

unfoldable pub accept_stream :
    Receiver → ℕ → AvPacket → ℕ → Result IoError (Receiver × List AvPacket)
accept_stream r k p now =
    if leb r.next_kypacket_seq k
    then (insert_stream_packet r.pending_group k p >>= λ g.
        poll (record r { pending_group = g }) now)
    else poll r now

unfoldable pub accept_datagram :
    Receiver → ℕ → DatagramMsg → ℕ → Result IoError (Receiver × List AvPacket)
accept_datagram r k m now =
    if ltb k r.next_kypacket_seq
    then ok (r, [])
    else (insert_datagram r.pending_group k m.datagram_number m.end m.bytes now >>= λ g.
        poll (record r { pending_group = g }) now)

abbrev pub counted : Receiver → ℕ → Receiver
counted r raw = record r { kypacket_sequencer = (seq w32 r.kypacket_sequencer raw).1 }

abbrev pub accept_stream_msg :
    Receiver → StreamMsg → AvPacket → ℕ → Result IoError (Receiver × List AvPacket)
accept_stream_msg r m (AvPacket.codec p) now = accept_codec r p
accept_stream_msg r m _ now =
    accept_stream (counted r m.raw_kypacket_seq) (seq w32 r.kypacket_sequencer m.raw_kypacket_seq).0
      m.packet now

-- One round of the loop of `process` that `rx.recv()` begins; `now` is what `Instant::now()` gives.
unfoldable pub on_msg : Receiver → RecvMsg → ℕ → Result IoError (Receiver × List AvPacket)
on_msg r (stream m) now = accept_stream_msg r m m.packet now
on_msg r (datagram m) now =
    accept_datagram (counted r m.raw_kypacket_seq)
      (seq w32 r.kypacket_sequencer m.raw_kypacket_seq).0 m now

-- One round that the deadline begins.
unfoldable pub on_deadline : Receiver → ℕ → Result IoError (Receiver × List AvPacket)
on_deadline = poll
