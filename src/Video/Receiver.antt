-- ===== src/Video/Receiver.antt =====
-- `VideoUnreliableProtocolRecvDriver` of video_unreliable.rs: the datagram header, and `process`.
pub mod Steps
pub mod Order
use plank_kymux.Common.{
  ℕ, ◌+◌, ◌-◌, ◌/◌, ◌%◌, ◌^◌, Bool, not, Option, none, some, List, [], ◌∷◌, ltb, leb, ◌==◌,
  if◌then◌else◌, Result, ok, ◌>>=◌, ◌>>◌, require, length, drop,
}
use plank_kymux.Wire.{Bytes, of_be32, IoError}
use plank_kymux.Av.Packet.{AvPacket, at}
use plank_kymux.Sequencer
use plank_kymux.Sequencer.{w32, Sequencer, seq}
use plank_kymux.Video.Group.{PendingGroup}
use plank_kymux.Video.Groups.{Action, insert_stream_packet, insert_group_datagram, take_next_packet}

abbrev pub datagram_header_size : ℕ
datagram_header_size = 14

pub record DatagramMsg : Type 0 where
  pub bytes : Bytes
  pub raw_kypacket_seq : ℕ
  pub raw_group_seq : ℕ
  pub datagram_number : ℕ
  pub end : Bool

pub record StreamMsg : Type 0 where
  pub packet : AvPacket
  pub raw_kypacket_seq : ℕ
  pub raw_group_seq : ℕ

pub data RecvMsg : Type 0 where
  stream : StreamMsg → RecvMsg
  datagram : DatagramMsg → RecvMsg

abbrev u32_at : Bytes → ℕ → ℕ
u32_at buf i = of_be32 (at buf i) (at buf (i + 1)) (at buf (i + 2)) (at buf (i + 3))

-- One round of `recv_datagrams`: the endpoint id is skipped; `panic` is the assertion on the length.
unfoldable pub parse_datagram : Bytes → Result IoError DatagramMsg
parse_datagram buf = do
  require (leb datagram_header_size (length buf))
  ok (record {
    bytes = drop datagram_header_size buf;
    raw_kypacket_seq = u32_at buf 2;
    raw_group_seq = u32_at buf 6;
    datagram_number = u32_at buf 10 % 2 ^ 31;
    end = not (u32_at buf 10 / 2 ^ 31 % 2 == 0);
  })

-- The variables of `process`.
pub record Receiver : Type 0 where
  pub group_sequencer : Sequencer
  pub kypacket_sequencer : Sequencer
  pub pending_groups : List PendingGroup
  pub next_kypacket_seq : ℕ
  pub deadline : Option ℕ
  pub dropped_packets : Option ℕ

unfoldable pub start : Receiver
unfolding Sequencer.new
start = record {
  group_sequencer = Sequencer.new;
  kypacket_sequencer = Sequencer.new;
  pending_groups = [];
  next_kypacket_seq = 0;
  deadline = none;
  dropped_packets = none;
}

abbrev pub or_default : Option ℕ → ℕ
or_default none = 0
or_default (some n) = n

-- `protocol_stats.dropped_packets`, once packet `k` is sent.
abbrev pub count_dropped : Receiver → ℕ → Option ℕ
count_dropped r k =
    if ltb r.next_kypacket_seq k
    then some (or_default r.dropped_packets + (k - r.next_kypacket_seq))
    else r.dropped_packets

abbrev pub apply_action : Receiver → Action × List PendingGroup → Receiver × List AvPacket
apply_action r (Action.nothing, gs) = (record r { pending_groups = gs; deadline = none }, [])
apply_action r (Action.deadline t, gs) = (record r { pending_groups = gs; deadline = some t }, [])
apply_action r (Action.packet k p, gs) = (
  record r {
    pending_groups = gs;
    next_kypacket_seq = k + 1;
    deadline = none;
    dropped_packets = count_dropped r k;
  },
  p ∷ [],
)

-- What follows the `select!`: `take_next_packet`, and what is sent to the client.
unfoldable pub poll : Receiver → ℕ → Result IoError (Receiver × List AvPacket)
poll r now =
    take_next_packet r.pending_groups r.next_kypacket_seq now >>= λ a. ok (apply_action r a)

-- A message of kypacket `k` of group `group`, by the unrolled numbers, in a receiver whose
-- sequencers have counted it.
unfoldable pub accept_stream :
    Receiver → ℕ → ℕ → AvPacket → ℕ → Result IoError (Receiver × List AvPacket)
accept_stream r k group p now =
    if leb r.next_kypacket_seq k
    then (insert_stream_packet r.pending_groups group k p >>= λ gs.
        poll (record r { pending_groups = gs }) now)
    else poll r now

unfoldable pub accept_datagram :
    Receiver → ℕ → ℕ → DatagramMsg → ℕ → Result IoError (Receiver × List AvPacket)
accept_datagram r k group m now =
    if ltb k r.next_kypacket_seq
    then ok (r, [])
    else (insert_group_datagram r.pending_groups group k m.datagram_number m.end m.bytes now
        >>= λ gs. poll (record r { pending_groups = gs }) now)

-- The two calls of `seq`, with the sequencers they leave.
abbrev pub counted : Receiver → ℕ → ℕ → Receiver
counted r raw_k raw_g = record r {
  kypacket_sequencer = (seq w32 r.kypacket_sequencer raw_k).1;
  group_sequencer = (seq w32 r.group_sequencer raw_g).1;
}

unfoldable pub accept_stream_msg :
    Receiver → StreamMsg → AvPacket → ℕ → Result IoError (Receiver × List AvPacket)
accept_stream_msg r m (AvPacket.codec p) now = ok (r, m.packet ∷ [])
accept_stream_msg r m _ now =
    accept_stream (counted r m.raw_kypacket_seq m.raw_group_seq)
      (seq w32 r.kypacket_sequencer m.raw_kypacket_seq).0
      (seq w32 r.group_sequencer m.raw_group_seq).0 m.packet now

-- One round of the loop of `process` that `rx.recv()` begins; `now` is what `Instant::now()` gives.
unfoldable pub on_msg : Receiver → RecvMsg → ℕ → Result IoError (Receiver × List AvPacket)
unfolding accept_stream_msg
on_msg r (stream m) now = accept_stream_msg r m m.packet now
on_msg r (datagram m) now =
    accept_datagram (counted r m.raw_kypacket_seq m.raw_group_seq)
      (seq w32 r.kypacket_sequencer m.raw_kypacket_seq).0
      (seq w32 r.group_sequencer m.raw_group_seq).0 m now

-- One round that the deadline begins.
unfoldable pub on_deadline : Receiver → ℕ → Result IoError (Receiver × List AvPacket)
on_deadline = poll
