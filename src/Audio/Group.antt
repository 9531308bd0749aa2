-- ===== src/Audio/Group.antt =====
-- `PendingGroup` of audio_unreliable.rs: the only one, with a config packet and the packets that follow
-- it. Its `DatagramSegments`, `DatagramPacket` and `ConfigPacket` are those of video_unreliable.rs, line
-- for line.
pub mod Refinement
use plank_kymux.Common.{
  ℕ, ◌+◌, Bool, true, false, not, Option, none, some, List, [], ◌∷◌, leb, ◌==◌, if◌then◌else◌,
  Result, ok, panic, ◌>>=◌, ◌>>◌, require, get_elem?, set, drop, insert_at, remove_at,
}
use plank_kymux.Wire.{Bytes, IoError}
use plank_kymux.Av.Packet.{AvPacket}
use plank_kymux.Video.Search.{Search, found, absent, position, search}
use plank_kymux.Video.Segments
use plank_kymux.Video.Segments.{
  DatagramSegments, DatagramPacket, set_segment, is_complete, assemble,
}
use plank_kymux.Video.Group.{
  ConfigPacket, StreamPacket, is_ready, is_none, consume, segments_seq, datagram_seq,
}
use plank_kymux.Video.Groups.{config_is_next, min_datagrams}

-- `MAX_BUFFERING`, in nanoseconds.
abbrev pub max_buffering : ℕ
max_buffering = 10_000_000

pub record PendingGroup : Type 0 where
  pub config_packet : ConfigPacket
  pub datagrams : List DatagramPacket
  pub segments : List DatagramSegments

unfoldable pub new : PendingGroup
new = record { config_packet = ConfigPacket.missing; datagrams = []; segments = [] }

-- `panic` is the assertion that there is no config packet yet.
unfoldable pub insert_stream_packet : PendingGroup → ℕ → AvPacket → Result IoError PendingGroup
insert_stream_packet g k p = do
  require (is_none g.config_packet)
  ok (record g { config_packet = ConfigPacket.ready (record { packet = p; kypacket_seq = k }) })

unfoldable pub prepare_datagram_segments : PendingGroup → ℕ → ℕ × PendingGroup
prepare_datagram_segments g k = elim (search segments_seq k g.segments) [
  | found i ↦ (i, g)
  | absent i ↦ (i, record g { segments = insert_at i (Segments.new k) g.segments })
]

unfoldable pub insert_datagram_packet : PendingGroup → DatagramPacket → PendingGroup
insert_datagram_packet g p = elim (search datagram_seq p.kypacket_seq g.datagrams) [
  | found i ↦ g
  | absent i ↦ record g { datagrams = insert_at i p g.datagrams }
]

unfoldable pub drop_expired_segments : PendingGroup → ℕ → PendingGroup
drop_expired_segments g until = record g {
  segments = drop (position (search segments_seq until g.segments)) g.segments;
}

-- The segments at `index` after a datagram was put into them: a complete kypacket moves on.
unfoldable pub update_segments :
    PendingGroup → ℕ → DatagramSegments → ℕ → Result IoError PendingGroup
update_segments g index s now =
    let done = assemble s now >>= λ p.
    ok (insert_datagram_packet (record g { segments = remove_at index g.segments }) p) in
    if is_complete s then done else ok (record g { segments = set g.segments index s })

-- `self.segments[index]` out of range is a panic.
unfoldable pub insert_segment :
    ℕ × PendingGroup → ℕ → Bool → Bytes → ℕ → Result IoError PendingGroup
insert_segment (index, g) number end bytes now = elim (get_elem? g.segments index) [
  | none ↦ panic
  | some s ↦ set_segment s number bytes end >>= λ s'. update_segments g index s' now
]

unfoldable pub insert_datagram :
    PendingGroup → ℕ → ℕ → Bool → Bytes → ℕ → Result IoError PendingGroup
insert_datagram g k number end bytes now = elim (search datagram_seq k g.datagrams) [
  | found i ↦ ok g
  | absent i ↦ insert_segment (prepare_datagram_segments g k) number end bytes now
]

pub data NextPacket : Type 0 where
  nothing : NextPacket
  ready : Bool → NextPacket
  deadline : ℕ → NextPacket

pub data Action : Type 0 where
  packet : ℕ → AvPacket → Action
  deadline : ℕ → Action
  nothing : Action

-- By the oldest instant, if there is one.
abbrev pub by_deadline : Bool → ℕ → Option ℕ → NextPacket
by_deadline config now none = NextPacket.nothing
by_deadline config now (some t) =
    if leb (t + max_buffering) now
    then NextPacket.ready config
    else NextPacket.deadline (t + max_buffering)

abbrev pub by_datagrams : Bool → ℕ → ℕ → Option ℕ → List DatagramPacket → NextPacket
by_datagrams config next now m [] = NextPacket.nothing
by_datagrams config next now m (d ∷ ds) =
    if d.kypacket_seq == next then NextPacket.ready config else by_deadline config now m

unfoldable pub next_packet : PendingGroup → ℕ → ℕ → NextPacket
next_packet g next now =
    if is_none g.config_packet
    then NextPacket.nothing
    else if config_is_next g.config_packet next
    then NextPacket.ready true
    else by_datagrams (is_ready g.config_packet) next now (min_datagrams g.datagrams) g.datagrams

-- The end of `take_next_packet`: the config packet (`true`), or the first datagram.
unfoldable pub take_ready : Bool → PendingGroup → Result IoError (Action × PendingGroup)
take_ready true g = do
  require (not (is_none g.config_packet))
  (p, c) ← consume g.config_packet
  ok (Action.packet p.kypacket_seq p.packet, record g { config_packet = c })
take_ready false g = do
  require (not (is_none g.config_packet))
  elim g.datagrams [
    | [] ↦ panic
    | d ∷ ds ↦ ok (
      Action.packet d.kypacket_seq d.packet,
      drop_expired_segments (record g { datagrams = ds }) d.kypacket_seq,
    )
  ]

abbrev pub take_ref : NextPacket → PendingGroup → Result IoError (Action × PendingGroup)
take_ref NextPacket.nothing g = ok (Action.nothing, g)
take_ref (NextPacket.deadline t) g = ok (Action.deadline t, g)
take_ref (NextPacket.ready config) g = take_ready config g

unfoldable pub take_next_packet : PendingGroup → ℕ → ℕ → Result IoError (Action × PendingGroup)
take_next_packet g next now = take_ref (next_packet g next now) g
