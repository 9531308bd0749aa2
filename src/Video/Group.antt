-- ===== src/Video/Group.antt =====
-- `PendingGroup` of video_unreliable.rs: a config packet and the media packets that follow it.
pub mod Invariant
pub mod Removal
use plank_kymux.Common.{
  ℕ, Bool, true, false, none, some, List, [], if◌then◌else◌, Result, ok, panic, ◌>>=◌, get_elem?,
  set, drop, insert_at, remove_at,
}
use plank_kymux.Wire.{Bytes, IoError}
use plank_kymux.Av.Packet.{AvPacket}
use plank_kymux.Video.Search.{Search, found, absent, position, search}
use plank_kymux.Video.Segments
use plank_kymux.Video.Segments.{
  DatagramSegments, DatagramPacket, set_segment, is_complete, assemble,
}

pub record StreamPacket : Type 0 where
  pub packet : AvPacket
  pub kypacket_seq : ℕ

pub data ConfigPacket : Type 0 where
  missing : ConfigPacket
  ready : StreamPacket → ConfigPacket
  sent : ConfigPacket

abbrev pub is_ready : ConfigPacket → Bool
is_ready (ConfigPacket.ready p) = true
is_ready _ = false

abbrev pub is_none : ConfigPacket → Bool
is_none ConfigPacket.missing = true
is_none _ = false

-- The packet, and the state that is left; `panic` unless it is ready.
unfoldable pub consume : ConfigPacket → Result IoError (StreamPacket × ConfigPacket)
consume (ConfigPacket.ready p) = ok (p, ConfigPacket.sent)
consume _ = panic

pub record PendingGroup : Type 0 where
  pub group_seq : ℕ
  pub config_packet : ConfigPacket
  pub datagrams : List DatagramPacket
  pub segments : List DatagramSegments

unfoldable pub new : ℕ → PendingGroup
new g = record {
  group_seq = g;
  config_packet = ConfigPacket.missing;
  datagrams = [];
  segments = [];
}

abbrev pub segments_seq : DatagramSegments → ℕ
segments_seq s = s.kypacket_seq

abbrev pub datagram_seq : DatagramPacket → ℕ
datagram_seq d = d.kypacket_seq

-- The index of the segments of a kypacket, made if there are none.
unfoldable pub prepare_datagram_segments : PendingGroup → ℕ → ℕ × PendingGroup
prepare_datagram_segments g k = elim (search segments_seq k g.segments) [
  | found i ↦ (i, g)
  | absent i ↦ (i, record g { segments = insert_at i (Segments.new k) g.segments })
]

unfoldable pub insert_datagram_packet : PendingGroup → DatagramPacket → PendingGroup
insert_datagram_packet g p = elim (search datagram_seq p.kypacket_seq g.datagrams) [
  | found i ↦ g
  | absent i ↦ record g { datagrams = insert_at i p g.datagrams }
]

unfoldable pub drop_expired_segments : PendingGroup → ℕ → PendingGroup
drop_expired_segments g until = record g {
  segments = drop (position (search segments_seq until g.segments)) g.segments;
}

-- The segments at `index` after the datagram was put into them: a complete kypacket moves on.
unfoldable pub update_segments :
    PendingGroup → ℕ → DatagramSegments → ℕ → Result IoError PendingGroup
update_segments g index s now =
    let done = assemble s now >>= λ p.
    ok (insert_datagram_packet (record g { segments = remove_at index g.segments }) p) in
    if is_complete s then done else ok (record g { segments = set g.segments index s })

-- `self.segments[index]` out of range is a panic.
unfoldable pub insert_segment :
    ℕ × PendingGroup → ℕ → Bool → Bytes → ℕ → Result IoError PendingGroup
insert_segment (index, g) number end bytes now = elim (get_elem? g.segments index) [
  | none ↦ panic
  | some s ↦ set_segment s number bytes end >>= λ s'. update_segments g index s' now
]

-- Nothing is done for a kypacket that is there already.
unfoldable pub insert_datagram :
    PendingGroup → ℕ → ℕ → Bool → Bytes → ℕ → Result IoError PendingGroup
insert_datagram g k number end bytes now = elim (search datagram_seq k g.datagrams) [
  | found i ↦ ok g
  | absent i ↦ insert_segment (prepare_datagram_segments g k) number end bytes now
]
