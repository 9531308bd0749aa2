-- ===== src/VideoFec/Group.antt =====
-- `PendingGroup` of video_unreliable_fec.rs: a config packet, the media that follow it, and the
-- objects that are not complete.
pub mod Invariant
pub mod Symbols
use plank_kymux.Common.{
  ℕ, ◌+◌, Bool, true, false, ◌||◌, none, some, List, [], ◌∷◌, if◌then◌else◌, Result, ok, panic,
  ◌>>=◌, ◌>>◌, guard, length, get_elem?, set, take, drop, insert_at, remove_at, sum_by,
}
use plank_kymux.Wire.{Bytes}
use plank_kymux.Av.Packet.{AvPacket}
use plank_kymux.Fec.{Oti, PayloadId, Raptorq, FecError, reservation}
use plank_kymux.Fec.Decoder.{eq_oti}
use plank_kymux.Video.Search.{Search, found, absent, position, search}
use plank_kymux.Video.Group.{ConfigPacket, StreamPacket}
use plank_kymux.VideoFec.Segments
use plank_kymux.VideoFec.Segments.{
  FecStats, DatagramPacket, DatagramSegments, no_stats, accumulate, fec_stats, is_complete,
  add_packet, assemble,
}

pub record PendingGroup (D : Type 0) : Type 0 where
  pub group_seq : ℕ
  pub config_packet : ConfigPacket
  pub datagrams : List DatagramPacket
  pub segments : List (DatagramSegments D)

abbrev pub datagram_seq : DatagramPacket → ℕ
datagram_seq d = d.kypacket_seq

abbrev pub datagram_reservation : DatagramPacket → ℕ
datagram_reservation d = reservation d.oti

abbrev pub is_found : Search → Bool
is_found (found i) = true
is_found (absent i) = false

-- The objects and the bytes of a config packet that is ready.
abbrev pub config_usage : ConfigPacket → ℕ × ℕ
config_usage (ConfigPacket.ready p) = elim p.packet [
  | AvPacket.media m ↦ (1, length m.payload)
  | _ ↦ (0, 0)
]
config_usage _ = (0, 0)

abbrev pub datagrams_stats : List DatagramPacket → FecStats
datagrams_stats [] = no_stats
datagrams_stats (d ∷ ds) = accumulate d.fec_stats (datagrams_stats ds)

module _ {D : Type 0} where
  abbrev pub segments_seq : DatagramSegments D → ℕ
  segments_seq s = s.kypacket_seq

  abbrev pub segments_reservation : DatagramSegments D → ℕ
  segments_reservation s = reservation s.decoder.oti

  abbrev pub segments_stats : List (DatagramSegments D) → FecStats
  segments_stats [] = no_stats
  segments_stats (s ∷ ss) = accumulate (fec_stats s) (segments_stats ss)

  unfoldable pub new : ℕ → PendingGroup D
  new g = record {
    group_seq = g;
    config_packet = ConfigPacket.missing;
    datagrams = [];
    segments = [];
  }

  unfoldable pub contains : PendingGroup D → ℕ → Bool
  contains g k =
      is_found (search segments_seq k g.segments) || is_found (search datagram_seq k g.datagrams)

  -- The objects and the bytes that a group holds.
  unfoldable pub usage : PendingGroup D → ℕ × ℕ
  usage g =
      let config = config_usage g.config_packet in
      (
        length g.segments + length g.datagrams + config.0,
        sum_by segments_reservation g.segments + sum_by datagram_reservation g.datagrams + config.1,
      )

  unfoldable pub drop_expired_segments : PendingGroup D → ℕ → FecStats × PendingGroup D
  drop_expired_segments g until =
      let index = position (search segments_seq until g.segments) in
      (segments_stats (take index g.segments), record g { segments = drop index g.segments })

  unfoldable pub insert_datagram_packet : PendingGroup D → DatagramPacket → PendingGroup D
  insert_datagram_packet g p = elim (search datagram_seq p.kypacket_seq g.datagrams) [
    | found i ↦ g
    | absent i ↦ record g { datagrams = insert_at i p g.datagrams }
  ]

  unfoldable pub discarded_fec_stats : PendingGroup D → FecStats
  discarded_fec_stats g = accumulate (datagrams_stats g.datagrams) (segments_stats g.segments)

  -- The segments at `index` once a symbol was added: a complete object moves on.
  unfoldable pub update_segments :
      PendingGroup D → ℕ → DatagramSegments D → ℕ → Result FecError (PendingGroup D)
  update_segments g index s now =
      let done = assemble s now >>= λ p.
      ok (insert_datagram_packet (record g { segments = remove_at index g.segments }) p) in
      if is_complete s then done else ok (record g { segments = set g.segments index s })

  module _ (R : Raptorq D) where
    -- The index of the segments of an object, made if there are none.
    unfoldable pub prepare_datagram_segments :
        PendingGroup D → ℕ → Oti → ℕ → Result FecError (ℕ × PendingGroup D)
    prepare_datagram_segments g k oti now = elim (search segments_seq k g.segments) [
      | found i ↦ ok (i, g)
      | absent i ↦
          Segments.new R k oti now >>= λ s. ok (i, record g { segments = insert_at i s g.segments })
    ]

    -- `self.segments[index]` out of range is a panic.
    unfoldable pub insert_symbol :
        ℕ × PendingGroup D → Oti → PayloadId → Bytes → ℕ → Result FecError (PendingGroup D)
    insert_symbol (index, g) oti id bytes now = elim (get_elem? g.segments index) [
      | none ↦ panic
      | some s ↦ add_packet R s oti id bytes >>= λ s'. update_segments g index s' now
    ]

    -- An object that is there already is checked, and left as it is.
    unfoldable pub insert_datagram :
        PendingGroup D → ℕ → Oti → PayloadId → Bytes → ℕ → Result FecError (PendingGroup D)
    insert_datagram g k oti id bytes now = elim (search datagram_seq k g.datagrams) [
      | found i ↦ elim (get_elem? g.datagrams i) [
        | none ↦ panic
        | some d ↦ guard (eq_oti d.oti oti) FecError.oti_changed_completed >> ok g
      ]
      | absent i ↦ prepare_datagram_segments g k oti now >>= λ p. insert_symbol p oti id bytes now
    ]
