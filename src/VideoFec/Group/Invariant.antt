-- ===== src/VideoFec/Group/Invariant.antt =====
-- The invariant of `PendingGroup` in video_unreliable_fec.rs, and what it holds.
use plank_kymux.Common.{
  ℕ, ◌+◌, ◌≤◌, ◌≡◌, refl, none, arith, All, sum_by, sum_by-insert_at, sum_by-drop,
}
use plank_kymux.Av.Packet.{AvPacket, MediaPacket}
use plank_kymux.Fec.{Oti, Raptorq, max_video_payload}
use plank_kymux.Fec.Decoder.Invariant.{IsDecoder}
use plank_kymux.Fec.Validation.{IsValidOti}
use plank_kymux.Video.Search.{Search, found, absent, position, search}
use plank_kymux.Video.Search.Sorted.{
  Increasing, Increasing-insert_absent, Increasing-drop, All-insert_at, All-drop,
}
use plank_kymux.Video.Group.{ConfigPacket}
use plank_kymux.VideoFec.Segments.{DatagramPacket, DatagramSegments}
use plank_kymux.VideoFec.Group
use plank_kymux.VideoFec.Group.{
  PendingGroup, datagram_seq, segments_seq, is_found, contains, drop_expired_segments,
  insert_datagram_packet, prepare_datagram_segments, update_segments, insert_symbol,
  insert_datagram,
}

-- Only a media packet is kept as a config packet.
abbrev pub IsConfig : ConfigPacket → Type 0
IsConfig (ConfigPacket.ready p) = (m : MediaPacket) × (p.packet ≡ AvPacket.media m)
IsConfig _ = Unit {0}

abbrev pub IsComplete : DatagramPacket → Type 0
IsComplete d = IsValidOti d.oti max_video_payload

-- What a group holds, by a weight of each object and of the config packet.
unfoldable pub charge : {D : Type 0} → (Oti → ℕ) → (ConfigPacket → ℕ) → PendingGroup D → ℕ
charge c w g =
    sum_by (λ s. c s.decoder.oti) g.segments + sum_by (λ d. c d.oti) g.datagrams + w g.config_packet

module _ {D : Type 0} (R : Raptorq D) where
  -- An object that waits for symbols.
  pub record IsWaiting (s : DatagramSegments D) : Type 0 where
    pub decoder : IsDecoder R max_video_payload s.decoder
    pub waiting : s.assembled ≡ none

  pub record IsGroup (g : PendingGroup D) : Type 0 where
    pub config : IsConfig g.config_packet
    pub datagrams : All IsComplete g.datagrams
    pub datagrams_sorted : Increasing datagram_seq g.datagrams
    pub segments : All IsWaiting g.segments
    pub segments_sorted : Increasing segments_seq g.segments

  -- The group is in order, keeps its number and its config packet, and holds at most `extra` more.
  pub record Grows (extra : (Oti → ℕ) → ℕ) (g g' : PendingGroup D) : Type 0 where
    pub group : IsGroup g'
    pub same_seq : g'.group_seq ≡ g.group_seq
    pub same_config : g'.config_packet ≡ g.config_packet
    pub charged : (c : Oti → ℕ) (w : ConfigPacket → ℕ) → charge c w g' ≤ charge c w g + extra c

  pub new-IsGroup : (n : ℕ) → IsGroup (Group.new n)
  unfolding Group.new
  new-IsGroup n = record {
    config = tt;
    datagrams = tt;
    datagrams_sorted = tt;
    segments = tt;
    segments_sorted = tt;
  }

  pub insert_datagram_packet_lem :
      (g : PendingGroup D) (p : DatagramPacket)
      → IsGroup g
      → IsComplete p
      → Grows (λ c. c p.oti) g (insert_datagram_packet g p)
  unfolding insert_datagram_packet charge
  insert_datagram_packet_lem g p v h = go (search datagram_seq p.kypacket_seq g.datagrams) refl
    where
      go :
          (r : Search)
          → search datagram_seq p.kypacket_seq g.datagrams ≡ r
          → Grows (λ c. c p.oti) g (insert_datagram_packet g p)
      go (found i) e =
          rw (e, insert_datagram_packet)
            record { group = v; same_seq = refl; same_config = refl; charged = λ c w. omega arith }
      go (absent i) e =
          rw (e, insert_datagram_packet)
            record {
              group = record {
                config = v.config;
                datagrams = All-insert_at IsComplete i p g.datagrams h v.datagrams;
                datagrams_sorted =
                    Increasing-insert_absent datagram_seq p.kypacket_seq i p g.datagrams e refl
                      v.datagrams_sorted;
                segments = v.segments;
                segments_sorted = v.segments_sorted;
              };
              same_seq = refl;
              same_config = refl;
              charged = λ c w. omega (arith, sum_by-insert_at (λ d. c d.oti) i p g.datagrams);
            }

  -- Dropping the first datagram and the segments before it takes away from what the group holds.
  pub drop_expired_segments_lem :
      (g : PendingGroup D) (until : ℕ)
      → IsGroup g
      → Grows (λ c. 0) g (drop_expired_segments g until).1
  unfolding drop_expired_segments charge
  drop_expired_segments_lem g until v =
      let i = position (search segments_seq until g.segments) in
      record {
        group = record {
          config = v.config;
          datagrams = v.datagrams;
          datagrams_sorted = v.datagrams_sorted;
          segments = All-drop IsWaiting i g.segments v.segments;
          segments_sorted = Increasing-drop segments_seq i g.segments v.segments_sorted;
        };
        same_seq = refl;
        same_config = refl;
        charged = λ c w.
            omega (arith, sum_by-drop (λ (s : DatagramSegments D). c s.decoder.oti) i g.segments);
      }
