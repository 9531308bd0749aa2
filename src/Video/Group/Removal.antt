-- ===== src/Video/Group/Removal.antt =====
-- `PendingGroup`, when packets leave it and the next number moves on.
use plank_kymux.Common.{ℕ, ◌+◌, ◌≤◌, ◌<◌, ◌≡◌, sym, ap, ◌∙◌, false, List, ◌∷◌, arith}
use mathlib.Core.Bool.{false≢true}
use native.Mathlib.Decide.{dec_lt, dec_le, ℕ_discrete}
use plank_kymux.Video.Search.{position, search}
use plank_kymux.Video.Search.Sorted.{Increasing-drop, All-drop, All-map, All-map2}
use plank_kymux.Video.Segments.{DatagramPacket}
use plank_kymux.Video.Schedule.{Schedule, IsSchedule}
use plank_kymux.Video.Group.{
  is_ready, ConfigPacket, PendingGroup, StreamPacket, segments_seq, datagram_seq,
  drop_expired_segments,
}
use plank_kymux.Video.Group.Invariant.{IsPending, IsConfig, ConfigInv, IsStarted, GroupInv}

module _ (t : Schedule) (next : ℕ) where
  config_not_ready : (n g : ℕ) (c : ConfigPacket) → is_ready c ≡ false → ConfigInv t n g c
  config_not_ready n g (ConfigPacket.ready p) h = cc
  config_not_ready n g ConfigPacket.missing h = tt
  config_not_ready n g ConfigPacket.sent h = tt

  -- With the first datagram taken off, and the segments before it dropped, the group holds only later
  -- packets.
  pub pop-GroupInv :
      (g : PendingGroup) (d : DatagramPacket) (ds : List DatagramPacket)
      → GroupInv t next g
      → g.datagrams ≡ d ∷ ds
      → is_ready g.config_packet ≡ false
      → GroupInv t
          (d.kypacket_seq + 1)
          (drop_expired_segments (record g { datagrams = ds }) d.kypacket_seq)
  unfolding drop_expired_segments
  pop-GroupInv g d ds v e c =
      let pending = rw e at v.datagrams in
      let sorted = rw e at v.datagrams_sorted in
      let i = position (search segments_seq d.kypacket_seq g.segments) in
      record {
        config = config_not_ready (d.kypacket_seq + 1) g.group_seq g.config_packet c;
        datagrams =
            All-map2 (λ x. d.kypacket_seq < datagram_seq x) (IsPending t next g.group_seq)
              (IsPending t (d.kypacket_seq + 1) g.group_seq)
              (λ x lt p. record {
                not_config = p.not_config;
                in_group = p.in_group;
                not_before = omega arith;
                same = p.same;
              })
              ds sorted.0 pending.1;
        datagrams_sorted = sorted.1;
        segments = All-drop (IsStarted t g.group_seq) i g.segments v.segments;
        segments_sorted = Increasing-drop segments_seq i g.segments v.segments_sorted;
      }

  -- A group of a higher number holds only packets after `k`.
  pub raise-GroupInv :
      (g : PendingGroup) (k : ℕ)
      → IsSchedule t
      → t.group_of k < g.group_seq
      → GroupInv t next g
      → GroupInv t (k + 1) g
  raise-GroupInv g k sched h v = record {
    config = raise_config g.config_packet v.config;
    datagrams =
        All-map (IsPending t next g.group_seq) (IsPending t (k + 1) g.group_seq)
          (λ x p. record {
            not_config = p.not_config;
            in_group = p.in_group;
            not_before = later x.kypacket_seq p.in_group;
            same = p.same;
          })
          g.datagrams v.datagrams;
    datagrams_sorted = v.datagrams_sorted;
    segments = v.segments;
    segments_sorted = v.segments_sorted;
  }
    where
      later : (m : ℕ) → t.group_of m ≡ g.group_seq → k + 1 ≤ m
      later m e = elim (dec_le m k) [
        | yes le ↦ absurd (omega (arith, sched.mono m k le))
        | no gt ↦ omega arith
      ]

      raise_config :
          (c : ConfigPacket) → ConfigInv t next g.group_seq c → ConfigInv t (k + 1) g.group_seq c
      raise_config (ConfigPacket.ready p) c = record {
        is_config = c.is_config;
        in_group = c.in_group;
        not_before = later p.kypacket_seq c.in_group;
        same = c.same;
      }
      raise_config ConfigPacket.missing c = tt
      raise_config ConfigPacket.sent c = tt

  -- Once the config packet is sent, the group holds only packets after it.
  pub sent-GroupInv :
      (g : PendingGroup) (p : StreamPacket)
      → IsSchedule t
      → GroupInv t next g
      → g.config_packet ≡ ConfigPacket.ready p
      → GroupInv t (p.kypacket_seq + 1) (record g { config_packet = ConfigPacket.sent })
  sent-GroupInv g p sched v e =
      let c = rw e at v.config in
      record {
        config = tt;
        datagrams =
            All-map (IsPending t next g.group_seq) (IsPending t (p.kypacket_seq + 1) g.group_seq)
              (λ x d. record {
                not_config = d.not_config;
                in_group = d.in_group;
                not_before = after x.kypacket_seq c d.in_group d.not_config;
                same = d.same;
              })
              g.datagrams v.datagrams;
        datagrams_sorted = v.datagrams_sorted;
        segments = v.segments;
        segments_sorted = v.segments_sorted;
      }
    where
      after :
          (m : ℕ)
          → IsConfig t next g.group_seq p
          → t.group_of m ≡ g.group_seq
          → t.config m ≡ false
          → p.kypacket_seq + 1 ≤ m
      after m c h n = elim (dec_lt m p.kypacket_seq) [
        | yes lt ↦
            absurd (omega (arith, sched.config_first m p.kypacket_seq c.is_config lt, c.in_group))
        | no ge ↦ elim (ℕ_discrete m p.kypacket_seq) [
          | yes same ↦ absurd (false≢true (sym n ∙ ap t.config same ∙ c.is_config))
          | no other ↦ omega arith
        ]
      ]
