-- ===== src/Video/Group/Invariant.antt =====
-- The invariant of `PendingGroup`, by what the sender has sent, and `insert_datagram`.
use plank_kymux.Common.{
  ℕ, ◌≤◌, ◌≡◌, refl, sym, inl, inr, Bool, true, false, some, Bool-cases, Result, ok, length,
  get_elem?, set, insert_at, remove_at, All,
}
use plank_kymux.Wire.{Bytes, IoError}
use plank_kymux.Av.Packet.{AvPacket}
use plank_kymux.Video.Search.{Search, found, absent, search}
use plank_kymux.Video.Search.Sorted.{
  Increasing, found_lem, get_elem?-insert_absent, Increasing-insert_absent, Increasing-set,
  Increasing-remove_at, All-insert_at, All-set, All-remove_at, All-get,
}
use plank_kymux.Video.Segments
use plank_kymux.Video.Segments.{
  DatagramSegments, DatagramPacket, set_segment, is_complete, assemble,
}
use plank_kymux.Video.Segments.Partial.{IsPartial, new-IsPartial, is_last, set_segment-Takes}
use plank_kymux.Video.Segments.Reassembly.{assemble_lem}
use plank_kymux.Video.Schedule.{Schedule, IsSchedule}
use plank_kymux.Video.Group
use plank_kymux.Video.Group.{
  is_ready, is_none, ConfigPacket, PendingGroup, StreamPacket, segments_seq, datagram_seq,
  prepare_datagram_segments, insert_datagram_packet, drop_expired_segments, update_segments,
  insert_segment, insert_datagram,
}

-- A re-assembled packet of group `g`: the packet that was sent under its number, `next` or later.
pub record IsPending (t : Schedule) (next g : ℕ) (d : DatagramPacket) : Type 0 where
  pub not_config : t.config d.kypacket_seq ≡ false
  pub in_group : t.group_of d.kypacket_seq ≡ g
  pub not_before : next ≤ d.kypacket_seq
  pub same : d.packet ≡ t.packet_of d.kypacket_seq

pub record IsConfig (t : Schedule) (next g : ℕ) (p : StreamPacket) : Type 0 where
  pub is_config : t.config p.kypacket_seq ≡ true
  pub in_group : t.group_of p.kypacket_seq ≡ g
  pub not_before : next ≤ p.kypacket_seq
  pub same : p.packet ≡ t.packet_of p.kypacket_seq

abbrev pub ConfigInv : Schedule → ℕ → ℕ → ConfigPacket → Type 0
ConfigInv t next g (ConfigPacket.ready p) = IsConfig t next g p
ConfigInv t next g _ = Unit {0}

pub record IsStarted (t : Schedule) (g : ℕ) (s : DatagramSegments) : Type 0 where
  pub not_config : t.config s.kypacket_seq ≡ false
  pub in_group : t.group_of s.kypacket_seq ≡ g
  pub partial : IsPartial (t.pieces_of s.kypacket_seq) s

pub record GroupInv (t : Schedule) (next : ℕ) (g : PendingGroup) : Type 0 where
  pub config : ConfigInv t next g.group_seq g.config_packet
  pub datagrams : All (IsPending t next g.group_seq) g.datagrams
  pub datagrams_sorted : Increasing datagram_seq g.datagrams
  pub segments : All (IsStarted t g.group_seq) g.segments
  pub segments_sorted : Increasing segments_seq g.segments

-- A datagram as the sender made it: piece `i` of kypacket `k`.
pub record IsPiece (t : Schedule) (k i : ℕ) (end : Bool) (bytes : Bytes) : Type 0 where
  pub not_config : t.config k ≡ false
  pub piece : get_elem? (t.pieces_of k) i ≡ some bytes
  pub last : end ≡ is_last (length (t.pieces_of k)) i

-- What an operation on a group keeps besides.
abbrev pub Keeps : PendingGroup → PendingGroup → Type 0
Keeps g g' = (g'.group_seq ≡ g.group_seq) × (g'.config_packet ≡ g.config_packet)

module _ (t : Schedule) (next : ℕ) where
  insert_datagram_packet-GroupInv :
      (g : PendingGroup) (p : DatagramPacket)
      → GroupInv t next g
      → IsPending t next g.group_seq p
      → GroupInv t next (insert_datagram_packet g p) × Keeps g (insert_datagram_packet g p)
  unfolding insert_datagram_packet
  insert_datagram_packet-GroupInv g p v h = go (search datagram_seq p.kypacket_seq g.datagrams) refl
    where
      go :
          (r : Search)
          → search datagram_seq p.kypacket_seq g.datagrams ≡ r
          → GroupInv t next (insert_datagram_packet g p) × Keeps g (insert_datagram_packet g p)
      go (found i) e = rw (e, insert_datagram_packet) (v, (refl, refl))
      go (absent i) e =
          rw (e, insert_datagram_packet)
            (
              record {
                config = v.config;
                datagrams =
                    All-insert_at (IsPending t next g.group_seq) i p g.datagrams h v.datagrams;
                datagrams_sorted =
                    Increasing-insert_absent datagram_seq p.kypacket_seq i p g.datagrams e refl
                      v.datagrams_sorted;
                segments = v.segments;
                segments_sorted = v.segments_sorted;
              },
              (refl, refl),
            )

  module _ (sched : IsSchedule t) (g : PendingGroup) (v : GroupInv t next g) where
    -- What an insertion owes: it succeeds, and the group is as good as before.
    abbrev pub Inserts : Result IoError PendingGroup → Type 0
    Inserts r = (g' : PendingGroup) × (r ≡ ok g') × GroupInv t next g' × Keeps g g'

    update_segments-Inserts :
        (i : ℕ) (s s' : DatagramSegments) (now : ℕ)
        → get_elem? g.segments i ≡ some s
        → s'.kypacket_seq ≡ s.kypacket_seq
        → next ≤ s.kypacket_seq
        → IsStarted t g.group_seq s'
        → Inserts (update_segments g i s' now)
    unfolding update_segments
    update_segments-Inserts i s s' now e same lo started = elim (Bool-cases (is_complete s')) [
      | inl done ↦
          let m = sched.media_at s'.kypacket_seq started.not_config in
          let built =
            assemble_lem (t.pieces_of s'.kypacket_seq) s' m.media m.bytes now started.partial done
              m.header m.wired m.cut in
          let p : DatagramPacket = record {
            packet = AvPacket.media m.media;
            kypacket_seq = s'.kypacket_seq;
            instant = now;
          } in
          let rest : PendingGroup = record g { segments = remove_at i g.segments } in
          let (v', kept) =
            insert_datagram_packet-GroupInv rest p
              (record {
                config = v.config;
                datagrams = v.datagrams;
                datagrams_sorted = v.datagrams_sorted;
                segments = All-remove_at (IsStarted t g.group_seq) i g.segments v.segments;
                segments_sorted = Increasing-remove_at segments_seq i g.segments v.segments_sorted;
              })
              (record {
                not_config = started.not_config;
                in_group = started.in_group;
                not_before = rw same lo;
                same = sym m.same;
              }) in
          (insert_datagram_packet rest p, rw (done, built), v', kept)
      | inr more ↦ (
        record g { segments = set g.segments i s' },
        rw more,
        record {
          config = v.config;
          datagrams = v.datagrams;
          datagrams_sorted = v.datagrams_sorted;
          segments = All-set (IsStarted t g.group_seq) i s' g.segments started v.segments;
          segments_sorted = Increasing-set segments_seq i s' s g.segments e same v.segments_sorted;
        },
        (refl, refl),
      )
    ]

    insert_segment-Inserts :
        (i k number : ℕ) (end : Bool) (bytes : Bytes) (now : ℕ) (s : DatagramSegments)
        → get_elem? g.segments i ≡ some s
        → s.kypacket_seq ≡ k
        → next ≤ k
        → IsPiece t k number end bytes
        → Inserts (insert_segment (i, g) number end bytes now)
    unfolding insert_segment
    insert_segment-Inserts i k number end bytes now s e same lo piece =
        let old = All-get (IsStarted t g.group_seq) i g.segments s v.segments e in
        let ps = t.pieces_of s.kypacket_seq in
        let at_seq : get_elem? ps number ≡ some bytes = rw same piece.piece in
        let (s', run, takes) = set_segment-Takes ps s number bytes old.partial at_seq in
        let flag : end ≡ is_last (length ps) number = rw same piece.last in
        let started : IsStarted t g.group_seq s' = record {
          not_config = rw takes.same_seq old.not_config;
          in_group = rw takes.same_seq old.in_group;
          partial = rw takes.same_seq takes.partial;
        } in
        let (g', ran, v', kept) =
          update_segments-Inserts i s s' now e takes.same_seq (rw same lo) started in
        (g', rw (e, insert_segment, flag, run) ran, v', kept)

  pub new-GroupInv : (n : ℕ) → GroupInv t next (Group.new n)
  unfolding Group.new
  new-GroupInv n = record {
    config = tt;
    datagrams = tt;
    datagrams_sorted = tt;
    segments = tt;
    segments_sorted = tt;
  }

  IsStarted-new : (g k : ℕ) → t.config k ≡ false → t.group_of k ≡ g → IsStarted t g (Segments.new k)
  unfolding Segments.new
  IsStarted-new g k c h = record {
    not_config = c;
    in_group = h;
    partial = new-IsPartial (t.pieces_of k) k;
  }

  -- A datagram that the sender made of a kypacket of this group, and that comes before the kypacket's
  -- turn is over, is put in its place: no assertion fails, and what the group holds stays what was
  -- sent.
  pub insert_datagram-GroupInv :
      (g : PendingGroup) (k number : ℕ) (end : Bool) (bytes : Bytes) (now : ℕ)
      → IsSchedule t
      → GroupInv t next g
      → t.group_of k ≡ g.group_seq
      → next ≤ k
      → IsPiece t k number end bytes
      → (g' : PendingGroup) × (insert_datagram g k number end bytes now ≡ ok g')
        × GroupInv t next g'
        × Keeps g g'
  unfolding insert_datagram prepare_datagram_segments
  insert_datagram-GroupInv g k number end bytes now sched v h lo piece =
      go (search datagram_seq k g.datagrams) refl (search segments_seq k g.segments) refl
    where
      go :
          (r : Search)
          → search datagram_seq k g.datagrams ≡ r
          → (q : Search) → search segments_seq k g.segments ≡ q
          → (g' : PendingGroup) × (insert_datagram g k number end bytes now ≡ ok g')
            × GroupInv t next g'
            × Keeps g g'
      go (found i) e q d = (g, rw (e, insert_datagram), v, (refl, refl))
      go (absent i) e (found j) d =
          let (s, at_j, same) = found_lem segments_seq k j g.segments d in
          let (g', ran, v', kept) =
            insert_segment-Inserts sched g v j k number end bytes now s at_j same lo piece in
          (g', rw (e, insert_datagram, d, prepare_datagram_segments) ran, v', kept)
      go (absent i) e (absent j) d =
          let s = Segments.new k in
          let g1 : PendingGroup = record g { segments = insert_at j s g.segments } in
          let v1 : GroupInv t next g1 = record {
            config = v.config;
            datagrams = v.datagrams;
            datagrams_sorted = v.datagrams_sorted;
            segments =
                All-insert_at (IsStarted t g.group_seq) j s g.segments
                  (IsStarted-new g.group_seq k piece.not_config h) v.segments;
            segments_sorted =
                Increasing-insert_absent segments_seq k j s g.segments d
                  (unfold Segments.new in refl) v.segments_sorted;
          } in
          let (g', ran, v', kept) =
            insert_segment-Inserts sched g1 v1 j k number end bytes now s
              (get_elem?-insert_absent segments_seq k j s g.segments d)
              (unfold Segments.new in refl) lo piece in
          (g', rw (e, insert_datagram, d, prepare_datagram_segments) ran, v', kept)
