-- ===== src/Video/Groups/Invariant.antt =====
-- The invariant of `PendingGroups`, and its operations.
use plank_kymux.Common.{
  ℕ, zero, suc, ◌+◌, ◌≤◌, ◌<◌, ◌≡◌, refl, sym, ap, ◌∙◌, subst, ◌⊎◌, inl, inr, Bool, true, false,
  some, List, [], ◌∷◌, arith, Result, ok, get_elem?, set, drop, insert_at, All,
}
use mathlib.Core.Bool.{false≢true}
use plank_kymux.Wire.{Bytes, IoError}
use plank_kymux.Video.Search.{Search, found, absent, search}
use plank_kymux.Video.Search.Sorted.{
  Increasing, found_lem, get_elem?-insert_absent, Increasing-insert_absent, Increasing-set,
  All-insert_at, All-set, All-get, All-map, All-map2,
}
use plank_kymux.Video.Schedule.{Schedule, IsSchedule}
use plank_kymux.Video.Group
use plank_kymux.Video.Group.{
  ConfigPacket, PendingGroup, StreamPacket, is_none, is_ready, insert_datagram, consume,
  drop_expired_segments,
}
use plank_kymux.Video.Group.Invariant.{GroupInv, IsPiece, new-GroupInv, insert_datagram-GroupInv}
use plank_kymux.Video.Group.Removal.{pop-GroupInv, raise-GroupInv, sent-GroupInv}
use plank_kymux.Video.Groups.{
  Action, NextPacket, nothing, ready, deadline, packet, group_seq, prepare_pending_group, update_at,
  set_config, insert_stream_packet, insert_group_datagram, next_packet, take_from_group, take_from,
  take_ref, take_next_packet,
}
use plank_kymux.Video.Groups.Choice.{Sendable, next_packet-Sendable}

-- Config packets arrive in order: those of the groups from `seen` on are still to come.
abbrev pub IsSeen : ℕ → PendingGroup → Type 0
IsSeen seen g = (is_none g.config_packet ≡ true) ⊎ (g.group_seq < seen)

pub record GroupsInv (t : Schedule) (next seen : ℕ) (gs : List PendingGroup) : Type 0 where
  pub sorted : Increasing group_seq gs
  pub groups : All (GroupInv t next) gs
  pub configs : All (IsSeen seen) gs

module _ (t : Schedule) (next : ℕ) where
  -- What an update of the group `n` owes the groups.
  abbrev Updates : ℕ → ℕ → PendingGroup → Result IoError PendingGroup → Type 0
  Updates n seen g r =
      (g' : PendingGroup) × (r ≡ ok g')
      × GroupInv t next g'
      × (g'.group_seq ≡ g.group_seq)
      × IsSeen seen g'

  abbrev pub Keeps : ℕ → Result IoError (List PendingGroup) → Type 0
  Keeps seen r = (gs' : List PendingGroup) × (r ≡ ok gs') × GroupsInv t next seen gs'

  update_at-Keeps :
      (f : PendingGroup → Result IoError PendingGroup) (n seen seen' i : ℕ) (gs : List PendingGroup)
      (g : PendingGroup)
      → seen ≤ seen'
      → GroupsInv t next seen gs
      → get_elem? gs i ≡ some g
      → Updates n seen' g (f g)
      → Keeps seen' (update_at f (i, gs))
  unfolding update_at
  update_at-Keeps f n seen seen' i gs g le v e (g', run, v', same, s) = (
    set gs i g',
    rw (e, update_at, run),
    record {
      sorted = Increasing-set group_seq i g' g gs e same v.sorted;
      groups = All-set (GroupInv t next) i g' gs v' v.groups;
      configs =
          All-set (IsSeen seen') i g' gs s
            (All-map (IsSeen seen) (IsSeen seen') (λ x y. widen x y) gs v.configs);
    },
  )
    where
      widen : (x : PendingGroup) → IsSeen seen x → IsSeen seen' x
      widen x (inl y) = inl y
      widen x (inr y) = inr (omega arith)

  -- An update of group `n`, which is made if it is not there.
  prepared-Keeps :
      (f : PendingGroup → Result IoError PendingGroup) (n seen seen' : ℕ) (gs : List PendingGroup)
      → seen ≤ seen'
      → GroupsInv t next seen gs
      → ((g : PendingGroup)
          → GroupInv t next g
          → g.group_seq ≡ n
          → IsSeen seen g
          → Updates n seen' g (f g))
      → Keeps seen' (update_at f (prepare_pending_group gs n))
  unfolding prepare_pending_group
  prepared-Keeps f n seen seen' gs le v h = go (search group_seq n gs) refl
    where
      go :
          (r : Search)
          → search group_seq n gs ≡ r
          → Keeps seen' (update_at f (prepare_pending_group gs n))
      go (found i) e =
          let (g, at, same) = found_lem group_seq n i gs e in
          rw (e, prepare_pending_group)
            (update_at-Keeps f n seen seen' i gs g le v at (
              h g (All-get (GroupInv t next) i gs g v.groups at) same
                (All-get (IsSeen seen) i gs g v.configs at)))
      go (absent i) e =
          let g = Group.new n in
          let is_n : g.group_seq ≡ n = unfold Group.new in refl in
          let fresh : IsSeen seen g = unfold Group.new in inl refl in
          rw (e, prepare_pending_group)
            (update_at-Keeps f n seen seen' i (insert_at i g gs) g le
              (record {
                sorted = Increasing-insert_absent group_seq n i g gs e is_n v.sorted;
                groups = All-insert_at (GroupInv t next) i g gs (new-GroupInv t next n) v.groups;
                configs = All-insert_at (IsSeen seen) i g gs fresh v.configs;
              })
              (get_elem?-insert_absent group_seq n i g gs e)
              (h g (new-GroupInv t next n) is_n fresh))

  pub widen-GroupsInv :
      (seen seen' : ℕ) (gs : List PendingGroup)
      → seen ≤ seen'
      → GroupsInv t next seen gs
      → GroupsInv t next seen' gs
  widen-GroupsInv seen seen' gs le v = record {
    sorted = v.sorted;
    groups = v.groups;
    configs = All-map (IsSeen seen) (IsSeen seen') (λ x y. widen x y) gs v.configs;
  }
    where
      widen : (x : PendingGroup) → IsSeen seen x → IsSeen seen' x
      widen x (inl y) = inl y
      widen x (inr y) = inr (omega arith)

  -- A datagram that the sender made, of a kypacket whose turn is not over, is taken in.
  pub insert_group_datagram-Keeps :
      (seen k number : ℕ) (end : Bool) (bytes : Bytes) (now : ℕ) (gs : List PendingGroup)
      → IsSchedule t
      → GroupsInv t next seen gs
      → next ≤ k
      → IsPiece t k number end bytes
      → Keeps seen (insert_group_datagram gs (t.group_of k) k number end bytes now)
  unfolding insert_group_datagram
  insert_group_datagram-Keeps seen k number end bytes now gs sched v lo piece =
      prepared-Keeps (λ g. insert_datagram g k number end bytes now) (t.group_of k) seen seen gs
        (omega arith) v
        λ g w same s.
          let (g', run, w', kept) =
            insert_datagram-GroupInv t next g k number end bytes now sched w (sym same) lo piece in
          (g', run, w', kept.0, rw (kept.1, kept.0) s)

  -- A config packet that is the next to arrive on the stream is taken in.
  pub insert_stream_packet-Keeps :
      (seen k : ℕ) (gs : List PendingGroup)
      → GroupsInv t next seen gs
      → t.config k ≡ true
      → next ≤ k
      → seen ≤ t.group_of k
      → Keeps (t.group_of k + 1) (insert_stream_packet gs (t.group_of k) k (t.packet_of k))
  unfolding insert_stream_packet set_config
  insert_stream_packet-Keeps seen k gs v c lo new =
      prepared-Keeps (set_config p) (t.group_of k) seen (t.group_of k + 1) gs (omega arith) v put
    where
      p : StreamPacket
      p = record { packet = t.packet_of k; kypacket_seq = k }

      put :
          (g : PendingGroup)
          → GroupInv t next g
          → g.group_seq ≡ t.group_of k
          → IsSeen seen g
          → Updates (t.group_of k) (t.group_of k + 1) g (set_config p g)
      put g w same (inl empty) = (
        record g { config_packet = ConfigPacket.ready p },
        rw empty,
        record {
          config = record { is_config = c; in_group = sym same; not_before = lo; same = refl };
          datagrams = w.datagrams;
          datagrams_sorted = w.datagrams_sorted;
          segments = w.segments;
          segments_sorted = w.segments_sorted;
        },
        refl,
        inr (omega arith),
      )
      put g w same (inr old) = absurd (omega arith)

  -- A config packet that was sent is sent once, and leaves the group in order.
  seen_sent :
      (seen : ℕ) (g : PendingGroup) (p : StreamPacket)
      → g.config_packet ≡ ConfigPacket.ready p
      → IsSeen seen g
      → g.group_seq < seen
  seen_sent seen g p e (inl h) = absurd (false≢true (ap is_none (sym e) ∙ h))
  seen_sent seen g p e (inr h) = h

  -- What is taken from the groups: the packet `k` that was sent, not before its turn, and everything
  -- that is left comes after it.
  pub record Taken (seen : ℕ) (r : Result IoError (Action × List PendingGroup)) : Type 0 where
    pub k : ℕ
    pub left : List PendingGroup
    pub run : r ≡ ok (packet k (t.packet_of k), left)
    pub not_before : next ≤ k
    pub inv : GroupsInv t (k + 1) seen left

  -- The groups behind the one that sends `k`.
  raised :
      (seen k n : ℕ) (gs : List PendingGroup)
      → IsSchedule t
      → t.group_of k ≡ n
      → All (λ g. n < group_seq g) gs
      → All (GroupInv t next) gs
      → All (GroupInv t (k + 1)) gs
  raised seen k n gs sched e after v =
      All-map2 (λ g. n < group_seq g) (GroupInv t next) (GroupInv t (k + 1))
        (λ g lt w. raise-GroupInv t next g k sched (omega arith) w) gs after v

  take_from-Taken :
      (b : Bool) (seen : ℕ) (g : PendingGroup) (gs : List PendingGroup)
      → IsSchedule t
      → GroupsInv t next seen (g ∷ gs)
      → Sendable b g
      → Taken seen (take_from b (g ∷ gs))
  unfolding take_from take_from_group consume
  take_from-Taken true seen g gs sched v (p, e) =
      let c = rw e at v.groups.0.config in
      record {
        k = p.kypacket_seq;
        left = record g { config_packet = ConfigPacket.sent } ∷ gs;
        run = simp (e, c.same);
        not_before = c.not_before;
        inv = record {
          sorted = v.sorted;
          groups = (
            sent-GroupInv t next g p sched v.groups.0 e,
            raised seen p.kypacket_seq g.group_seq gs sched c.in_group v.sorted.0 v.groups.1,
          );
          configs = (inr (seen_sent seen g p e v.configs.0), v.configs.1);
        };
      }
  take_from-Taken false seen g gs sched v (n, r, d, ds, e) =
      let m = rw e at v.groups.0.datagrams in
      record {
        k = d.kypacket_seq;
        left = drop_expired_segments (record g { datagrams = ds }) d.kypacket_seq ∷ gs;
        run = ground (arith, n, e, m.0.same);
        not_before = m.0.not_before;
        inv = record {
          sorted = unfold drop_expired_segments in v.sorted;
          groups = (
            pop-GroupInv t next g d ds v.groups.0 e r,
            raised seen d.kypacket_seq g.group_seq gs sched m.0.in_group v.sorted.0 v.groups.1,
          );
          configs = unfold drop_expired_segments in v.configs;
        };
      }

  -- The groups before the one that sends are dropped.
  Taken-Sendable :
      (seen j : ℕ) (b : Bool) (gs : List PendingGroup) (g : PendingGroup)
      → IsSchedule t
      → GroupsInv t next seen gs
      → get_elem? gs j ≡ some g
      → Sendable b g
      → Taken seen (take_from b (drop j gs))
  Taken-Sendable seen j b [] g sched v e s = cc
  Taken-Sendable seen zero b (x ∷ gs) g sched v e s =
      take_from-Taken b seen x gs sched v (subst (Sendable b) (cc e) s)
  Taken-Sendable seen (suc j) b (x ∷ gs) g sched v e s =
      Taken-Sendable seen j b gs g sched
        (record { sorted = v.sorted.1; groups = v.groups.1; configs = v.configs.1 }) e s

  -- `take_next_packet` never panics on such groups: it waits, or takes a packet whose turn it is.
  pub data Takes (seen : ℕ) (gs : List PendingGroup)
      : Result IoError (Action × List PendingGroup) → Type 0 where
    waits : Takes seen gs (ok (Action.nothing, gs))
    until : (at : ℕ) → Takes seen gs (ok (Action.deadline at, gs))
    takes : (r : Result IoError (Action × List PendingGroup)) → Taken seen r → Takes seen gs r

  pub take_next_packet-Takes :
      (seen now : ℕ) (gs : List PendingGroup)
      → IsSchedule t
      → GroupsInv t next seen gs
      → Takes seen gs (take_next_packet gs next now)
  unfolding take_next_packet
  take_next_packet-Takes seen now gs sched v = go (next_packet gs next now) refl
    where
      go : (r : NextPacket) → next_packet gs next now ≡ r → Takes seen gs (take_ref r gs)
      go nothing e = waits
      go (deadline at) e = until at
      go (ready j b) e =
          let (g, at, s) = next_packet-Sendable gs next now j b e in
          takes _ (Taken-Sendable seen j b gs g sched v at s)
