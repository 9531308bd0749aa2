-- ===== src/VideoFec/Choice/Taking.antt =====
-- `take_next_packet` of video_unreliable_fec.rs: no assertion fails, and what is sent is held no more.
use plank_kymux.Common.{
  ℕ, zero, suc, ◌+◌, ◌≤◌, ◌≡◌, refl, sym, ap, ◌∙◌, subst, Bool, true, false, some, List, [], ◌∷◌,
  map, arith, length, get_elem?, drop, Safe, Safe-bind, sum_by, sum_by-drop, length-drop_le,
}
use plank_kymux.Fec.{Oti, Raptorq, reservation}
use plank_kymux.Fec.Validation.{IsReal}
use plank_kymux.Video.Search.Sorted.{Increasing-set, Increasing-drop, All-drop}
use plank_kymux.Video.Group
use plank_kymux.Video.Group.{ConfigPacket, StreamPacket, is_none}
use plank_kymux.Video.Groups.{NextPacket, ready}
use plank_kymux.Video.Groups.Choice.{Sendable, next_packet-Sendable}
use plank_kymux.VideoFec.Segments.{FecStats, no_stats, DatagramPacket}
use plank_kymux.VideoFec.Group.{PendingGroup}
use plank_kymux.VideoFec.Group.Invariant.{IsGroup, charge, drop_expired_segments_lem}
use plank_kymux.VideoFec.Groups.{PendingGroups, group_seq, objects}
use plank_kymux.VideoFec.Groups.Order.{
  total, objects_total, bytes_total, IsOrdered, config_objects, config_bytes,
}
use plank_kymux.VideoFec.Groups.Budget.{IsWithin}
use plank_kymux.VideoFec.Choice.{
  Action, next_packet, consume, take_from_group, take_from, take_next_packet,
}
use plank_kymux.VideoFec.Choice.View.{view, view_datagram, next_packet-view}

abbrev IsPacket : Action → Type 0
IsPacket (Action.packet k p f) = Unit {0}
IsPacket _ = ⊥

module _ {D : Type 0} where
  get_elem?-view :
      (gs : List (PendingGroup D)) (j : ℕ) (v : Group.PendingGroup)
      → get_elem? (map view gs) j ≡ some v
      → (g : PendingGroup D) × (get_elem? gs j ≡ some g) × (v ≡ view g)
  get_elem?-view [] j v e = cc
  get_elem?-view (g ∷ gs) zero v e = (g, refl, cc)
  get_elem?-view (g ∷ gs) (suc j) v e = get_elem?-view gs j v e

  next_packet_lem :
      (gs : List (PendingGroup D)) (next now j : ℕ) (b : Bool)
      → next_packet gs next now ≡ ready j b
      → (g : PendingGroup D) × (get_elem? gs j ≡ some g) × Sendable b (view g)
  next_packet_lem gs next now j b e =
      let (v, at, sendable) =
        next_packet-Sendable (map view gs) next now j b (sym (next_packet-view gs next now) ∙ e) in
      let (g, here, same) = get_elem?-view gs j v at in (g, here, subst (Sendable b) same sendable)

  first_datagram :
      (g : PendingGroup D) (d : _) (ds : _)
      → map view_datagram g.datagrams ≡ d ∷ ds
      → (d' : DatagramPacket) × (ds' : List DatagramPacket) × (g.datagrams ≡ d' ∷ ds')
  first_datagram g d ds e = go g.datagrams refl
    where
      go :
          (xs : List DatagramPacket)
          → g.datagrams ≡ xs
          → (d' : DatagramPacket) × (ds' : List DatagramPacket) × (g.datagrams ≡ d' ∷ ds')
      go [] same = cc (same, e)
      go (x ∷ xs) same = (x, xs, same)

  drop_at :
      (gs : List (PendingGroup D)) (j : ℕ) (g : PendingGroup D)
      → get_elem? gs j ≡ some g
      → (rest : List (PendingGroup D)) × (drop j gs ≡ g ∷ rest)
  drop_at [] j g e = cc
  drop_at (x ∷ gs) zero g e = (gs, cc)
  drop_at (x ∷ gs) (suc j) g e = drop_at gs j g e

  module _ (R : Raptorq D) where
    -- A packet is sent, and the group holds an object less.
    record Gives (g : PendingGroup D) (q : Action × PendingGroup D) : Type 0 where
      is_packet : IsPacket q.0
      group : IsGroup R q.1
      same_seq : q.1.group_seq ≡ g.group_seq
      fewer : suc (charge (λ o. 1) config_objects q.1) ≤ charge (λ o. 1) config_objects g
      smaller : charge reservation config_bytes q.1 ≤ charge reservation config_bytes g

    give_config :
        (stats : FecStats) (g : PendingGroup D)
        → IsGroup R g
        → Sendable true (view g)
        → Safe IsReal (Gives g) (take_from_group true stats g)
    unfolding take_from_group consume charge
    give_config stats g v (p, e) =
        let (m, media) = rw e at v.config in
        rw e record {
          is_packet = tt;
          group = record {
            config = tt;
            datagrams = v.datagrams;
            datagrams_sorted = v.datagrams_sorted;
            segments = v.segments;
            segments_sorted = v.segments_sorted;
          };
          same_seq = refl;
          fewer = rw media (omega arith);
          smaller = rw media (omega arith);
        }

    popped :
        (g : PendingGroup D) (d : DatagramPacket) (ds : List DatagramPacket)
        → IsGroup R g
        → g.datagrams ≡ d ∷ ds
        → IsGroup R (record g { datagrams = ds })
    popped g d ds v e =
        let held = rw e at v.datagrams in
        let sorted = rw e at v.datagrams_sorted in
        record {
          config = v.config;
          datagrams = held.1;
          datagrams_sorted = sorted.1;
          segments = v.segments;
          segments_sorted = v.segments_sorted;
        }

    popped_charge :
        (g : PendingGroup D) (d : DatagramPacket) (ds : List DatagramPacket) (c : Oti → ℕ)
        (w : ConfigPacket → ℕ)
        → charge c w (record g { datagrams = ds }) + c d.oti
          ≡ charge c w (record g { datagrams = d ∷ ds })
    unfolding charge
    popped_charge g d ds c w = omega arith

    give_datagram :
        (stats : FecStats) (g : PendingGroup D)
        → IsGroup R g
        → Sendable false (view g)
        → Safe IsReal (Gives g) (take_from_group false stats g)
    unfolding take_from_group
    give_datagram stats g v (has, unready, d0, ds0, e0) =
        let (d, ds, e) = first_datagram g d0 ds0 e0 in
        let rest : PendingGroup D = record g { datagrams = ds } in
        let dropped = drop_expired_segments_lem R rest d.kypacket_seq (popped g d ds v e) in
        rw (has, e)
          record {
            is_packet = tt;
            group = dropped.group;
            same_seq = dropped.same_seq;
            fewer = omega (
              arith,
              dropped.charged (λ o. 1) config_objects,
              popped_charge g d ds (λ o. 1) config_objects,
            );
            smaller = omega (
              arith,
              dropped.charged reservation config_bytes,
              popped_charge g d ds reservation config_bytes,
            );
          }

    take_from_group_lem :
        (b : Bool) (stats : FecStats) (g : PendingGroup D)
        → IsGroup R g
        → Sendable b (view g)
        → Safe IsReal (Gives g) (take_from_group b stats g)
    take_from_group_lem true = give_config
    take_from_group_lem false = give_datagram

    -- A packet that was sent is held no more.
    abbrev pub Taken : PendingGroups D → Action × PendingGroups D → Type 0
    Taken ps (Action.packet k p f, ps') =
        IsWithin R ps' × (suc (objects ps'.pending_groups) ≤ objects ps.pending_groups)
    Taken ps (_, ps') = IsWithin R ps'

    remains :
        (ps : PendingGroups D) (g g' : PendingGroup D) (rest : List (PendingGroup D)) (j : ℕ)
        → IsWithin R ps
        → drop j ps.pending_groups ≡ g ∷ rest
        → IsGroup R g'
        → g'.group_seq ≡ g.group_seq
        → IsOrdered R (g' ∷ rest)
    remains ps g g' rest j v e group same =
        let gs = ps.pending_groups in
        let sorted = rw e at (Increasing-drop group_seq j gs v.ordered.sorted) in
        let groups = rw e at (All-drop (IsGroup R) j gs v.ordered.groups) in
        record {
          sorted = Increasing-set group_seq 0 g' g (g ∷ rest) refl same sorted;
          groups = (group, groups.1);
          few = omega (arith, v.ordered.few, length-drop_le j gs, ap length e);
        }

    held :
        (ps : PendingGroups D) (g : PendingGroup D) (rest : List (PendingGroup D)) (j : ℕ)
        (c : Oti → ℕ) (w : ConfigPacket → ℕ)
        → drop j ps.pending_groups ≡ g ∷ rest
        → charge c w g + total c w rest ≤ total c w ps.pending_groups
    unfolding total
    held ps g rest j c w e =
        omega (arith, sum_by-drop (charge c w) j ps.pending_groups, ap (sum_by (charge c w)) e)

    total_cons :
        (g : PendingGroup D) (gs : List (PendingGroup D)) (c : Oti → ℕ) (w : ConfigPacket → ℕ)
        → total c w (g ∷ gs) ≡ charge c w g + total c w gs
    unfolding total
    total_cons g gs c w = refl

    replaced :
        (ps : PendingGroups D) (stats : FecStats) (g : PendingGroup D)
        (rest : List (PendingGroup D)) (j : ℕ) (q : Action × PendingGroup D)
        → IsWithin R ps
        → drop j ps.pending_groups ≡ g ∷ rest
        → Gives g q
        → Taken ps (q.0, record ps { pending_groups = q.1 ∷ rest; retired_stats = stats })
    replaced ps stats g rest j (Action.nothing, g') v e h = elim h.is_packet [ ]
    replaced ps stats g rest j (Action.deadline t, g') v e h = elim h.is_packet [ ]
    replaced ps stats g rest j (Action.packet k p f, g') v e h =
        let fewer : suc (objects (g' ∷ rest)) ≤ objects ps.pending_groups = omega (
          arith,
          h.fewer,
          held ps g rest j (λ o. 1) config_objects e,
          total_cons g' rest (λ o. 1) config_objects,
          objects_total (g' ∷ rest),
          objects_total ps.pending_groups,
        ) in
        (
          record {
            ordered = remains ps g g' rest j v e h.group h.same_seq;
            objects_le = omega (arith, v.objects_le, fewer);
            bytes_le = omega (
              arith,
              h.smaller,
              v.bytes_le,
              held ps g rest j reservation config_bytes e,
              total_cons g' rest reservation config_bytes,
              bytes_total (g' ∷ rest),
              bytes_total ps.pending_groups,
            );
          },
          fewer,
        )

    take_from_lem :
        (ps : PendingGroups D) (stats : FecStats) (j : ℕ) (b : Bool) (g : PendingGroup D)
        (rest : List (PendingGroup D))
        → IsWithin R ps
        → drop j ps.pending_groups ≡ g ∷ rest
        → Sendable b (view g)
        → Safe IsReal (Taken ps) (take_from b stats ps (g ∷ rest))
    unfolding take_from
    take_from_lem ps stats j b g rest v e s =
        let groups = rw e at (All-drop (IsGroup R) j ps.pending_groups v.ordered.groups) in
        Safe-bind IsReal (Gives g) (Taken ps) (take_from_group b stats g) _
          (take_from_group_lem b stats g groups.0 s)
          λ q done h. replaced ps no_stats g rest j q v e h

    pub take_next_packet-Taken :
        (ps : PendingGroups D) (next now : ℕ)
        → IsWithin R ps
        → Safe IsReal (Taken ps) (take_next_packet ps next now)
    unfolding take_next_packet
    take_next_packet-Taken ps next now v = go (next_packet ps.pending_groups next now) refl
      where
        go :
            (r : NextPacket)
            → next_packet ps.pending_groups next now ≡ r
            → Safe IsReal (Taken ps) (take_next_packet ps next now)
        go NextPacket.nothing e = rw (e, take_next_packet) v
        go (NextPacket.deadline t) e = rw (e, take_next_packet) v
        go (ready j b) e =
            let (g, at, s) = next_packet_lem ps.pending_groups next now j b e in
            let (rest, cut) = drop_at ps.pending_groups j g at in
            rw (e, take_next_packet, cut) (take_from_lem ps _ j b g rest v cut s)
