-- ===== src/VideoFec/Groups/Retirement.antt =====
-- `retire_oldest_media` of video_unreliable_fec.rs.
use plank_kymux.Common.{
  ℕ, suc, ◌+◌, ◌≤◌, ◌≡◌, refl, ap, inl, inr, Bool, true, false, ◌&&◌, Option, none, some, List, [],
  ◌∷◌, arith, ltb, Bool-cases, get_elem?, length-set, Safe, Safe-bind, sum_by, sum_by-remove_at,
  sum_by-set, length-remove_at,
}
use plank_kymux.Fec.{Oti, Raptorq}
use plank_kymux.Fec.Validation.{IsReal}
use plank_kymux.Video.Search.Sorted.{
  Increasing-set, Increasing-remove_at, All-set, All-remove_at, All-get,
}
use plank_kymux.Video.Group.{ConfigPacket, is_none}
use plank_kymux.Video.Groups.{max_buffering}
use plank_kymux.VideoFec.Segments.{DatagramPacket, DatagramSegments}
use plank_kymux.VideoFec.Group.{PendingGroup}
use plank_kymux.VideoFec.Group.Invariant.{IsGroup, charge}
use plank_kymux.VideoFec.Groups.{
  PendingGroups, Oldest, group_seq, older, is_empty, first_segments, first_datagram, oldest_from,
  remove_oldest, put_back, retire, retire_oldest_media,
}
use plank_kymux.VideoFec.Groups.Order.{total, IsOrdered}

module _ {D : Type 0} where
  -- There is an object to take out.
  abbrev Holds : Bool → PendingGroup D → Type 0
  Holds true g = (d : DatagramPacket) × (ds : List DatagramPacket) × (g.datagrams ≡ d ∷ ds)
  Holds false g =
      (s : DatagramSegments D) × (ss : List (DatagramSegments D)) × (g.segments ≡ s ∷ ss)

  -- What is found is there.
  abbrev Names : List (PendingGroup D) → Option Oldest → Type 0
  Names all none = Unit {0}
  Names all (some o) =
      (g : PendingGroup D) × (get_elem? all o.index ≡ some g) × Holds o.is_datagram g

  older-Names :
      (all : List (PendingGroup D)) (acc : Option Oldest) (o : Oldest)
      → Names all acc
      → Names all (some o)
      → Names all (older acc o)
  older-Names all none o v h = h
  older-Names all (some p) o v h = elim (Bool-cases (ltb o.seq p.seq)) [
    | inl lower ↦ rw lower h
    | inr higher ↦ rw higher v
  ]

  first_segments-Names :
      (all : List (PendingGroup D)) (i : ℕ) (g : PendingGroup D) (acc : Option Oldest)
      → get_elem? all i ≡ some g
      → Names all acc
      → Names all (first_segments i g.segments acc)
  first_segments-Names all i g acc at v = go g.segments refl
    where
      go : (ss : List (DatagramSegments D)) → g.segments ≡ ss → Names all (first_segments i ss acc)
      go [] e = v
      go (s ∷ ss) e = older-Names all acc _ v (g, at, (s, ss, e))

  first_datagram-Names :
      (all : List (PendingGroup D)) (i : ℕ) (g : PendingGroup D) (acc : Option Oldest)
      → get_elem? all i ≡ some g
      → Names all acc
      → Names all (first_datagram i g.datagrams acc)
  first_datagram-Names all i g acc at v = go g.datagrams refl
    where
      go : (ds : List DatagramPacket) → g.datagrams ≡ ds → Names all (first_datagram i ds acc)
      go [] e = v
      go (d ∷ ds) e = older-Names all acc _ v (g, at, (d, ds, e))

  oldest_from-Names :
      (all gs : List (PendingGroup D)) (i : ℕ) (acc : Option Oldest)
      → ((j : ℕ) → get_elem? all (i + j) ≡ get_elem? gs j)
      → Names all acc
      → Names all (oldest_from i gs acc)
  unfolding oldest_from
  oldest_from-Names all [] i acc same v = v
  oldest_from-Names all (g ∷ gs) i acc same v =
      let here : get_elem? all i ≡ some g = let e : i + 0 ≡ i = omega arith in rw e at (same 0) in
      oldest_from-Names all gs (suc i) _
        (λ j. (let e : suc i + j ≡ i + suc j = omega arith in rw e (same (suc j))))
        (first_datagram-Names all i g _ here (first_segments-Names all i g acc here v))

  module _ (R : Raptorq D) where
    -- What an object less means for a group, and for the groups.
    record Shrinks (g g' : PendingGroup D) : Type 0 where
      group : IsGroup R g'
      same_seq : g'.group_seq ≡ g.group_seq
      oti : Oti
      charged : (c : Oti → ℕ) (w : ConfigPacket → ℕ) → charge c w g' + c oti ≤ charge c w g

    pub record AllShrink (gs gs' : List (PendingGroup D)) : Type 0 where
      pub ordered : IsOrdered R gs'
      pub oti : Oti
      pub charged : (c : Oti → ℕ) (w : ConfigPacket → ℕ) → total c w gs' + c oti ≤ total c w gs

    remove_oldest_lem :
        (b : Bool) (g : PendingGroup D)
        → IsGroup R g
        → Holds b g
        → Safe IsReal (λ r. Shrinks g r.1) (remove_oldest b g)
    unfolding remove_oldest charge
    remove_oldest_lem true g v (d, ds, e) =
        let held = rw e at v.datagrams in
        let sorted = rw e at v.datagrams_sorted in
        rw e record {
          group = record {
            config = v.config;
            datagrams = held.1;
            datagrams_sorted = sorted.1;
            segments = v.segments;
            segments_sorted = v.segments_sorted;
          };
          same_seq = refl;
          oti = d.oti;
          charged = λ c w. omega (arith, ap (sum_by (λ (d : DatagramPacket). c d.oti)) e);
        }
    remove_oldest_lem false g v (s, ss, e) =
        let held = rw e at v.segments in
        let sorted = rw e at v.segments_sorted in
        rw e record {
          group = record {
            config = v.config;
            datagrams = v.datagrams;
            datagrams_sorted = v.datagrams_sorted;
            segments = held.1;
            segments_sorted = sorted.1;
          };
          same_seq = refl;
          oti = s.decoder.oti;
          charged =
              λ c w. omega (arith, ap (sum_by (λ (s : DatagramSegments D). c s.decoder.oti)) e);
        }

    put_back_lem :
        (gs : List (PendingGroup D)) (i : ℕ) (g g' : PendingGroup D)
        → IsOrdered R gs
        → get_elem? gs i ≡ some g
        → Shrinks g g'
        → AllShrink gs (put_back i g' gs)
    unfolding total
    put_back_lem gs i g g' v at h =
        elim (Bool-cases
          (is_none g'.config_packet && is_empty g'.segments && is_empty g'.datagrams)) [
            | inl nothing ↦ rw nothing record {
              ordered = record {
                sorted = Increasing-remove_at group_seq i gs v.sorted;
                groups = All-remove_at (IsGroup R) i gs v.groups;
                few = omega (arith, v.few, length-remove_at i gs);
              };
              oti = h.oti;
              charged =
                  λ c w. omega (arith, sum_by-remove_at (charge c w) i g gs at, h.charged c w);
            }
            | inr some_left ↦ rw some_left record {
              ordered = record {
                sorted = Increasing-set group_seq i g' g gs at h.same_seq v.sorted;
                groups = All-set (IsGroup R) i g' gs h.group v.groups;
                few = omega (arith, v.few, length-set gs i g');
              };
              oti = h.oti;
              charged = λ c w. omega (arith, sum_by-set (charge c w) i g g' gs at, h.charged c w);
            }
          ]

    retire_lem :
        (ps : PendingGroups D) (o : Oldest)
        → IsOrdered R ps.pending_groups
        → Names ps.pending_groups (some o)
        → Safe IsReal (λ ps'. AllShrink ps.pending_groups ps'.pending_groups) (retire ps o)
    unfolding retire
    retire_lem ps o v (g, at, holds) =
        rw (at, retire)
          (Safe-bind IsReal _ (λ ps'. AllShrink ps.pending_groups ps'.pending_groups)
            (remove_oldest o.is_datagram g) _
            (remove_oldest_lem o.is_datagram g
              (All-get (IsGroup R) o.index ps.pending_groups g v.groups at) holds)
            λ r e h. put_back_lem ps.pending_groups o.index g r.1 v at h)

    abbrev pub Retires : PendingGroups D → Option (PendingGroups D) → Type 0
    Retires ps none = Unit {0}
    Retires ps (some ps') = AllShrink ps.pending_groups ps'.pending_groups

    pub retire_oldest_media-Retires :
        (ps : PendingGroups D) (now : ℕ)
        → IsOrdered R ps.pending_groups
        → Safe IsReal (Retires ps) (retire_oldest_media ps now)
    unfolding retire_oldest_media
    retire_oldest_media-Retires ps now v = go (oldest_from 0 ps.pending_groups none) refl
      where
        go :
            (r : Option Oldest)
            → oldest_from 0 ps.pending_groups none ≡ r
            → Safe IsReal (Retires ps) (retire_oldest_media ps now)
        go none e = rw (e, retire_oldest_media) tt
        go (some o) e = elim (Bool-cases (ltb now (o.instant + max_buffering))) [
          | inl young ↦ rw (e, retire_oldest_media, young) tt
          | inr stale ↦
              rw (e, retire_oldest_media, stale)
                (Safe-bind IsReal (λ ps'. AllShrink ps.pending_groups ps'.pending_groups)
                  (Retires ps) (retire ps o) _
                  (retire_lem ps o v (
                    rw e at (
                      oldest_from-Names ps.pending_groups ps.pending_groups 0 none
                        (λ j. (let e : 0 + j ≡ j = omega arith in rw e)) tt)))
                  λ ps' e h. h)
        ]
