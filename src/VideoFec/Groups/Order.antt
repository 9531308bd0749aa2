-- ===== src/VideoFec/Groups/Order.antt =====
-- The groups of video_unreliable_fec.rs in order, and what they hold.
use plank_kymux.Common.{
  ℕ, ◌+◌, ◌≤◌, ◌≡◌, refl, some, List, [], ◌∷◌, arith, ltb, ltb→lt, Result, length, get_elem?, set,
  insert_at, All, length-set, Safe, Safe-bind, Safe-guard_then, sum_by, sum_by-insert_at,
  sum_by-set, sum_by-one, length-insert_at,
}
use plank_kymux.Fec.{Oti, Raptorq, FecError, reservation, max_pending_groups}
use plank_kymux.Fec.Validation.{IsReal}
use plank_kymux.Video.Search.{Search, found, absent, search}
use plank_kymux.Video.Search.Sorted.{
  Increasing, found_lem, get_elem?-insert_absent, Increasing-insert_absent, Increasing-set,
  All-insert_at, All-set,
}
use plank_kymux.Video.Group.{ConfigPacket}
use plank_kymux.VideoFec.Group
use plank_kymux.VideoFec.Group.{PendingGroup, config_usage, usage}
use plank_kymux.VideoFec.Group.Invariant.{IsGroup, charge, new-IsGroup}
use plank_kymux.VideoFec.Groups.{
  PendingGroups, group_seq, objects, bytes, prepare_pending_group, update_at,
}

abbrev pub config_objects : ConfigPacket → ℕ
config_objects c = (config_usage c).0

abbrev pub config_bytes : ConfigPacket → ℕ
config_bytes c = (config_usage c).1

module _ {D : Type 0} where
  unfoldable pub total : (Oti → ℕ) → (ConfigPacket → ℕ) → List (PendingGroup D) → ℕ
  total c w gs = sum_by (charge c w) gs

  objects_of_group : (g : PendingGroup D) → (usage g).0 ≡ charge (λ o. 1) config_objects g
  unfolding usage charge
  objects_of_group g = omega (arith, sum_by-one g.segments, sum_by-one g.datagrams)

  bytes_of_group : (g : PendingGroup D) → (usage g).1 ≡ charge reservation config_bytes g
  unfolding usage charge
  bytes_of_group g = refl

  pub objects_total : (gs : List (PendingGroup D)) → objects gs ≡ total (λ o. 1) config_objects gs
  unfolding objects total
  objects_total [] = refl
  objects_total (g ∷ gs) = omega (arith, objects_of_group g, objects_total gs)

  pub bytes_total : (gs : List (PendingGroup D)) → bytes gs ≡ total reservation config_bytes gs
  unfolding bytes total
  bytes_total [] = refl
  bytes_total (g ∷ gs) = omega (arith, bytes_of_group g, bytes_total gs)

  module _ (R : Raptorq D) where
    pub record IsOrdered (gs : List (PendingGroup D)) : Type 0 where
      pub sorted : Increasing group_seq gs
      pub groups : All (IsGroup R) gs
      pub few : length gs ≤ max_pending_groups

    -- What an operation on one group owes: at most `extra` more.
    pub record GroupGrows (extra : (Oti → ℕ) → (ConfigPacket → ℕ) → ℕ) (g g' : PendingGroup D)
        : Type 0 where
      pub group : IsGroup R g'
      pub same_seq : g'.group_seq ≡ g.group_seq
      pub charged : (c : Oti → ℕ) (w : ConfigPacket → ℕ) → charge c w g' ≤ charge c w g + extra c w

    pub record AllGrow (extra : (Oti → ℕ) → (ConfigPacket → ℕ) → ℕ) (gs gs' : List (PendingGroup D))
        : Type 0 where
      pub ordered : IsOrdered gs'
      pub charged : (c : Oti → ℕ) (w : ConfigPacket → ℕ) → total c w gs' ≤ total c w gs + extra c w

    -- One group of them, made if it is not there.
    pub record IsPrepared (n : ℕ) (gs : List (PendingGroup D)) (q : ℕ × List (PendingGroup D))
        : Type 0 where
      pub grown : AllGrow (λ c w. w ConfigPacket.missing) gs q.1
      pub group : PendingGroup D
      pub at : get_elem? q.1 q.0 ≡ some group
      pub same_seq : group.group_seq ≡ n

    pub prepare_pending_group_lem :
        (gs : List (PendingGroup D)) (n : ℕ)
        → IsOrdered gs
        → Safe IsReal (IsPrepared n gs) (prepare_pending_group gs n)
    unfolding prepare_pending_group
    prepare_pending_group_lem gs n v = go (search group_seq n gs) refl
      where
        go :
            (r : Search)
            → search group_seq n gs ≡ r
            → Safe IsReal (IsPrepared n gs) (prepare_pending_group gs n)
        go (found i) e =
            let (g, at, same) = found_lem group_seq n i gs e in
            rw (e, prepare_pending_group)
              record {
                grown = record { ordered = v; charged = λ c w. omega arith };
                group = g;
                at = at;
                same_seq = same;
              }
        go (absent i) e =
            let is_n : (Group.new {D = D} n).group_seq ≡ n = unfold Group.new in refl in
            rw (e, prepare_pending_group)
              (Safe-guard_then IsReal (IsPrepared n gs) (ltb (length gs) max_pending_groups)
                FecError.too_many_groups _ refl
                λ fits. record {
                  grown = record {
                    ordered = record {
                      sorted =
                          Increasing-insert_absent group_seq n i (Group.new n) gs e is_n v.sorted;
                      groups =
                          All-insert_at (IsGroup R) i (Group.new n) gs (new-IsGroup R n) v.groups;
                      few =
                          omega
                            (arith, ltb→lt _ _ fits, length-insert_at i (Group.new {D = D} n) gs);
                    };
                    charged = λ c w. new_charged i c w;
                  };
                  group = Group.new n;
                  at = get_elem?-insert_absent group_seq n i (Group.new n) gs e;
                  same_seq = is_n;
                })
          where
            new_charged :
                (i : ℕ) (c : Oti → ℕ) (w : ConfigPacket → ℕ)
                → total c w (insert_at i (Group.new n) gs) ≤ total c w gs + w ConfigPacket.missing
            new_charged i c w =
                unfold total charge Group.new in
                omega (arith, sum_by-insert_at (charge {D = D} c w) i (Group.new n) gs)

    set-AllGrow :
        (extra : (Oti → ℕ) → (ConfigPacket → ℕ) → ℕ) (gs : List (PendingGroup D)) (i : ℕ)
        (g g' : PendingGroup D)
        → IsOrdered gs
        → get_elem? gs i ≡ some g
        → GroupGrows extra g g'
        → AllGrow extra gs (set gs i g')
    unfolding total
    set-AllGrow extra gs i g g' v at h = record {
      ordered = record {
        sorted = Increasing-set group_seq i g' g gs at h.same_seq v.sorted;
        groups = All-set (IsGroup R) i g' gs h.group v.groups;
        few = omega (arith, v.few, length-set gs i g');
      };
      charged = λ c w. omega (arith, sum_by-set (charge c w) i g g' gs at, h.charged c w);
    }

    -- What is done to one group of the prepared ones.
    pub update_at_lem :
        (extra : (Oti → ℕ) → (ConfigPacket → ℕ) → ℕ)
        (f : PendingGroup D → Result FecError (PendingGroup D)) (ps : PendingGroups D)
        (gs : List (PendingGroup D)) (n : ℕ) (q : ℕ × List (PendingGroup D)) (p : IsPrepared n gs q)
        → Safe IsReal (GroupGrows extra p.group) (f p.group)
        → Safe IsReal
            (λ ps'. AllGrow (λ c w. w ConfigPacket.missing + extra c w) gs ps'.pending_groups)
            (update_at f ps q)
    unfolding update_at
    update_at_lem extra f ps gs n (i, gs') p h =
        rw (p.at, update_at)
          (Safe-bind IsReal (GroupGrows extra p.group) _ (f p.group) _ h λ g' e grown.
            let all = set-AllGrow extra gs' i p.group g' p.grown.ordered p.at grown in
            record {
              ordered = all.ordered;
              charged = λ c w. omega (arith, all.charged c w, p.grown.charged c w);
            })
