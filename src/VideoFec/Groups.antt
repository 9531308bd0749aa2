-- ===== src/VideoFec/Groups.antt =====
-- `PendingGroups` of video_unreliable_fec.rs: the groups that are still to be sent, by group number,
-- and the budget for what they hold.
pub mod Order
pub mod Retirement
pub mod Admission
pub mod Budget
use plank_kymux.Common.{
  ℕ, zero, suc, ◌+◌, max, Bool, true, false, not, ◌&&◌, ◌||◌, Option, none, some, List, [], ◌∷◌,
  ltb, leb, ◌==◌, if◌then◌else◌, Result, ok, err, panic, ◌>>=◌, ◌>>◌, guard, length, get_elem?, set,
  insert_at, remove_at, sum_by,
}
use plank_kymux.Wire.{Bytes}
use plank_kymux.Av.Packet.{AvPacket}
use plank_kymux.Fec.{
  Oti, PayloadId, Raptorq, FecError, reservation, check_pending, validate_oti, max_video_payload,
  max_pending_groups, max_pending_objects,
}
use plank_kymux.Video.Search.{Search, found, absent, search}
use plank_kymux.Video.Group.{ConfigPacket, StreamPacket, is_none}
use plank_kymux.Video.Groups.{max_buffering}
use plank_kymux.VideoFec.Segments.{
  FecStats, DatagramPacket, DatagramSegments, no_stats, accumulate, fec_stats,
}
use plank_kymux.VideoFec.Group
use plank_kymux.VideoFec.Group.{PendingGroup, contains, usage, insert_datagram}

pub record PendingGroups (D : Type 0) : Type 0 where
  pub pending_groups : List (PendingGroup D)
  pub retired_through : Option ℕ
  pub retired_stats : FecStats

-- The object with the lowest number so far: the group that holds it, whether it is complete, its
-- number and its time.
pub record Oldest : Type 0 where
  pub index : ℕ
  pub is_datagram : Bool
  pub seq : ℕ
  pub instant : ℕ

abbrev pub older : Option Oldest → Oldest → Option Oldest
older none o = some o
older (some p) o = if ltb o.seq p.seq then some o else some p

-- `retired.map_or(seq, |retired| retired.max(seq))`
abbrev pub max_option : Option ℕ → ℕ → ℕ
max_option none seq = seq
max_option (some retired) seq = max retired seq

-- `retired_through.is_some_and(|retired| kypacket_seq <= retired)`
abbrev pub is_retired : Option ℕ → ℕ → Bool
is_retired none k = false
is_retired (some retired) k = leb k retired

abbrev pub is_empty {ℓ} : {A : Type ℓ} → List A → Bool
is_empty [] = true
is_empty (x ∷ xs) = false

module _ {D : Type 0} where
  abbrev pub new : PendingGroups D
  new = record { pending_groups = []; retired_through = none; retired_stats = no_stats }

  abbrev pub group_seq : PendingGroup D → ℕ
  group_seq g = g.group_seq

  unfoldable pub prepare_pending_group :
      List (PendingGroup D) → ℕ → Result FecError (ℕ × List (PendingGroup D))
  prepare_pending_group gs n = elim (search group_seq n gs) [
    | found i ↦ ok (i, gs)
    | absent i ↦
        guard (ltb (length gs) max_pending_groups) FecError.too_many_groups
        >> ok (i, insert_at i (Group.new n) gs)
  ]

  unfoldable pub objects : List (PendingGroup D) → ℕ
  objects gs = sum_by (λ g. (usage g).0) gs

  unfoldable pub bytes : List (PendingGroup D) → ℕ
  bytes gs = sum_by (λ g. (usage g).1) gs

  unfoldable pub check_capacity : PendingGroups D → ℕ → Result FecError (Unit {0})
  check_capacity ps additional =
      check_pending (objects ps.pending_groups) (bytes ps.pending_groups) additional
        max_video_payload

  abbrev pub first_segments : ℕ → List (DatagramSegments D) → Option Oldest → Option Oldest
  first_segments index [] oldest = oldest
  first_segments index (s ∷ ss) oldest =
      older oldest
        (record { index = index; is_datagram = false; seq = s.kypacket_seq; instant = s.created })

abbrev pub first_datagram : ℕ → List DatagramPacket → Option Oldest → Option Oldest
first_datagram index [] oldest = oldest
first_datagram index (d ∷ ds) oldest =
    older oldest
      (record { index = index; is_datagram = true; seq = d.kypacket_seq; instant = d.instant })

module _ {D : Type 0} where
  -- The loop of `retire_oldest_media`, from the group with index `i` on.
  unfoldable pub oldest_from : ℕ → List (PendingGroup D) → Option Oldest → Option Oldest
  oldest_from i [] oldest = oldest
  oldest_from i (g ∷ gs) oldest =
      oldest_from (suc i) gs (first_datagram i g.datagrams (first_segments i g.segments oldest))

  -- The object taken out of its group. `segments.remove(0)` of no segments is a panic, and
  -- `pop_front` of no datagrams gives the default.
  unfoldable pub remove_oldest : Bool → PendingGroup D → Result FecError (FecStats × PendingGroup D)
  remove_oldest true g = elim g.datagrams [
    | [] ↦ ok (no_stats, g)
    | d ∷ ds ↦ ok (d.fec_stats, record g { datagrams = ds })
  ]
  remove_oldest false g = elim g.segments [
    | [] ↦ panic
    | s ∷ ss ↦ ok (fec_stats s, record g { segments = ss })
  ]

  -- The group is dropped where nothing is left of it.
  abbrev pub put_back : ℕ → PendingGroup D → List (PendingGroup D) → List (PendingGroup D)
  put_back index g gs =
      if is_none g.config_packet && is_empty g.segments && is_empty g.datagrams
      then remove_at index gs
      else set gs index g

  -- `self.pending_groups[index]` out of range is a panic.
  unfoldable pub retire : PendingGroups D → Oldest → Result FecError (PendingGroups D)
  retire ps o = elim (get_elem? ps.pending_groups o.index) [
    | none ↦ panic
    | some g ↦ remove_oldest o.is_datagram g >>= λ r. ok (record {
      pending_groups = put_back o.index r.1 ps.pending_groups;
      retired_through = some (max_option ps.retired_through o.seq);
      retired_stats = accumulate ps.retired_stats r.0;
    })
  ]

  -- `none` where the source gives false, and changes nothing.
  unfoldable pub retire_oldest_media :
      PendingGroups D → ℕ → Result FecError (Option (PendingGroups D))
  retire_oldest_media ps now = elim (oldest_from 0 ps.pending_groups none) [
    | none ↦ ok none
    | some o ↦
        let retired = retire ps o >>= λ ps'. ok (some ps') in
        if ltb now (o.instant + max_buffering) then ok none else retired
  ]

  -- What the loop does with an object retired, or none.
  abbrev pub admit_next :
      FecError
      → (PendingGroups D → Result FecError (PendingGroups D))
      → Option (PendingGroups D)
      → Result FecError (PendingGroups D)
  admit_next failure next none = err failure
  admit_next failure next (some ps) = next ps

  -- The loop of `admit`.
  unfoldable pub admit_loop : ℕ → PendingGroups D → ℕ → ℕ → Result FecError (PendingGroups D)
  admit_loop zero ps additional now = err FecError.out_of_fuel
  admit_loop (suc fuel) ps additional now = elim (check_capacity ps additional) [
    | ok u ↦ ok ps
    | err failure ↦
        retire_oldest_media ps now
        >>= admit_next failure (λ ps'. admit_loop fuel ps' additional now)
    | panic ↦ panic
  ]

  -- One round for each pending object, and one more.
  unfoldable pub admit : PendingGroups D → ℕ → ℕ → Result FecError (PendingGroups D)
  admit = admit_loop (max_pending_objects + 1)

  -- `&mut self.pending_groups[index]`, where out of range is a panic.
  unfoldable pub update_at :
      (PendingGroup D → Result FecError (PendingGroup D))
      → PendingGroups D
      → ℕ × List (PendingGroup D)
      → Result FecError (PendingGroups D)
  update_at f ps (index, gs) = elim (get_elem? gs index) [
    | none ↦ panic
    | some g ↦ f g >>= λ g'. ok (record ps { pending_groups = set gs index g' })
  ]

  unfoldable pub set_config : StreamPacket → PendingGroup D → Result FecError (PendingGroup D)
  set_config p g = do
    guard (is_none g.config_packet) FecError.duplicate_config
    ok (record g { config_packet = ConfigPacket.ready p })

  unfoldable pub insert_stream_packet :
      PendingGroups D → ℕ → ℕ → AvPacket → ℕ → Result FecError (PendingGroups D)
  insert_stream_packet ps group k (AvPacket.media m) now = do
    guard m.header.is_config FecError.expected_config
    ps' ← admit ps (length m.payload) now
    (index, gs) ← prepare_pending_group ps'.pending_groups group
    update_at (set_config (record { packet = AvPacket.media m; kypacket_seq = k })) ps' (index, gs)
  insert_stream_packet ps group k _ now = err FecError.expected_config

  -- A group other than `group` holds the object `k`.
  abbrev pub in_other_group : ℕ → ℕ → List (PendingGroup D) → Bool
  in_other_group group k [] = false
  in_other_group group k (g ∷ gs) =
      (not (g.group_seq == group) && contains g k) || in_other_group group k gs

  abbrev pub already_pending : ℕ → ℕ → List (PendingGroup D) → Bool
  already_pending group k [] = false
  already_pending group k (g ∷ gs) =
      (g.group_seq == group && contains g k) || already_pending group k gs

  module _ (R : Raptorq D) where
    abbrev pub insert_into_group :
        PendingGroups D → ℕ → ℕ → Oti → PayloadId → Bytes → ℕ → Result FecError (PendingGroups D)
    insert_into_group ps group k oti id bytes now =
        prepare_pending_group ps.pending_groups group
        >>= update_at (λ g. insert_datagram R g k oti id bytes now) ps

    -- Once a new object was admitted: the admission may have retired it with others.
    abbrev pub insert_admitted :
        PendingGroups D → ℕ → ℕ → Oti → PayloadId → Bytes → ℕ → Result FecError (PendingGroups D)
    insert_admitted ps group k oti id bytes now =
        if is_retired ps.retired_through k
        then ok ps
        else insert_into_group ps group k oti id bytes now

    unfoldable pub insert_group_datagram :
        PendingGroups D → ℕ → ℕ → Oti → PayloadId → Bytes → ℕ → Result FecError (PendingGroups D)
    insert_group_datagram ps group k oti id bytes now = do
      validate_oti oti max_video_payload
      let pending = insert_into_group ps group k oti id bytes now
      let fresh =
          admit ps (reservation oti) now >>= λ ps'. insert_admitted ps' group k oti id bytes now
      let accepted =
          guard (not (in_other_group group k ps.pending_groups)) FecError.changed_group
          >> (if already_pending group k ps.pending_groups then pending else fresh)
      if is_retired ps.retired_through k then ok ps else accepted
