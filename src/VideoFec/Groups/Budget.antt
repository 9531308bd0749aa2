-- ===== src/VideoFec/Groups/Budget.antt =====
-- The insertions of `PendingGroups` in video_unreliable_fec.rs, and the budget.
use plank_kymux.Common.{
  ℕ, suc, ◌+◌, ◌≤◌, ◌<◌, ◌≡◌, refl, sym, ap, ◌∙◌, inl, inr, true, not, ◌&&◌, some, List, [], ◌∷◌,
  arith, ◌==◌, if◌then◌else◌, ==_iff, Bool-cases, ok, length, get_elem?, Safe, Safe-weaken,
  Safe-bind, Safe-guard_then, both,
}
use plank_kymux.Wire.{Bytes}
use plank_kymux.Av.Packet.{AvPacket, MediaPacket}
use plank_kymux.Fec.{
  Oti, PayloadId, Raptorq, FecError, reservation, budget, validate_oti, max_video_payload,
  max_pending_objects,
}
use plank_kymux.Fec.Validation.{IsReal, IsValidOti, validate_oti-IsValidOti}
use plank_kymux.Video.Search.{found, search}
use plank_kymux.Video.Search.Sorted.{Increasing, found_lem, All-get}
use plank_kymux.Video.Group.{ConfigPacket, StreamPacket, is_none}
use plank_kymux.VideoFec.Group.{PendingGroup, contains, insert_datagram}
use plank_kymux.VideoFec.Group.Invariant.{IsGroup, charge}
use plank_kymux.VideoFec.Group.Symbols.{insert_datagram-Grows}
use plank_kymux.VideoFec.Groups.{
  PendingGroups, group_seq, objects, bytes, prepare_pending_group, update_at, set_config,
  insert_stream_packet, admit, is_retired, in_other_group, already_pending, insert_into_group,
  insert_admitted, insert_group_datagram,
}
use plank_kymux.VideoFec.Groups.Order.{
  objects_total, bytes_total, IsOrdered, GroupGrows, AllGrow, IsPrepared, prepare_pending_group_lem,
  update_at_lem, config_objects, config_bytes,
}
use plank_kymux.VideoFec.Groups.Admission.{IsAdmitted, admit-IsAdmitted}

already_pending_found :
    {D : Type 0} (n k : ℕ) (gs : List (PendingGroup D))
    → Increasing group_seq gs
    → already_pending n k gs ≡ true
    → (i : ℕ) × (search group_seq n gs ≡ found i)
      × (g : PendingGroup D) × (get_elem? gs i ≡ some g)
      × (contains g k ≡ true)
unfolding search
already_pending_found n k [] v h = cc
already_pending_found n k (g ∷ gs) v h = elim (Bool-cases (g.group_seq == n && contains g k)) [
  | inl here ↦
      let (same, has) = both (g.group_seq == n) (contains g k) here in
      (0, ground (arith, (==_iff g.group_seq n).0 same), g, refl, has)
  | inr elsewhere ↦
      let (i, e, g', at, has) = already_pending_found n k gs v.1 (rw elsewhere at h) in
      let (g'', at', same) = found_lem group_seq n i gs e in
      let below = All-get (λ y. g.group_seq < y.group_seq) i gs g'' v.0 at' in
      (suc i, ground (arith, e), g', at, has)
]

module _ {D : Type 0} (R : Raptorq D) where
  -- The groups are in order, and what they hold is within the budget.
  pub record IsWithin (ps : PendingGroups D) : Type 0 where
    pub ordered : IsOrdered R ps.pending_groups
    pub objects_le : objects ps.pending_groups ≤ max_pending_objects
    pub bytes_le : bytes ps.pending_groups ≤ budget max_video_payload

  pub AllGrow-IsWithin :
      (extra : (Oti → ℕ) → (ConfigPacket → ℕ) → ℕ) (gs : List (PendingGroup D))
      (ps : PendingGroups D)
      → AllGrow R extra gs ps.pending_groups
      → objects gs + extra (λ o. 1) config_objects ≤ max_pending_objects
      → bytes gs + extra reservation config_bytes ≤ budget max_video_payload
      → IsWithin ps
  AllGrow-IsWithin extra gs ps h few small = record {
    ordered = h.ordered;
    objects_le = omega (
      arith,
      h.charged (λ o. 1) config_objects,
      objects_total gs,
      objects_total ps.pending_groups,
    );
    bytes_le =
        omega (
          arith,
          h.charged reservation config_bytes,
          bytes_total gs,
          bytes_total ps.pending_groups,
        );
  }

  set_config_lem :
      (m : MediaPacket) (k : ℕ) (g : PendingGroup D)
      → IsGroup R g
      → (let p : StreamPacket = record { packet = AvPacket.media m; kypacket_seq = k } in
          Safe IsReal (GroupGrows R (λ c w. w (ConfigPacket.ready p)) g) (set_config p g))
  unfolding set_config charge
  set_config_lem m k g v =
      let p : StreamPacket = record { packet = AvPacket.media m; kypacket_seq = k } in
      Safe-guard_then IsReal (GroupGrows R (λ c w. w (ConfigPacket.ready p)) g)
        (is_none g.config_packet) FecError.duplicate_config _ refl
        λ free. record {
          group = record {
            config = (m, refl);
            datagrams = v.datagrams;
            datagrams_sorted = v.datagrams_sorted;
            segments = v.segments;
            segments_sorted = v.segments_sorted;
          };
          same_seq = refl;
          charged = λ c w. omega arith;
        }

  prepared_IsGroup :
      (n : ℕ) (gs : List (PendingGroup D)) (q : ℕ × List (PendingGroup D)) (p : IsPrepared R n gs q)
      → IsGroup R p.group
  prepared_IsGroup n gs q p = All-get (IsGroup R) q.0 q.1 p.group p.grown.ordered.groups p.at

  insert_media_lem :
      (ps : PendingGroups D) (group k : ℕ) (m : MediaPacket) (now : ℕ)
      → IsWithin ps
      → Safe IsReal IsWithin (insert_stream_packet ps group k (AvPacket.media m) now)
  unfolding insert_stream_packet
  insert_media_lem ps group k m now v =
      let p : StreamPacket = record { packet = AvPacket.media m; kypacket_seq = k } in
      Safe-guard_then IsReal IsWithin m.header.is_config FecError.expected_config _ refl λ flagged.
        Safe-bind IsReal (IsAdmitted R (length m.payload) ps) IsWithin
          (admit ps (length m.payload) now) _
          (admit-IsAdmitted R ps (length m.payload) now v.ordered v.objects_le)
          λ ps' e admitted.
            Safe-bind IsReal (IsPrepared R group ps'.pending_groups) IsWithin
              (prepare_pending_group ps'.pending_groups group) _
              (prepare_pending_group_lem R ps'.pending_groups group admitted.ordered)
              λ q e prepared.
                Safe-weaken IsReal _ IsWithin (update_at (set_config p) ps' q)
                  (update_at_lem R (λ c w. w (ConfigPacket.ready p)) (set_config p) ps'
                    ps'.pending_groups group q prepared
                    (set_config_lem m k prepared.group
                      (prepared_IsGroup group ps'.pending_groups q prepared)))
                  λ ps'' e grown.
                    AllGrow-IsWithin _ ps'.pending_groups ps'' grown
                      (omega (arith, admitted.objects_lt)) (omega (arith, admitted.bytes_le))

  pub insert_stream_packet-IsWithin :
      (ps : PendingGroups D) (group k : ℕ) (p : AvPacket) (now : ℕ)
      → IsWithin ps
      → Safe IsReal IsWithin (insert_stream_packet ps group k p now)
  unfolding insert_stream_packet
  insert_stream_packet-IsWithin ps group k (AvPacket.media m) now v =
      insert_media_lem ps group k m now v
  insert_stream_packet-IsWithin ps group k (AvPacket.codec p) now v = refl
  insert_stream_packet-IsWithin ps group k (AvPacket.hole p) now v = refl

  update_group_lem :
      (ps : PendingGroups D) (gs : List (PendingGroup D)) (group k : ℕ) (oti : Oti) (id : PayloadId)
      (bytes : Bytes) (now : ℕ) (q : ℕ × List (PendingGroup D)) (p : IsPrepared R group gs q)
      → Safe IsReal
          (λ ps'.
            AllGrow R
              (λ c w. w ConfigPacket.missing + (if contains p.group k then 0 else c oti))
              gs
              ps'.pending_groups)
          (update_at (λ g. insert_datagram R g k oti id bytes now) ps q)
  update_group_lem ps gs group k oti id bytes now q p =
      update_at_lem R (λ c w. if contains p.group k then 0 else c oti)
        (λ g. insert_datagram R g k oti id bytes now) ps gs group q p
        (Safe-weaken IsReal _ _ (insert_datagram R p.group k oti id bytes now)
          (insert_datagram-Grows R p.group k oti id bytes now (prepared_IsGroup group gs q p))
          λ g' e grown. record {
            group = grown.group;
            same_seq = grown.same_seq;
            charged = grown.charged;
          })

  prepare_found :
      (gs : List (PendingGroup D)) (n i : ℕ)
      → search group_seq n gs ≡ found i
      → prepare_pending_group gs n ≡ ok (i, gs)
  unfolding prepare_pending_group
  prepare_found gs n i e = rw (e, prepare_pending_group)

  insert_pending_lem :
      (ps : PendingGroups D) (group k : ℕ) (oti : Oti) (id : PayloadId) (bytes : Bytes) (now : ℕ)
      → IsWithin ps
      → already_pending group k ps.pending_groups ≡ true
      → Safe IsReal IsWithin (insert_into_group R ps group k oti id bytes now)
  insert_pending_lem ps group k oti id bytes now v pending =
      let gs = ps.pending_groups in
      let (i, e, g, at, has) = already_pending_found group k gs v.ordered.sorted pending in
      let (g', at', same) = found_lem group_seq group i gs e in
      let both_same : g' ≡ g = cc in
      let p : IsPrepared R group gs (i, gs) = record {
        grown = record { ordered = v.ordered; charged = λ c w. omega arith };
        group = g;
        at = at;
        same_seq = ap group_seq (sym both_same) ∙ same;
      } in
      let prepared : prepare_pending_group gs group ≡ ok (i, gs) = prepare_found gs group i e in
      rw prepared (
        Safe-weaken IsReal _ IsWithin
          (update_at (λ g. insert_datagram R g k oti id bytes now) ps (i, gs))
          (update_group_lem ps gs group k oti id bytes now (i, gs) p)
          λ ps' done grown.
            AllGrow-IsWithin _ gs ps' grown (rw has (omega (arith, v.objects_le)))
              (rw has (omega (arith, v.bytes_le))))

  insert_fresh_lem :
      (ps : PendingGroups D) (gs : PendingGroups D) (group k : ℕ) (oti : Oti) (id : PayloadId)
      (bytes : Bytes) (now : ℕ)
      → IsAdmitted R (reservation oti) gs ps
      → Safe IsReal IsWithin (insert_admitted R ps group k oti id bytes now)
  insert_fresh_lem ps before group k oti id bytes now admitted =
      elim (Bool-cases (is_retired ps.retired_through k)) [
        | inl gone ↦ rw gone record {
          ordered = admitted.ordered;
          objects_le = omega (arith, admitted.objects_lt);
          bytes_le = omega (arith, admitted.bytes_le);
        }
        | inr wanted ↦ rw wanted (
            Safe-bind IsReal (IsPrepared R group ps.pending_groups) IsWithin
              (prepare_pending_group ps.pending_groups group) _
              (prepare_pending_group_lem R ps.pending_groups group admitted.ordered)
              λ q e p.
                Safe-weaken IsReal _ IsWithin
                  (update_at (λ g. insert_datagram R g k oti id bytes now) ps q)
                  (update_group_lem ps ps.pending_groups group k oti id bytes now q p)
                  λ ps' done grown.
                    AllGrow-IsWithin _ ps.pending_groups ps' grown
                      (ground (arith, admitted.objects_lt)) (ground (arith, admitted.bytes_le)))
      ]

  -- Whatever symbol comes, its insertion does not panic, and what is held stays within the budget.
  pub insert_group_datagram-IsWithin :
      (ps : PendingGroups D) (group k : ℕ) (oti : Oti) (id : PayloadId) (bytes : Bytes) (now : ℕ)
      → IsWithin ps
      → Safe IsReal IsWithin (insert_group_datagram R ps group k oti id bytes now)
  unfolding insert_group_datagram
  insert_group_datagram-IsWithin ps group k oti id bytes now v =
      Safe-bind IsReal (λ u. IsValidOti oti max_video_payload) IsWithin
        (validate_oti oti max_video_payload) _ (validate_oti-IsValidOti oti max_video_payload)
        λ u e valid. elim (Bool-cases (is_retired ps.retired_through k)) [
          | inl late ↦ rw late v
          | inr wanted ↦ rw wanted (
              Safe-guard_then IsReal IsWithin (not (in_other_group group k ps.pending_groups))
                FecError.changed_group _ refl
                λ here. elim (Bool-cases (already_pending group k ps.pending_groups)) [
                  | inl pending ↦
                      rw pending (insert_pending_lem ps group k oti id bytes now v pending)
                  | inr fresh ↦ rw fresh (
                      Safe-bind IsReal (IsAdmitted R (reservation oti) ps) IsWithin
                        (admit ps (reservation oti) now) _
                        (admit-IsAdmitted R ps (reservation oti) now v.ordered v.objects_le)
                        λ ps' e admitted. insert_fresh_lem ps' ps group k oti id bytes now admitted)
                ])
        ]
