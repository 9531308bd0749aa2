-- ===== src/Audio/Group/Refinement.antt =====
-- `PendingGroup` of audio_unreliable.rs beside that of video_unreliable.rs, of which it is the only one.
use plank_kymux.Common.{
  ℕ, ◌+◌, ◌≡◌, refl, ap, ◌∙◌, inl, inr, Bool, true, false, Option, none, some, List, [], ◌∷◌, arith,
  leb, ◌==◌, Bool-cases, Option-cases, Result, ok, err, panic, ◌>>=◌, get_elem?, remove_at,
}
use plank_kymux.Wire.{Bytes, IoError}
use plank_kymux.Video.Segments.{
  DatagramPacket, DatagramSegments, set_segment, is_complete, assemble,
}
use plank_kymux.Video.Search.{Search, found, absent, search}
use plank_kymux.Video.Group
use plank_kymux.Video.Group.{
  ConfigPacket, StreamPacket, is_ready, is_none, consume, segments_seq, datagram_seq,
}
use plank_kymux.Video.Groups
use plank_kymux.Video.Groups.{config_is_next, min_datagrams}
use plank_kymux.Audio.Group.{
  PendingGroup, NextPacket, Action, prepare_datagram_segments, insert_datagram_packet,
  drop_expired_segments, update_segments, insert_segment, insert_datagram, by_datagrams,
  by_deadline, next_packet, take_ready, take_ref, take_next_packet,
}

-- The group as one of the video driver's.
abbrev pub as_video : PendingGroup → Group.PendingGroup
as_video g = record {
  group_seq = 0;
  config_packet = g.config_packet;
  datagrams = g.datagrams;
  segments = g.segments;
}

abbrev pub mapped : Result IoError PendingGroup → Result IoError Group.PendingGroup
mapped m = m >>= λ g. ok (as_video g)

mapped-bind {ℓ} :
    {A : Type ℓ} (m : Result IoError A) (f : A → Result IoError PendingGroup)
    (h : A → Result IoError Group.PendingGroup)
    → ((a : A) → mapped (f a) ≡ h a)
    → mapped (m >>= f) ≡ (m >>= h)
mapped-bind (ok a) f h e = e a
mapped-bind (err x) f h e = refl
mapped-bind panic f h e = refl

insert_datagram_packet_lem :
    (g : PendingGroup) (p : DatagramPacket)
    → as_video (insert_datagram_packet g p) ≡ Group.insert_datagram_packet (as_video g) p
unfolding insert_datagram_packet Group.insert_datagram_packet
insert_datagram_packet_lem g p = go (search datagram_seq p.kypacket_seq g.datagrams) refl
  where
    go :
        (r : Search)
        → search datagram_seq p.kypacket_seq g.datagrams ≡ r
        → as_video (insert_datagram_packet g p) ≡ Group.insert_datagram_packet (as_video g) p
    go (found i) e = rw (e, insert_datagram_packet, Group.insert_datagram_packet)
    go (absent i) e = rw (e, insert_datagram_packet, Group.insert_datagram_packet)

update_segments_lem :
    (g : PendingGroup) (i : ℕ) (s : DatagramSegments) (now : ℕ)
    → mapped (update_segments g i s now) ≡ Group.update_segments (as_video g) i s now
unfolding update_segments Group.update_segments
update_segments_lem g i s now = elim (Bool-cases (is_complete s)) [
  | inl done ↦ rw done (
      mapped-bind (assemble s now) _ _
        λ p. ap ok (insert_datagram_packet_lem (record g { segments = remove_at i g.segments }) p))
  | inr more ↦ rw more
]

insert_segment_lem :
    (g : PendingGroup) (i number : ℕ) (end : Bool) (bytes : Bytes) (now : ℕ)
    → mapped (insert_segment (i, g) number end bytes now)
      ≡ Group.insert_segment (i, as_video g) number end bytes now
unfolding insert_segment Group.insert_segment
insert_segment_lem g i number end bytes now = elim (Option-cases (get_elem? g.segments i)) [
  | inl e ↦ rw (e, insert_segment, Group.insert_segment)
  | inr (s, e) ↦
      rw (e, insert_segment, Group.insert_segment)
        (mapped-bind (set_segment s number bytes end) _ _ λ s'. update_segments_lem g i s' now)
]

prepare_lem :
    (g : PendingGroup) (k number : ℕ) (end : Bool) (bytes : Bytes) (now : ℕ)
    → mapped (insert_segment (prepare_datagram_segments g k) number end bytes now)
      ≡ Group.insert_segment (Group.prepare_datagram_segments (as_video g) k) number end bytes now
unfolding prepare_datagram_segments Group.prepare_datagram_segments
prepare_lem g k number end bytes now = go (search segments_seq k g.segments) refl
  where
    go :
        (r : Search)
        → search segments_seq k g.segments ≡ r
        → mapped (insert_segment (prepare_datagram_segments g k) number end bytes now)
          ≡ Group.insert_segment
              (Group.prepare_datagram_segments (as_video g) k)
              number
              end
              bytes
              now
    go (found i) e =
        rw (e, prepare_datagram_segments, Group.prepare_datagram_segments)
          (insert_segment_lem g i number end bytes now)
    go (absent i) e =
        rw (e, prepare_datagram_segments, Group.prepare_datagram_segments)
          (insert_segment_lem _ i number end bytes now)

-- A datagram does to the group what it does to a group of the video driver, panics included.
pub insert_datagram-as_video :
    (g : PendingGroup) (k number : ℕ) (end : Bool) (bytes : Bytes) (now : ℕ)
    → mapped (insert_datagram g k number end bytes now)
      ≡ Group.insert_datagram (as_video g) k number end bytes now
unfolding insert_datagram Group.insert_datagram
insert_datagram-as_video g k number end bytes now = go (search datagram_seq k g.datagrams) refl
  where
    go :
        (r : Search)
        → search datagram_seq k g.datagrams ≡ r
        → mapped (insert_datagram g k number end bytes now)
          ≡ Group.insert_datagram (as_video g) k number end bytes now
    go (found i) e = rw (e, insert_datagram, Group.insert_datagram)
    go (absent i) e =
        rw (e, insert_datagram, Group.insert_datagram) (prepare_lem g k number end bytes now)

-- The two drivers wait 10 ms and 50 ms.
abbrev pub later : ℕ → ℕ
later now = now + 40_000_000

abbrev choice : NextPacket → Groups.NextPacket
choice NextPacket.nothing = Groups.NextPacket.nothing
choice (NextPacket.ready config) = Groups.NextPacket.ready 0 config
choice (NextPacket.deadline t) = Groups.NextPacket.deadline (later t)

abbrev action : Action → Groups.Action
action (Action.packet k p) = Groups.Action.packet k p
action (Action.deadline t) = Groups.Action.deadline (later t)
action Action.nothing = Groups.Action.nothing

abbrev pub taken : Action × PendingGroup → Groups.Action × List Group.PendingGroup
taken (a, g) = (action a, as_video g ∷ [])

later_lem : (t now : ℕ) → leb (t + 50_000_000) (later now) ≡ leb (t + 10_000_000) now
later_lem t now = ground arith

later_deadline : (t : ℕ) → t + 50_000_000 ≡ later (t + 10_000_000)
later_deadline t = omega arith

min_alone : (m : Option ℕ) → Groups.min_option m none ≡ m
min_alone none = refl
min_alone (some t) = refl

module _ (g : PendingGroup) (next now : ℕ) where
  abbrev vgroups : List Group.PendingGroup
  vgroups = as_video g ∷ []

  by_deadline_lem :
      (config : Bool) (m : Option ℕ)
      → choice (by_deadline config now m)
        ≡ Groups.by_deadline vgroups next (later now) 0 config m Groups.NextPacket.nothing
  by_deadline_lem config none = refl
  by_deadline_lem config (some t) = elim (Bool-cases (leb (t + 10_000_000) now)) [
    | inl done ↦ rw (later_lem t now, done)
    | inr wait ↦ rw (later_lem t now, wait, later_deadline t)
  ]

  by_datagrams_lem :
      (config : Bool) (m : Option ℕ) (ds : List DatagramPacket)
      → choice (by_datagrams config next now m ds)
        ≡ Groups.by_datagrams vgroups next
            (later now)
            0
            config
            m
            ds
            Groups.NextPacket.nothing
            Groups.NextPacket.nothing
  by_datagrams_lem config m [] = refl
  by_datagrams_lem config m (d ∷ ds) = elim (Bool-cases (d.kypacket_seq == next)) [
    | inl here ↦ rw here
    | inr gap ↦ rw gap (by_deadline_lem config m)
  ]

  next_packet_lem : choice (next_packet g next now) ≡ Groups.next_packet vgroups next (later now)
  unfolding next_packet Groups.next_packet Groups.next_packet_from Groups.min_instant
  next_packet_lem = elim (Bool-cases (is_none g.config_packet)) [
    | inl missing ↦ rw missing
    | inr there ↦ elim (Bool-cases (config_is_next g.config_packet next)) [
      | inl first ↦ rw (there, first)
      | inr behind ↦
          rw (there, behind, min_alone (min_datagrams g.datagrams))
            (by_datagrams_lem (is_ready g.config_packet) (min_datagrams g.datagrams) g.datagrams)
    ]
  ]

abbrev pub mapped_taken :
    Result IoError (Action × PendingGroup)
    → Result IoError (Groups.Action × List Group.PendingGroup)
mapped_taken m = m >>= λ q. ok (taken q)

drop_expired_segments_lem :
    (g : PendingGroup) (until : ℕ)
    → as_video (drop_expired_segments g until) ≡ Group.drop_expired_segments (as_video g) until
unfolding drop_expired_segments Group.drop_expired_segments
drop_expired_segments_lem g until = refl

take_config_lem :
    (g : PendingGroup) → mapped_taken (take_ready true g) ≡ Groups.take_from true (as_video g ∷ [])
unfolding take_ready Groups.take_from Groups.take_from_group consume
take_config_lem g = go g.config_packet refl
  where
    go :
        (c : ConfigPacket)
        → g.config_packet ≡ c
        → mapped_taken (take_ready true g) ≡ Groups.take_from true (as_video g ∷ [])
    go ConfigPacket.missing e = rw e
    go (ConfigPacket.ready p) e = rw e
    go ConfigPacket.sent e = rw e

abbrev packet_alone :
    DatagramPacket → Group.PendingGroup → Result IoError (Groups.Action × List Group.PendingGroup)
packet_alone d v = ok (Groups.Action.packet d.kypacket_seq d.packet, v ∷ [])

take_datagram_lem :
    (g : PendingGroup)
    → mapped_taken (take_ready false g) ≡ Groups.take_from false (as_video g ∷ [])
unfolding take_ready Groups.take_from Groups.take_from_group
take_datagram_lem g = elim (Bool-cases (is_none g.config_packet)) [
  | inl missing ↦ rw missing
  | inr there ↦ go there g.datagrams refl
]
  where
    go :
        is_none g.config_packet ≡ false
        → (ds : List DatagramPacket) → g.datagrams ≡ ds
        → mapped_taken (take_ready false g) ≡ Groups.take_from false (as_video g ∷ [])
    go there [] e = rw (there, e)
    go there (d ∷ ds) e =
        rw (there, e)
          (ap (packet_alone d)
            (drop_expired_segments_lem (record g { datagrams = ds }) d.kypacket_seq))

take_ref_lem :
    (r : NextPacket) (g : PendingGroup)
    → mapped_taken (take_ref r g) ≡ Groups.take_ref (choice r) (as_video g ∷ [])
take_ref_lem NextPacket.nothing g = refl
take_ref_lem (NextPacket.deadline t) g = refl
take_ref_lem (NextPacket.ready true) g = take_config_lem g
take_ref_lem (NextPacket.ready false) g = take_datagram_lem g

-- What is taken is what the video driver takes of this group alone 40 ms later, when it has waited as
-- long beyond its own limit; the deadlines are 40 ms apart.
pub take_next_packet-as_video :
    (g : PendingGroup) (next now : ℕ)
    → mapped_taken (take_next_packet g next now)
      ≡ Groups.take_next_packet (as_video g ∷ []) next (later now)
unfolding take_next_packet Groups.take_next_packet
take_next_packet-as_video g next now =
    take_ref_lem (next_packet g next now) g
    ∙ ap (λ (r : Groups.NextPacket). Groups.take_ref r (as_video g ∷ []))
        (next_packet_lem g next now)
