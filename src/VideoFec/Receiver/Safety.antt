-- ===== src/VideoFec/Receiver/Safety.antt =====
-- `process` of video_unreliable_fec.rs, on messages of a peer's choice.
use plank_kymux.Common.{
  ℕ, zero, suc, ◌+◌, ◌<◌, inl, inr, List, [], ◌∷◌, arith, ltb, leb, Bool-cases, Safe, Safe-bind,
}
use plank_kymux.Av.Packet.{AvPacket}
use plank_kymux.Fec.{Raptorq, max_pending_objects}
use plank_kymux.Fec.Validation.{IsReal}
use plank_kymux.Video.Receiver.{StreamMsg}
use plank_kymux.VideoFec.Groups.{
  PendingGroups, objects, bytes, insert_stream_packet, insert_group_datagram,
}
use plank_kymux.VideoFec.Groups.Budget.{
  IsWithin, insert_stream_packet-IsWithin, insert_group_datagram-IsWithin,
}
use plank_kymux.VideoFec.Choice.{Action, take_next_packet}
use plank_kymux.VideoFec.Choice.Taking.{Taken, take_next_packet-Taken}
use plank_kymux.VideoFec.Receiver.{
  Receiver, RecvMsg, DatagramMsg, stream, datagram, start, apply_action, drain_loop, drain,
  accept_stream, accept_stream_msg, accept_datagram, on_msg, on_deadline, Event, message, timeout,
  on_event, run,
}

module _ {D : Type 0} (R : Raptorq D) where
  abbrev pub IsSound : Receiver D → Type 0
  IsSound r = IsWithin R r.pending_groups

  -- A sound receiver, and the packets that it sent.
  abbrev pub SoundAfter : Receiver D × List AvPacket → Type 0
  SoundAfter q = IsSound q.0

  pub start-IsSound : IsSound start
  unfolding start objects bytes
  start-IsSound = record {
    ordered = record { sorted = tt; groups = tt; few = omega arith };
    objects_le = omega arith;
    bytes_le = omega arith;
  }

  -- What the rounds that are left do.
  abbrev Drains : ℕ → ℕ → Type 0
  Drains fuel now =
      (r : Receiver D)
      → IsSound r
      → objects r.pending_groups.pending_groups < fuel
      → Safe IsReal SoundAfter (drain_loop fuel r now)

  apply_action_lem :
      (fuel now : ℕ) (r : Receiver D) (q : Action × PendingGroups D)
      → Drains fuel now
      → objects r.pending_groups.pending_groups < suc fuel
      → Taken R r.pending_groups q
      → Safe IsReal SoundAfter (apply_action (λ r'. drain_loop fuel r' now) r q)
  apply_action_lem fuel now r (Action.nothing, ps) again below v = v
  apply_action_lem fuel now r (Action.deadline t, ps) again below v = v
  apply_action_lem fuel now r (Action.packet k p f, ps) again below (v, fewer) =
      Safe-bind IsReal SoundAfter SoundAfter (drain_loop fuel _ now) _
        (again _ v (omega (arith, fewer))) λ q e h. h

  drain_loop_lem : (fuel now : ℕ) → Drains fuel now
  unfolding drain_loop
  drain_loop_lem zero now r v h = absurd (omega arith)
  drain_loop_lem (suc fuel) now r v h =
      let again = drain_loop_lem fuel now in
      Safe-bind IsReal (Taken R r.pending_groups) SoundAfter
        (take_next_packet r.pending_groups r.next_kypacket_seq now) _
        (take_next_packet-Taken R r.pending_groups r.next_kypacket_seq now v)
        λ q e taken. apply_action_lem fuel now r q again h taken

  drain_lem : (r : Receiver D) (now : ℕ) → IsSound r → Safe IsReal SoundAfter (drain r now)
  unfolding drain
  drain_lem r now v = drain_loop_lem (max_pending_objects + 1) now r v (omega (arith, v.objects_le))

  accept_stream_lem :
      (r : Receiver D) (k group : ℕ) (p : AvPacket) (now : ℕ)
      → IsSound r
      → Safe IsReal SoundAfter (accept_stream r k group p now)
  unfolding accept_stream
  accept_stream_lem r k group p now v = elim (Bool-cases (leb r.next_kypacket_seq k)) [
    | inl in_time ↦ rw in_time (
        Safe-bind IsReal (IsWithin R) SoundAfter
          (insert_stream_packet r.pending_groups group k p now) _
          (insert_stream_packet-IsWithin R r.pending_groups group k p now v)
          λ ps e h. drain_lem (record r { pending_groups = ps }) now h)
    | inr late ↦ rw late (drain_lem r now v)
  ]

  accept_stream_msg_lem :
      (r : Receiver D) (m : StreamMsg) (p : AvPacket) (now : ℕ)
      → IsSound r
      → Safe IsReal SoundAfter (accept_stream_msg r m p now)
  unfolding accept_stream_msg
  accept_stream_msg_lem r m (AvPacket.codec p) now v = v
  accept_stream_msg_lem r m (AvPacket.media p) now v = accept_stream_lem _ _ _ m.packet now v
  accept_stream_msg_lem r m (AvPacket.hole p) now v = accept_stream_lem _ _ _ m.packet now v

  accept_datagram_lem :
      (r : Receiver D) (k group : ℕ) (m : DatagramMsg) (now : ℕ)
      → IsSound r
      → Safe IsReal SoundAfter (accept_datagram R r k group m now)
  unfolding accept_datagram
  accept_datagram_lem r k group m now v = elim (Bool-cases (ltb k r.next_kypacket_seq)) [
    | inl late ↦ rw late v
    | inr in_time ↦ rw in_time (
        Safe-bind IsReal (IsWithin R) SoundAfter
          (insert_group_datagram R r.pending_groups group k m.oti m.payload_id m.bytes now) _
          (insert_group_datagram-IsWithin R r.pending_groups group k m.oti m.payload_id m.bytes now
            v)
          λ ps e h. drain_lem (record r { pending_groups = ps }) now h)
  ]

  -- Whatever message comes, and whenever, a round neither panics nor loops for ever; it ends in an
  -- error of the stream, or leaves the groups in order and within the budget.
  pub on_msg-IsSound :
      (r : Receiver D) (m : RecvMsg) (now : ℕ)
      → IsSound r
      → Safe IsReal SoundAfter (on_msg R r m now)
  unfolding on_msg
  on_msg-IsSound r (stream m) now v = accept_stream_msg_lem r m m.packet now v
  on_msg-IsSound r (datagram m) now v = accept_datagram_lem _ _ _ m now v

  pub on_deadline-IsSound :
      (r : Receiver D) (now : ℕ) → IsSound r → Safe IsReal SoundAfter (on_deadline r now)
  unfolding on_deadline
  on_deadline-IsSound r now v = drain_lem r now v

  on_event-IsSound :
      (r : Receiver D) (e : Event) (now : ℕ)
      → IsSound r
      → Safe IsReal SoundAfter (on_event R r e now)
  on_event-IsSound r (message m) now v = on_msg-IsSound r m now v
  on_event-IsSound r timeout now v = on_deadline-IsSound r now v

  run_lem :
      (r : Receiver D) (es : List (Event × ℕ)) → IsSound r → Safe IsReal SoundAfter (run R r es)
  unfolding run
  run_lem r [] v = v
  run_lem r ((e, now) ∷ es) v =
      Safe-bind IsReal SoundAfter SoundAfter (on_event R r e now) _ (on_event-IsSound r e now v)
        λ q done h.
          Safe-bind IsReal SoundAfter SoundAfter (run R q.0 es) _ (run_lem q.0 es h) λ q' end k. k

  -- From the start, over any messages and times, process neither panics nor loops for ever: it ends
  -- in an error of the stream, or every list is sorted, every object that waits has parameters for
  -- which RaptorQ is defined and symbols within the limit, and at most 32 groups, 128 objects and
  -- 256 MiB of reservations are held.
  pub run-IsSound : (es : List (Event × ℕ)) → Safe IsReal SoundAfter (run R start es)
  run-IsSound es = run_lem start es start-IsSound
