-- ===== src/Video/Receiver/Steps.antt =====
-- One round of `process` on what a sender of the schedule sent.
use plank_kymux.Common.{
  ℕ, ◌+◌, ◌-◌, ◌%◌, ◌≤◌, ◌≡◌, refl, ap, inl, inr, Bool, true, List, [], ◌∷◌, arith, ltb, leb,
  leb→le, Bool-cases, Result, ok, ◌>>=◌,
}
use plank_kymux.Wire.{Bytes, IoError}
use plank_kymux.Av.Packet.{AvPacket, CodecPacket, MediaPacket}
use plank_kymux.Sequencer.{w32, range, Sequencer, seq}
use plank_kymux.Sequencer.Unroll.{IsNear, seq_lem}
use plank_kymux.Video.Schedule.{Schedule, IsSchedule}
use plank_kymux.Video.Group.{PendingGroup}
use plank_kymux.Video.Group.Invariant.{IsPiece}
use plank_kymux.Video.Groups.{Action}
use plank_kymux.Video.Groups.Invariant.{
  GroupsInv, Takes, waits, until, takes, take_next_packet-Takes, widen-GroupsInv,
  insert_group_datagram-Keeps, insert_stream_packet-Keeps,
}
use plank_kymux.Video.Receiver.{
  DatagramMsg, StreamMsg, RecvMsg, stream, datagram, Receiver, start, or_default, count_dropped,
  apply_action, poll, accept_stream, accept_datagram, counted, accept_stream_msg, on_msg,
  on_deadline,
}

abbrev pub ReceiverInv : Schedule → ℕ → Receiver → Type 0
ReceiverInv t seen r = GroupsInv t r.next_kypacket_seq seen r.pending_groups

pub start-ReceiverInv : (t : Schedule) → ReceiverInv t 0 start
unfolding start
start-ReceiverInv t = record { sorted = tt; groups = tt; configs = tt }

-- What a round does to the counters, by what it sends to the client.
pub data Effect (t : Schedule) (r r' : Receiver) (out : List AvPacket) : Type 0 where
  quiet :
      out ≡ []
      → r'.next_kypacket_seq ≡ r.next_kypacket_seq
      → or_default r'.dropped_packets ≡ or_default r.dropped_packets
      → Effect t r r' out
  passes :
      (p : CodecPacket)
      → out ≡ AvPacket.codec p ∷ []
      → r'.next_kypacket_seq ≡ r.next_kypacket_seq
      → or_default r'.dropped_packets ≡ or_default r.dropped_packets
      → Effect t r r' out
  sends :
      (k : ℕ)
      → out ≡ t.packet_of k ∷ []
      → r.next_kypacket_seq ≤ k
      → r'.next_kypacket_seq ≡ k + 1
      → or_default r'.dropped_packets ≡ or_default r.dropped_packets + (k - r.next_kypacket_seq)
      → Effect t r r' out

-- A round that succeeds, with its effect, and leaves the receiver in order.
pub record Round (t : Schedule) (seen : ℕ) (r : Receiver)
    (result : Result IoError (Receiver × List AvPacket)) : Type 0 where
  pub after : Receiver
  pub out : List AvPacket
  pub run : result ≡ ok (after, out)
  pub effect : Effect t r after out
  pub inv : ReceiverInv t seen after

-- A message as the sender of the schedule made it. Config packets come in their order on the stream,
-- those of the groups from `seen` on are still to come; the counters are not further off than half
-- their range.
pub data IsHonest (t : Schedule) (r : Receiver) (seen : ℕ) : RecvMsg → ℕ → Type 0 where
  codec :
      (p : CodecPacket) (raw_k raw_g : ℕ)
      → IsHonest t r seen
          (stream
            (record { packet = AvPacket.codec p; raw_kypacket_seq = raw_k; raw_group_seq = raw_g }))
          seen
  config :
      (k : ℕ)
      → t.config k ≡ true
      → seen ≤ t.group_of k
      → IsNear w32 r.kypacket_sequencer.newest_seq k
      → IsNear w32 r.group_sequencer.newest_seq (t.group_of k)
      → IsHonest t r seen
          (stream (record {
            packet = t.packet_of k;
            raw_kypacket_seq = k % range w32;
            raw_group_seq = t.group_of k % range w32;
          }))
          (t.group_of k + 1)
  piece :
      (k i : ℕ) (end : Bool) (bytes : Bytes)
      → IsPiece t k i end bytes
      → IsNear w32 r.kypacket_sequencer.newest_seq k
      → IsNear w32 r.group_sequencer.newest_seq (t.group_of k)
      → IsHonest t r seen
          (datagram (record {
            bytes = bytes;
            raw_kypacket_seq = k % range w32;
            raw_group_seq = t.group_of k % range w32;
            datagram_number = i;
            end = end;
          }))
          seen

count_dropped_lem :
    (r : Receiver) (k : ℕ)
    → r.next_kypacket_seq ≤ k
    → or_default (count_dropped r k) ≡ or_default r.dropped_packets + (k - r.next_kypacket_seq)
count_dropped_lem r k h = ground arith

module _ (t : Schedule) (sched : IsSchedule t) where
  -- `poll` of a receiver whose groups are `gs`, against the receiver `r` before.
  poll-Round :
      (seen now : ℕ) (r : Receiver) (gs : List PendingGroup)
      → GroupsInv t r.next_kypacket_seq seen gs
      → Round t seen r (poll (record r { pending_groups = gs }) now)
  unfolding poll
  poll-Round seen now r gs v =
      go _ (take_next_packet-Takes t r.next_kypacket_seq seen now gs sched v)
    where
      go :
          (a : Result IoError (Action × List PendingGroup))
          → Takes t r.next_kypacket_seq seen gs a
          → Round t seen r (a >>= λ x. ok (apply_action (record r { pending_groups = gs }) x))
      go a waits = record {
        after = _;
        out = [];
        run = refl;
        effect = quiet refl refl refl;
        inv = v;
      }
      go a (until at) = record {
        after = _;
        out = [];
        run = refl;
        effect = quiet refl refl refl;
        inv = v;
      }
      go a (takes _ k) = record {
        after =
            (apply_action (record r { pending_groups = gs })
              (Action.packet k.k (t.packet_of k.k), k.left)).0;
        out = t.packet_of k.k ∷ [];
        run = rw k.run;
        effect =
            sends k.k refl k.not_before refl
              (count_dropped_lem (record r { pending_groups = gs }) k.k k.not_before);
        inv = k.inv;
      }

  accept_stream-Round :
      (seen k now : ℕ) (r : Receiver)
      → ReceiverInv t seen r
      → t.config k ≡ true
      → seen ≤ t.group_of k
      → Round t (t.group_of k + 1) r (accept_stream r k (t.group_of k) (t.packet_of k) now)
  unfolding accept_stream
  accept_stream-Round seen k now r v c new = elim (Bool-cases (leb r.next_kypacket_seq k)) [
    | inl lo ↦
        let (gs, run, v') =
          insert_stream_packet-Keeps t r.next_kypacket_seq seen k r.pending_groups v c
            (leb→le _ _ lo) new in
        rw (lo, run) (poll-Round (t.group_of k + 1) now r gs v')
    | inr hi ↦ rw hi (
        poll-Round (t.group_of k + 1) now r r.pending_groups (
          widen-GroupsInv t r.next_kypacket_seq seen (t.group_of k + 1) r.pending_groups
            (omega arith) v))
  ]

  accept_datagram-Round :
      (seen k now : ℕ) (r : Receiver) (m : DatagramMsg)
      → ReceiverInv t seen r
      → IsPiece t k m.datagram_number m.end m.bytes
      → Round t seen r (accept_datagram r k (t.group_of k) m now)
  unfolding accept_datagram
  accept_datagram-Round seen k now r m v h = elim (Bool-cases (ltb k r.next_kypacket_seq)) [
    | inl late ↦
        rw late (record { after = r; out = []; run = refl; effect = quiet refl refl refl; inv = v })
    | inr lo ↦
        let (gs, run, v') =
          insert_group_datagram-Keeps t r.next_kypacket_seq seen k m.datagram_number m.end m.bytes
            now r.pending_groups sched v (ground arith) h in
        rw (lo, run) (poll-Round seen now r gs v')
  ]

  -- The effect of a round on the receiver that has counted the message is that on the one before.
  uncounted :
      (seen : ℕ) (r : Receiver) (raw_k raw_g : ℕ) (x : Result IoError (Receiver × List AvPacket))
      → Round t seen (counted r raw_k raw_g) x
      → Round t seen r x
  uncounted seen r raw_k raw_g x d = record {
    after = d.after;
    out = d.out;
    run = d.run;
    effect = go d.after d.out d.effect;
    inv = d.inv;
  }
    where
      go :
          (r' : Receiver) (out : List AvPacket)
          → Effect t (counted r raw_k raw_g) r' out
          → Effect t r r' out
      go r' out (quiet e n p) = quiet e n p
      go r' out (passes c e n p) = passes c e n p
      go r' out (sends k e lo n p) = sends k e lo n p

  -- A message of packet `k` is taken as one of packet `k`: the sequencers count as the sender does.
  accept_media :
      (r : Receiver) (m : StreamMsg) (p : AvPacket) (now : ℕ) (x : MediaPacket)
      → p ≡ AvPacket.media x
      → accept_stream_msg r m p now
        ≡ accept_stream
            (counted r m.raw_kypacket_seq m.raw_group_seq)
            (seq w32 r.kypacket_sequencer m.raw_kypacket_seq).0
            (seq w32 r.group_sequencer m.raw_group_seq).0
            m.packet
            now
  unfolding accept_stream_msg
  accept_media r m p now x e = rw e refl

  seq_number :
      (s : Sequencer) (k : ℕ) → IsNear w32 s.newest_seq k → (seq w32 s (k % range w32)).0 ≡ k
  seq_number s k h = ap (λ q. q.0) (seq_lem w32 s k h)

  -- Every honest message is taken in without a panic, whatever is lost, late or out of order.
  pub on_msg-Round :
      (seen seen' now : ℕ) (r : Receiver) (m : RecvMsg)
      → ReceiverInv t seen r
      → IsHonest t r seen m seen'
      → Round t seen' r (on_msg r m now)
  unfolding on_msg accept_stream_msg
  on_msg-Round seen seen' now r m v (codec p raw_k raw_g) = record {
    after = r;
    out = AvPacket.codec p ∷ [];
    run = refl;
    effect = passes p refl refl refl;
    inv = v;
  }
  on_msg-Round seen seen' now r m v (config k c new nk ng) =
      let (x, e) = sched.config_at k c in
      rw
        (
          accept_media r _ (t.packet_of k) now x e,
          seq_number _ k nk,
          seq_number _ (t.group_of k) ng,
        )
        (uncounted (t.group_of k + 1) r (k % range w32) (t.group_of k % range w32) _ (
          accept_stream-Round seen k now (counted r (k % range w32) (t.group_of k % range w32)) v c
            new))
  on_msg-Round seen seen' now r m v (piece k i end bytes h nk ng) =
      rw (seq_number _ k nk, seq_number _ (t.group_of k) ng)
        (uncounted seen r (k % range w32) (t.group_of k % range w32) _ (
          accept_datagram-Round seen k now (counted r (k % range w32) (t.group_of k % range w32)) _
            v h))

  -- So is the deadline.
  pub on_deadline-Round :
      (seen now : ℕ) (r : Receiver) → ReceiverInv t seen r → Round t seen r (on_deadline r now)
  unfolding on_deadline
  on_deadline-Round seen now r v = poll-Round seen now r r.pending_groups v
