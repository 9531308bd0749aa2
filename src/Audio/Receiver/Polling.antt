-- ===== src/Audio/Receiver/Polling.antt =====
-- `poll` of audio_unreliable.rs: the assertions of `take_next_packet` hold, whatever is pending.
use plank_kymux.Common.{ℕ, ◌≡◌, refl, ap, some, List, [], ◌∷◌, arith, Result, ok, Safe, Safe-ok}
use plank_kymux.Wire.{IoError}
use plank_kymux.Av.Packet.{AvPacket}
use plank_kymux.Video.Segments.{DatagramPacket, DatagramSegments}
use plank_kymux.Video.Group.{ConfigPacket, consume}
use plank_kymux.Audio.Group.{PendingGroup, Action, next_packet, take_ready, take_next_packet}
use plank_kymux.Audio.Receiver.{Receiver, give, give_packet, apply_action, poll}

-- A call that can neither fail nor panic.
abbrev Total {ℓ} : {A : Type ℓ} → Result IoError A → Type 0
Total = Safe (λ e. ⊥) (λ a. Unit {0})

take_parts :
    (c : ConfigPacket) (ds : List DatagramPacket) (ss : List DatagramSegments) (next now : ℕ)
    → Total
        (take_next_packet (record { config_packet = c; datagrams = ds; segments = ss }) next now)
unfolding take_next_packet next_packet take_ready consume
take_parts ConfigPacket.missing ds ss next now = tt
take_parts ConfigPacket.sent [] ss next now = tt
take_parts ConfigPacket.sent (d ∷ ds) ss next now = ground arith
take_parts (ConfigPacket.ready p) [] ss next now = ground arith
take_parts (ConfigPacket.ready p) (d ∷ ds) ss next now = ground arith

apply_total :
    (r : Receiver) (f : ℕ) (q : Action × PendingGroup)
    → r.frame_size ≡ some f
    → (out : Receiver × List AvPacket) × (apply_action r q ≡ ok out)
apply_total r f (Action.nothing, g) e = (_, refl)
apply_total r f (Action.deadline t, g) e = (_, refl)
apply_total r f (Action.packet k p, g) e = (
  give (record r { pending_group = g }) k p f,
  ap (give_packet (record r { pending_group = g }) k p) e,
)

-- Once a codec packet has come, whatever the group holds and whenever it is polled, a packet, a
-- deadline or nothing comes out, without a panic.
pub poll-total :
    (r : Receiver) (frame_size now : ℕ)
    → r.frame_size ≡ some frame_size
    → (out : Receiver × List AvPacket) × (poll r now ≡ ok out)
unfolding poll
poll-total r f now e =
    let g = r.pending_group in
    let (q, took) =
      Safe-ok (take_next_packet g r.next_kypacket_seq now)
        (take_parts g.config_packet g.datagrams g.segments r.next_kypacket_seq now) in
    let (out, done) = apply_total r f q e in (out, rw took done)
