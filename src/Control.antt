-- ===== src/Control.antt =====
-- control.rs of kyproto: the state of one peer's control stream, and its handlers.
pub mod Rendezvous
use plank_kymux.Common.{
  ℕ, Bool, true, false, none, some, List, [], ◌∷◌, if◌then◌else◌, Result, ok, err, ◌>>◌, guard,
  lookup, erase, member,
}

pub data ControlError : Type 0 where
  already_pending already_notified already_registered unexpected_ack multiple_ready gone :
      ControlError

pub data ControlMsg : Type 0 where
  register_endpoint endpoint_registered ready : ℕ → ControlMsg

pub data PendingReady : Type 0 where
  awaiting_local awaiting_remote : PendingReady

-- A oneshot sender is what its endpoint id names: each endpoint has one for its registration and one
-- for its readiness.
pub record State : Type 0 where
  pub pending_register_ack : List (ℕ × Unit {0})
  pub pending_connect : List ℕ
  pub pending_ready : List (ℕ × PendingReady)

abbrev pub new : State
new = record { pending_register_ack = []; pending_connect = []; pending_ready = [] }

-- What `handle_msg` does besides: a message to the peer, or a value for a oneshot receiver.
pub data Handled : Type 0 where
  sends : ControlMsg → Handled
  acknowledges notifies : ℕ → Handled
  notes : Handled

-- `tx.send(())`, which fails once the receiver is dropped.
abbrev pub fire : Bool → Handled → Result ControlError Handled
fire listening h = guard listening ControlError.gone >> ok h

-- `register_endpoint` up to where it awaits the ack.
unfoldable pub start_registration : ℕ → State → State × Result ControlError ControlMsg
start_registration id s = elim (lookup id s.pending_register_ack) [
  | some _ ↦ (s, err ControlError.already_pending)
  | none ↦ (
    record s { pending_register_ack = (id, tt) ∷ s.pending_register_ack },
    ok (ControlMsg.register_endpoint id),
  )
]

-- `register_ready_notifier`: whether the notifier that it gives has fired already.
unfoldable pub register_ready_notifier : ℕ → State → State × Result ControlError Bool
register_ready_notifier id s = elim (lookup id s.pending_ready) [
  | some awaiting_remote ↦ (s, err ControlError.already_notified)
  | some awaiting_local ↦ (record s { pending_ready = erase id s.pending_ready }, ok true)
  | none ↦ (record s { pending_ready = (id, awaiting_remote) ∷ s.pending_ready }, ok false)
]

-- `handle_msg`; `listening` says whether the receiver of the oneshot it would use is still there.
unfoldable pub handle_msg : ControlMsg → Bool → State → State × Result ControlError Handled
handle_msg (register_endpoint id) listening s =
    if member id s.pending_connect then (s, err ControlError.already_registered) else (
      record s { pending_connect = id ∷ s.pending_connect },
      ok (sends (endpoint_registered id)),
    )
handle_msg (endpoint_registered id) listening s = elim (lookup id s.pending_register_ack) [
  | some _ ↦ (
    record s { pending_register_ack = erase id s.pending_register_ack },
    fire listening (acknowledges id),
  )
  | none ↦ (s, err ControlError.unexpected_ack)
]
handle_msg (ready id) listening s = elim (lookup id s.pending_ready) [
  | some awaiting_remote ↦
      (record s { pending_ready = erase id s.pending_ready }, fire listening (notifies id))
  | some awaiting_local ↦
      (record s { pending_ready = erase id s.pending_ready }, err ControlError.multiple_ready)
  | none ↦ (record s { pending_ready = (id, awaiting_local) ∷ erase id s.pending_ready }, ok notes)
]
