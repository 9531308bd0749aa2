-- ===== src/Connection/Endpoints.antt =====
-- lib.rs: what registering and connecting to an endpoint leave.
use plank_kymux.Common.{
  ℕ, ◌+◌, ◌%◌, ◌^◌, ◌≡◌, refl, ap, ◌∙◌, Bool, true, false, none, ◌∷◌, arith, ◌==◌, ok, err, lookup,
  member,
}
use plank_kymux.Control.{
  ControlError, State, PendingReady, ControlMsg, register_ready_notifier, start_registration,
}
use plank_kymux.Router.{register}
use plank_kymux.Connection.{
  as_control, ◌then◌, open_channel, Connection, EndpointKind, ProtocolError, begin_register,
  get_endpoint_id, connect,
}

-- A connection in which an id is unused: no oneshot, no channel.
pub record IsUnused (id : ℕ) (c : Connection) : Type 0 where
  pub no_ready : lookup id c.control_state.pending_ready ≡ none
  pub no_ack : lookup id c.control_state.pending_register_ack ≡ none
  pub no_client : member id c.clients ≡ false

abbrev awaiting : ℕ → State → State
awaiting id s = record s { pending_ready = (id, PendingReady.awaiting_remote) ∷ s.pending_ready }

notifier_unused :
    (id : ℕ) (s : State)
    → lookup id s.pending_ready ≡ none
    → register_ready_notifier id s ≡ (awaiting id s, ok false)
unfolding register_ready_notifier
notifier_unused id s h = rw (register_ready_notifier, h) refl

notifier_used :
    (id : ℕ) (s : State)
    → register_ready_notifier id (awaiting id s)
      ≡ (awaiting id s, err ControlError.already_notified)
unfolding register_ready_notifier
notifier_used id s =
    let own : (id == id) ≡ true = ground arith in rw (register_ready_notifier, own) refl

registration_unused :
    (id : ℕ) (s : State)
    → lookup id s.pending_register_ack ≡ none
    → start_registration id s ≡ (
      record s { pending_register_ack = (id, tt) ∷ s.pending_register_ack },
      ok (ControlMsg.register_endpoint id),
    )
unfolding start_registration
registration_unused id s h = rw (start_registration, h) refl

pub channel_unused :
    (kind : EndpointKind) (id : ℕ) (notified : Bool) (c : Connection)
    → member id c.clients ≡ false
    → open_channel kind id notified c ≡ (
      record c { clients = id ∷ c.clients },
      ok (record { kind = kind; endpoint_id = id; notified = notified }),
    )
unfolding register
channel_unused kind id notified c h = rw (open_channel, register, h) refl

-- What a registration makes of the connection until the ack comes.
abbrev pub registering : Connection → Connection
registering c = record c {
  next_endpoint_index = (c.next_endpoint_index + 2) % 2 ^ 16;
  control_state = record (awaiting c.next_endpoint_index c.control_state) {
    pending_register_ack = (c.next_endpoint_index, tt) ∷ c.control_state.pending_register_ack;
  };
}

-- Where the next id is unused, a registration takes it, asks the peer for it, and leaves the channels
-- as they are until the ack comes; the notifier has not fired.
pub begin_register_lem :
    (c : Connection)
    → IsUnused c.next_endpoint_index c
    → begin_register c ≡ (
      registering c,
      ok (c.next_endpoint_index, false, ControlMsg.register_endpoint c.next_endpoint_index),
    )
unfolding begin_register get_endpoint_id
begin_register_lem c u =
    let id = c.next_endpoint_index in
    let c1 = (get_endpoint_id c).1 in
    ap
      (λ x. as_control c1 x then λ notified c2.
        as_control c2 (start_registration id c2.control_state) then λ msg c3.
        (c3, ok (id, notified, msg)))
      (notifier_unused id c.control_state u.no_ready)
    ∙ ap
        (λ x.
          as_control (record c1 { control_state = awaiting id c.control_state }) x then λ msg c3.
          (c3, ok (id, false, msg)))
        (registration_unused id (awaiting id c.control_state) u.no_ack)

-- The connection once its notifier waits for the peer, and its channel is open.
abbrev pub connected : ℕ → Connection → Connection
connected id c = record c { control_state = awaiting id c.control_state; clients = id ∷ c.clients }

connect_unused :
    (kind : EndpointKind) (id : ℕ) (c : Connection)
    → IsUnused id c
    → connect kind id c
      ≡ (connected id c, ok (record { kind = kind; endpoint_id = id; notified = false }))
unfolding connect
connect_unused kind id c u =
    ap (λ x. as_control c x then λ notified c1. open_channel kind id notified c1)
      (notifier_unused id c.control_state u.no_ready)
    ∙ channel_unused kind id false (record c { control_state = awaiting id c.control_state })
        u.no_client

connect-connected :
    (kind : EndpointKind) (id : ℕ) (c : Connection)
    → connect kind id (connected id c)
      ≡ (connected id c, err (ProtocolError.control ControlError.already_notified))
unfolding connect
connect-connected kind id c =
    ap (λ x. as_control (connected id c) x then λ notified c1. open_channel kind id notified c1)
      (notifier_used id c.control_state)

-- Connecting to an unused id succeeds; doing so again, whatever the kind, fails and changes
-- nothing.
pub connect_once :
    (kind other : EndpointKind) (id : ℕ) (c : Connection)
    → IsUnused id c
    → ((connect kind id c).1 ≡ ok (record { kind = kind; endpoint_id = id; notified = false }))
      × (connect other id (connect kind id c).0
          ≡ ((connect kind id c).0, err (ProtocolError.control ControlError.already_notified)))
connect_once kind other id c u =
    rw (connect_unused kind id c u) (refl, connect-connected other id c)
