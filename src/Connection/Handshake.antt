-- ===== src/Connection/Handshake.antt =====
-- lib.rs and control.rs: a registration with a peer that answers it.
use plank_kymux.Common.{
  ℕ, ◌≡◌, refl, ap, ◌∙◌, true, false, none, some, ◌∷◌, ◌==◌, ==_iff, Result, ok, err, panic, lookup,
  erase, lookup-erase, member,
}
use plank_kymux.Control.{
  ControlError, State, ControlMsg, PendingReady, Handled, sends, acknowledges, notifies, notes,
  handle_msg,
}
use plank_kymux.Connection.{
  as_control, ◌then◌, Connection, EndpointKind, ProtocolError, register_endpoint, end_register,
}
use plank_kymux.Connection.Endpoints.{IsUnused, registering, begin_register_lem, channel_unused}

-- The ack wakes the registration that awaits it; nothing else does.
abbrev woken : State × Result ControlError Handled → State × Result ControlError (Unit {0})
woken (s, ok (acknowledges id)) = (s, ok tt)
woken (s, ok (sends msg)) = (s, err ControlError.gone)
woken (s, ok (notifies id)) = (s, err ControlError.gone)
woken (s, ok notes) = (s, err ControlError.gone)
woken (s, err e) = (s, err e)
woken (s, panic) = (s, panic)

abbrev answered :
    Result ControlError Handled → Connection → Connection × Result ProtocolError (Unit {0})
answered (ok (sends reply)) c = as_control c (woken (handle_msg reply true c.control_state))
answered (ok _) c = (c, err (ProtocolError.control ControlError.gone))
answered (err e) c = (c, err (ProtocolError.control ControlError.gone))
answered panic c = (c, err (ProtocolError.control ControlError.gone))

-- The await of a registration: the peer handles the message, and its answer is handled here.
abbrev pub exchange : State → ControlMsg → Connection → Connection × Result ProtocolError (Unit {0})
exchange peer msg c = answered (handle_msg msg true peer).1 c

-- The connection once the ack has come, and after its channel is open.
abbrev acked : Connection → Connection
acked c = record (registering c) {
  control_state = record (registering c).control_state {
    pending_register_ack =
        erase c.next_endpoint_index (registering c).control_state.pending_register_ack;
  };
}

abbrev registered : Connection → Connection
registered c = record (acked c) { clients = c.next_endpoint_index ∷ c.clients }

own : (id : ℕ) → (id == id) ≡ true
own id = (==_iff id id).1 refl

abbrev taken : ℕ → State → State
taken id peer = record peer { pending_connect = id ∷ peer.pending_connect }

peer_takes :
    (id : ℕ) (peer : State)
    → member id peer.pending_connect ≡ false
    → handle_msg (ControlMsg.register_endpoint id) true peer
      ≡ (taken id peer, ok (sends (ControlMsg.endpoint_registered id)))
unfolding handle_msg
peer_takes id peer fresh = rw fresh refl

peer_refuses :
    (id : ℕ) (peer : State)
    → (handle_msg (ControlMsg.register_endpoint id) true (taken id peer)).1
      ≡ err ControlError.already_registered
unfolding handle_msg
peer_refuses id peer = rw (own id) refl

ack_comes :
    (id : ℕ) (s : State)
    → lookup id s.pending_register_ack ≡ some tt
    → handle_msg (ControlMsg.endpoint_registered id) true s
      ≡ (record s { pending_register_ack = erase id s.pending_register_ack }, ok (acknowledges id))
unfolding handle_msg
ack_comes id s waits = rw (handle_msg, waits) refl

ack_unexpected :
    (id : ℕ) (s : State)
    → lookup id s.pending_register_ack ≡ none
    → (handle_msg (ControlMsg.endpoint_registered id) true s).1 ≡ err ControlError.unexpected_ack
unfolding handle_msg
ack_unexpected id s none_waits = rw (handle_msg, none_waits) refl

ready_fires :
    (id : ℕ) (s : State)
    → lookup id s.pending_ready ≡ some PendingReady.awaiting_remote
    → (handle_msg (ControlMsg.ready id) true s).1 ≡ ok (notifies id)
unfolding handle_msg
ready_fires id s waits = rw (handle_msg, waits) refl

exchange_lem :
    (c : Connection) (peer : State)
    → member c.next_endpoint_index peer.pending_connect ≡ false
    → exchange peer (ControlMsg.register_endpoint c.next_endpoint_index) (registering c)
      ≡ (acked c, ok tt)
unfolding handle_msg
exchange_lem c peer fresh =
    ap (λ x. answered x.1 (registering c)) (peer_takes c.next_endpoint_index peer fresh)
    ∙ ap (λ x. as_control (registering c) (woken x))
        (ack_comes c.next_endpoint_index (registering c).control_state
          (rw (own c.next_endpoint_index) refl))

register_endpoint_lem :
    (kind : EndpointKind) (c : Connection) (peer : State)
    → IsUnused c.next_endpoint_index c
    → member c.next_endpoint_index peer.pending_connect ≡ false
    → register_endpoint kind (exchange peer) c ≡ (
      registered c,
      ok (record { kind = kind; endpoint_id = c.next_endpoint_index; notified = false }),
    )
unfolding register_endpoint end_register
register_endpoint_lem kind c peer u fresh =
    let id = c.next_endpoint_index in
    ap (λ x. x then λ b c1. exchange peer b.2 c1 then λ _ c2. end_register kind b.0 b.1 c2)
      (begin_register_lem c u)
    ∙ ap (λ x. x then λ _ c2. end_register kind id false c2) (exchange_lem c peer fresh)
    ∙ channel_unused kind id false (acked c) u.no_client

-- A registration of an unused id with a peer that has not registered it succeeds with that id, its
-- notifier not fired. Its channel is then open and no ack is awaited, so that another ack is an error;
-- a Ready message of the peer fires its notifier; and the peer refuses to register the id again.
pub register_endpoint-exchange :
    (kind : EndpointKind) (c : Connection) (peer : State)
    → IsUnused c.next_endpoint_index c
    → member c.next_endpoint_index peer.pending_connect ≡ false
    → (let id = c.next_endpoint_index in
        let done = register_endpoint kind (exchange peer) c in
        let after = done.0.control_state in
        let peer' = (handle_msg (ControlMsg.register_endpoint id) true peer).0 in
        (done.1 ≡ ok (record { kind = kind; endpoint_id = id; notified = false }))
        × (member id done.0.clients ≡ true)
        × (lookup id after.pending_register_ack ≡ none)
        × ((handle_msg (ControlMsg.endpoint_registered id) true after).1
            ≡ err ControlError.unexpected_ack)
        × ((handle_msg (ControlMsg.ready id) true after).1 ≡ ok (notifies id))
        × ((handle_msg (ControlMsg.register_endpoint id) true peer').1
            ≡ err ControlError.already_registered))
register_endpoint-exchange kind c peer u fresh =
    let id = c.next_endpoint_index in
    let mine = own id in
    let after = (registered c).control_state in
    let no_ack = lookup-erase id (registering c).control_state.pending_register_ack in
    rw (register_endpoint_lem kind c peer u fresh) (
      refl,
      rw mine,
      no_ack,
      ack_unexpected id after no_ack,
      ready_fires id after (rw mine refl),
      ap
            (λ (x : State × Result ControlError Handled).
              (handle_msg (ControlMsg.register_endpoint id) true x.0).1)
            (peer_takes id peer fresh)
          ∙ peer_refuses id peer,
    )
