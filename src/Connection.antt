-- ===== src/Connection.antt =====
-- `Connection` of kyproto's lib.rs: the ids of its endpoints, and how an endpoint is registered with
-- the peer, connected to, and made ready.
pub mod Ids
pub mod Endpoints
pub mod Handshake
use plank_kymux.Common.{ℕ, ◌+◌, ◌%◌, ◌^◌, Bool, [], Result, ok, err, panic, map_err}
use plank_kymux.Control.{
  ControlError, ControlMsg, State, register_ready_notifier, start_registration,
}
use plank_kymux.Router.{ClientMap, RouterError}
use plank_kymux.Router

abbrev pub initiator_server : ℕ
initiator_server = 0

abbrev pub initiator_client : ℕ
initiator_client = 1

pub data EndpointKind : Type 0 where
  video audio data_ input clock_sync metrics : EndpointKind

pub data ProtocolError : Type 0 where
  control : ControlError → ProtocolError
  router : RouterError → ProtocolError

-- The part of an endpoint driver that all kinds have: whether its ready notifier has fired already.
pub record EndpointDriver : Type 0 where
  pub kind : EndpointKind
  pub endpoint_id : ℕ
  pub notified : Bool

pub record Connection : Type 0 where
  pub next_endpoint_index : ℕ
  pub control_state : State
  pub clients : ClientMap

abbrev pub new : ℕ → Connection
new initiator = record {
  next_endpoint_index = initiator;
  control_state = plank_kymux.Control.new;
  clients = [];
}

-- `fetch_add`, which wraps around.
unfoldable pub get_endpoint_id : Connection → ℕ × Connection
get_endpoint_id c =
    (c.next_endpoint_index, record c { next_endpoint_index = (c.next_endpoint_index + 2) % 2 ^ 16 })

abbrev pub as_control {ℓ} :
    {A : Type ℓ} → Connection → State × Result ControlError A → Connection × Result ProtocolError A
as_control c (s, x) = (record c { control_state = s }, map_err control x)

-- Runs on, or stops at the failure with the state it leaves.
infixl 5 ◌then◌
abbrev pub ◌then◌ {ℓ κ} :
    {A : Type ℓ} {B : Type κ}
    → Connection × Result ProtocolError A
    → (A → Connection → Connection × Result ProtocolError B)
    → Connection × Result ProtocolError B
(c, ok a) then f = f a c
(c, err e) then f = (c, err e)
(c, panic) then f = (c, panic)

-- `self.router.register`
abbrev pub open_channel :
    EndpointKind → ℕ → Bool → Connection → Connection × Result ProtocolError EndpointDriver
open_channel kind id notified c = elim (Router.register c.clients id) [
  | ok clients ↦ (
    record c { clients = clients },
    ok (record { kind = kind; endpoint_id = id; notified = notified }),
  )
  | err e ↦ (c, err (router e))
  | panic ↦ (c, panic)
]

-- The `register_…_endpoint` functions up to where they await the ack: the id, whether the notifier
-- has fired, and the message to the peer.
unfoldable pub begin_register :
    Connection → Connection × Result ProtocolError (ℕ × Bool × ControlMsg)
begin_register c =
    let (id, c1) = get_endpoint_id c in
    as_control c1 (register_ready_notifier id c1.control_state) then λ notified c2.
    as_control c2 (start_registration id c2.control_state) then λ msg c3.
    (c3, ok (id, notified, msg))

-- The rest of them, once the ack has come.
unfoldable pub end_register :
    EndpointKind → ℕ → Bool → Connection → Connection × Result ProtocolError EndpointDriver
end_register = open_channel

-- The `connect_…_endpoint` functions.
unfoldable pub connect :
    EndpointKind → ℕ → Connection → Connection × Result ProtocolError EndpointDriver
connect kind id c = as_control c (register_ready_notifier id c.control_state) then λ notified c1.
    open_channel kind id notified c1

-- A registration as a whole; `await` is what becomes of the connection until the ack comes, or the
-- sender of the ack is dropped.
unfoldable pub register_endpoint :
    EndpointKind
    → (ControlMsg → Connection → Connection × Result ProtocolError (Unit {0}))
    → Connection
    → Connection × Result ProtocolError EndpointDriver
register_endpoint kind await c =
    begin_register c then λ b c1. await b.2 c1 then λ u c2. end_register kind b.0 b.1 c2

module _ (await : ControlMsg → Connection → Connection × Result ProtocolError (Unit {0})) where
  abbrev pub register_video_endpoint : Connection → Connection × Result ProtocolError EndpointDriver
  register_video_endpoint = register_endpoint video await

  abbrev pub register_audio_endpoint : Connection → Connection × Result ProtocolError EndpointDriver
  register_audio_endpoint = register_endpoint audio await

  abbrev pub register_data_endpoint : Connection → Connection × Result ProtocolError EndpointDriver
  register_data_endpoint = register_endpoint data_ await

  abbrev pub register_input_endpoint : Connection → Connection × Result ProtocolError EndpointDriver
  register_input_endpoint = register_endpoint input await

  abbrev pub register_clock_sync_endpoint :
      Connection → Connection × Result ProtocolError EndpointDriver
  register_clock_sync_endpoint = register_endpoint clock_sync await

  abbrev pub register_metrics_endpoint :
      Connection → Connection × Result ProtocolError EndpointDriver
  register_metrics_endpoint = register_endpoint metrics await

abbrev pub connect_video_endpoint :
    ℕ → Connection → Connection × Result ProtocolError EndpointDriver
connect_video_endpoint = connect video

abbrev pub connect_audio_endpoint :
    ℕ → Connection → Connection × Result ProtocolError EndpointDriver
connect_audio_endpoint = connect audio

abbrev pub connect_data_endpoint : ℕ → Connection → Connection × Result ProtocolError EndpointDriver
connect_data_endpoint = connect data_

abbrev pub connect_input_endpoint :
    ℕ → Connection → Connection × Result ProtocolError EndpointDriver
connect_input_endpoint = connect input

abbrev pub connect_clock_sync_endpoint :
    ℕ → Connection → Connection × Result ProtocolError EndpointDriver
connect_clock_sync_endpoint = connect clock_sync

abbrev pub connect_metrics_endpoint :
    ℕ → Connection → Connection × Result ProtocolError EndpointDriver
connect_metrics_endpoint = connect metrics
