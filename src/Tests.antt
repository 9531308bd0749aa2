-- ===== src/Tests.antt =====
-- The theorems on streams, sequencers and endpoints at concrete inputs.
use plank_kymux.Common.{
  ℕ, ◌+◌, ◌%◌, ◌≤◌, ◌<◌, ◌≡◌, refl, ◌≢◌, ◌⊎◌, Bool, true, false, not, Option, none, some, List, [],
  ◌∷◌, ◌++◌, map, arith, ltb, ◌==◌, if◌then◌else◌, ok, err, ◌>>=◌, length, lookup, member,
}
use plank_kymux.Wire.{Bytes, IoError, Reader, read_exact}
use plank_kymux.Sequencer.{w8}
use plank_kymux.Sequencer.Unroll.{run, run-map_mod, IsNear, unroll_bounds}
use plank_kymux.Sequencer.{unroll, range}
use plank_kymux.Serial.{forward, ForwardError, send_all}
use plank_kymux.Serial.Forward.{forward-ne-out_of_fuel, forward-send_all, forward-send_all_err}
use plank_kymux.Av
use plank_kymux.Av.Packet.{AvPacket}
use plank_kymux.Av.Stream.{read-write}
use plank_kymux.Packets.Data
use plank_kymux.Packets.Data.{DataPacket, max_data_packet_size}
use plank_kymux.Packets.Data.Stream as DataStream
use plank_kymux.Packets.Data.Stream.{read_some_lem, cut_prefix}
use plank_kymux.Packets.Input.{InputPacket}
use plank_kymux.Packets.Input
use plank_kymux.Packets.Input.Stream as InputStream
use plank_kymux.Auth
use plank_kymux.Auth.{ClientAuth, AuthError, token_max_len, connect_with_auth, accept_with_auth}
use plank_kymux.Auth.Exchange.{accept_with_auth-connect_with_auth}
use plank_kymux.ClockSync.{ClockSyncClient, Round, Arrival, sync_request, sync_round, serve}
use plank_kymux.ClockSync.Exchange.{sync_round-serve}
use plank_kymux.Control.{ControlMsg, handle_msg}
use plank_kymux.Control
use plank_kymux.Control.Rendezvous.{
  Event, notifier, message, fired, count, is_notifier, is_ready, both, fired_iff_both,
}
use plank_kymux.Router.{
  Delivery, RouterError, register, unregister, write_endpoint_id, accept_channel,
  recv_channel_datagram,
}
use plank_kymux.Router.Routing.{
  recv_channel_datagram-write, accept_channel-write, unregister-register,
}
use plank_kymux.Connection
use plank_kymux.Connection.{
  initiator_server, initiator_client, EndpointKind, ProtocolError, register_endpoint, connect,
}
use plank_kymux.Connection.Endpoints.{connect_once}
use plank_kymux.Connection.Handshake.{exchange, register_endpoint-exchange}
use plank_kymux.Connection.Ids.{nth_id, nth_id-ne_sides, nth_id-injective}

run-map_mod_example :
    run w8 (record { newest_seq = 250 }) (map (λ n. n % range w8) (260 ∷ 255 ∷ 300 ∷ []))
    ≡ 260 ∷ 255 ∷ 300 ∷ []
run-map_mod_example =
    run-map_mod w8 (record { newest_seq = 250 }) (260 ∷ 255 ∷ 300 ∷ [])
      ((omega arith, omega arith), ((omega arith, omega arith), ((omega arith, omega arith), tt)))

unroll_bounds_example :
    (unroll w8 250 4 % range w8 ≡ 4)
    × (unroll w8 250 4 ≤ 250 + range w8)
    × (IsNear w8 250 (unroll w8 250 4) ⊎ (unroll w8 250 4 < range w8))
unroll_bounds_example = unroll_bounds w8 250 4 (omega arith)

abbrev hole : AvPacket
hole = AvPacket.hole (record { header = record { missing_audio_samples = 960 } })

read-write_example :
    (bs : Bytes) × (Av.write hole ≡ ok bs)
    × ((rest : Bytes) (ends : Bool)
        → Av.read (record { input = bs ++ rest; ends = ends })
          ≡ (ok (some hole), record { input = rest; ends = ends }))
read-write_example =
    read-write hole (record { samples_pos = omega arith; samples_lt = omega arith })

-- A data packet of two bytes, its length prefix cut after one byte.
abbrev after_data : Reader
after_data = record { input = 9 ∷ []; ends = true }

data_read :
    Data.read 1 (record { input = 0 ∷ 0 ∷ 0 ∷ 2 ∷ 7 ∷ 8 ∷ 9 ∷ []; ends = true })
    ≡ (ok (some (record { payload = 7 ∷ 8 ∷ [] })), after_data)
unfolding Data.read Data.read_some Data.read_prefix Data.read_payload read_exact
data_read = refl

read_some_lem_example :
    DataStream.IsInRange (record { payload = 7 ∷ 8 ∷ [] }) × (length after_data.input + 2 + 4 ≡ 7)
read_some_lem_example =
    read_some_lem 1 (0 ∷ 0 ∷ 0 ∷ 2 ∷ 7 ∷ 8 ∷ 9 ∷ []) true after_data
      (record { payload = 7 ∷ 8 ∷ [] }) data_read

cut_prefix_example :
    (Data.read 1 (record { input = 0 ∷ 0 ∷ []; ends = true })).0 ≡ err IoError.unexpected_eof
cut_prefix_example = cut_prefix 1 0 (0 ∷ []) (omega arith)

abbrev key : InputPacket
key = record { type_ = 1; payload = 30 ∷ [] }

abbrev key_bytes : Bytes
key_bytes = 1 ∷ 0 ∷ 1 ∷ 30 ∷ []

key_sent : send_all InputStream.serializable (key ∷ []) [] ≡ ok key_bytes
unfolding send_all plank_kymux.Serial.send Input.write
key_sent = refl

forward-ne-out_of_fuel_example :
    (forward InputStream.serializable 5 (record { input = key_bytes; ends = true }) []).0
    ≢ err ForwardError.out_of_fuel
forward-ne-out_of_fuel_example =
    forward-ne-out_of_fuel InputStream.serializable InputStream.serializable-IsFaithful 5
      (record { input = key_bytes; ends = true }) [] (omega arith)

forward-send_all_err_example :
    forward InputStream.serializable 5 (record { input = key_bytes; ends = true }) []
    ≡ (err (ForwardError.recv_failed IoError.unexpected_eof), key_bytes)
forward-send_all_err_example =
    forward-send_all_err InputStream.serializable InputStream.serializable-IsFaithful (key ∷ [])
      key_bytes [] 5 IoError.unexpected_eof InputStream.end_fails ((omega arith, omega arith), tt)
      key_sent (omega arith)

abbrev data_bytes : Bytes
data_bytes = 0 ∷ 0 ∷ 0 ∷ 2 ∷ 7 ∷ 8 ∷ []

data_sent :
    send_all (DataStream.serializable 1) (record { payload = 7 ∷ 8 ∷ [] } ∷ []) [] ≡ ok data_bytes
unfolding send_all plank_kymux.Serial.send Data.write
data_sent = refl

forward-send_all_example :
    forward (DataStream.serializable 1) 7 (record { input = data_bytes; ends = true }) (9 ∷ [])
    ≡ (ok tt, (9 ∷ []) ++ data_bytes)
forward-send_all_example =
    forward-send_all (DataStream.serializable 1) (DataStream.serializable-IsFaithful 1)
      (record { payload = 7 ∷ 8 ∷ [] } ∷ []) data_bytes (9 ∷ []) 7 (DataStream.clean_end 1)
      ((omega arith, omega arith), tt) data_sent (omega arith)

-- The peer is ready first, another endpoint comes between, and then the client asks.
abbrev early_ready : List Event
early_ready =
    message (ControlMsg.ready 4)
    ∷ notifier 6
    ∷ message (ControlMsg.register_endpoint 5)
    ∷ notifier 4
    ∷ []

one_notifier : count (is_notifier 4) early_ready ≤ 1
unfolding count
one_notifier = omega arith

one_ready : count (is_ready 4) early_ready ≤ 1
unfolding count
one_ready = omega arith

fired_iff_both_example :
    fired 4 early_ready Control.new
    ≡ both (count (is_notifier 4) early_ready) (count (is_ready 4) early_ready)
fired_iff_both_example = fired_iff_both 4 early_ready one_notifier one_ready

-- Endpoint 6 is registered, its channel closed.
abbrev six_closed : ℕ → Bool
six_closed id = not (id == 6)

recv_channel_datagram-write_example :
    recv_channel_datagram (4 ∷ 5 ∷ 6 ∷ []) six_closed (write_endpoint_id 5 ++ 1 ∷ 2 ∷ []) ≡ (
      if not (member 5 (4 ∷ 5 ∷ 6 ∷ []))
      then ok Delivery.dropped
      else if six_closed 5
      then ok (Delivery.datagram 5 (write_endpoint_id 5 ++ 1 ∷ 2 ∷ []))
      else err RouterError.channel_closed)
recv_channel_datagram-write_example =
    recv_channel_datagram-write (4 ∷ 5 ∷ 6 ∷ []) six_closed 5 (1 ∷ 2 ∷ []) (omega arith)

abbrev incoming : Reader
incoming = record { input = []; ends = true }

accept_channel-write_example :
    accept_channel
      (4 ∷ 5 ∷ 6 ∷ [])
      six_closed
      (record incoming { input = write_endpoint_id 5 ++ 1 ∷ 2 ∷ [] })
    ≡ (if not (member 5 (4 ∷ 5 ∷ 6 ∷ []))
        then err RouterError.unknown_channel
        else if six_closed 5
        then ok (Delivery.stream 5 (record incoming { input = 1 ∷ 2 ∷ [] }))
        else err RouterError.channel_closed)
accept_channel-write_example =
    accept_channel-write (4 ∷ 5 ∷ 6 ∷ []) six_closed 5 (1 ∷ 2 ∷ []) incoming (omega arith)

registered_5 : register (4 ∷ []) 5 ≡ ok (5 ∷ 4 ∷ [])
unfolding register
registered_5 = refl

unregister-register_example :
    (register (5 ∷ 4 ∷ []) 5 ≡ err RouterError.endpoint_already_registered)
    × (unregister (5 ∷ 4 ∷ []) 5 ≡ ok (4 ∷ []))
unregister-register_example = unregister-register (4 ∷ []) (5 ∷ 4 ∷ []) 5 registered_5

nth_id-ne_sides_example : nth_id initiator_server 3 ≢ nth_id initiator_client 40000
nth_id-ne_sides_example = nth_id-ne_sides 3 40000

nth_id-injective_example : ◌≡◌ {A = ℕ} 40 40
nth_id-injective_example =
    nth_id-injective initiator_client 40 40 (omega arith) (omega arith) (omega arith) refl

register_endpoint-exchange_example :
    (let done = register_endpoint EndpointKind.video (exchange Control.new) (Connection.new 1) in
      let after = done.0.control_state in
      let peer' = (handle_msg (ControlMsg.register_endpoint 1) true Control.new).0 in
      (done.1 ≡ ok (record { kind = EndpointKind.video; endpoint_id = 1; notified = false }))
      × (member 1 done.0.clients ≡ true)
      × (lookup 1 after.pending_register_ack ≡ none)
      × ((handle_msg (ControlMsg.endpoint_registered 1) true after).1 ≡ err Control.unexpected_ack)
      × ((handle_msg (ControlMsg.ready 1) true after).1 ≡ ok (Control.notifies 1))
      × ((handle_msg (ControlMsg.register_endpoint 1) true peer').1
          ≡ err Control.already_registered))
register_endpoint-exchange_example =
    register_endpoint-exchange EndpointKind.video (Connection.new 1) Control.new
      (record { no_ready = refl; no_ack = refl; no_client = refl }) refl

connect_once_example :
    ((connect EndpointKind.video 2 (Connection.new 1)).1
      ≡ ok (record { kind = EndpointKind.video; endpoint_id = 2; notified = false }))
    × (connect EndpointKind.audio 2 (connect EndpointKind.video 2 (Connection.new 1)).0 ≡ (
      (connect EndpointKind.video 2 (Connection.new 1)).0,
      err (ProtocolError.control Control.already_notified),
    ))
connect_once_example =
    connect_once EndpointKind.video EndpointKind.audio 2 (Connection.new 1)
      (record { no_ready = refl; no_ack = refl; no_client = refl })

abbrev client : ClockSyncClient
client = record { endpoint_id = 4; next_id = 9 }

sync_round-serve_example :
    (serve (sync_request client 1000).0 2000 2010 >>= λ buf.
    sync_round 4 9 1000 1500 (Arrival.response buf) 1700)
    ≡ ok (Round.finished (some (record { t1 = 1000; t2 = 2000; t3 = 2010; t4 = 1700 })))
sync_round-serve_example =
    sync_round-serve client 9 1000 2000 2010 1700 1500
      (record { endpoint_lt = omega arith; next_lt = omega arith }) (omega arith) (omega arith)
      (omega arith) (omega arith)

-- An encoding of one byte and the token.
abbrev one_byte : ClientAuth → Bytes
one_byte auth = 0 ∷ auth.token

abbrev without_byte : Bytes → Option ClientAuth
without_byte [] = none
without_byte (b ∷ token) = some (record { token = token })

token_accepted : Auth.new (3 ∷ 4 ∷ []) ≡ ok (record { token = 3 ∷ 4 ∷ [] })
unfolding Auth.new
token_accepted = refl

accept_with_auth-connect_with_auth_example :
    (sent : Bytes) × (connect_with_auth one_byte without_byte (record { token = 3 ∷ 4 ∷ [] })
      ≡ ok sent)
    × ((accept_with_auth one_byte without_byte (record incoming { input = sent ++ 7 ∷ [] })).0 ≡ (
        if ltb token_max_len 3 then err AuthError.too_big else ok (record { token = 3 ∷ 4 ∷ [] })))
accept_with_auth-connect_with_auth_example =
    accept_with_auth-connect_with_auth one_byte without_byte (3 ∷ 4 ∷ []) (7 ∷ [])
      (record { token = 3 ∷ 4 ∷ [] }) incoming token_accepted refl (omega arith)
