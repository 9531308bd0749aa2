-- ===== src/Router.antt =====
-- router.rs of kyproto: the endpoints that are registered, and where what arrives goes.
pub mod Routing
use plank_kymux.Common.{
  ℕ, Bool, List, [], ◌∷◌, leb, ◌==◌, if◌then◌else◌, Result, ok, err, panic, ◌>>=◌, ◌>>◌, guard,
  require, length, get_or, member,
}
use plank_kymux.Wire.{Bytes, be16, of_be16, Reader, read_exact, IoError}

-- The keys of `ClientMap`. A client is its three channels, which its key names.
abbrev pub ClientMap : Type 0
ClientMap = List ℕ

pub data RouterError : Type 0 where
  endpoint_already_registered unknown_channel channel_closed : RouterError

-- A unidirectional stream is handed over as a bidirectional one is: with what is left to read.
pub data Delivery : Type 0 where
  stream : ℕ → Reader → Delivery
  datagram : ℕ → Bytes → Delivery
  dropped : Delivery

-- `Router::register`
unfoldable pub register : ClientMap → ℕ → Result RouterError ClientMap
register clients id =
    if member id clients then err endpoint_already_registered else ok (id ∷ clients)

abbrev pub without : ℕ → ClientMap → ClientMap
without id [] = []
without id (i ∷ is) = let rest = without id is in if i == id then rest else i ∷ rest

-- The drop of `KyChannelDropper`: `panic` is the assertion that the endpoint was registered.
unfoldable pub unregister : ClientMap → ℕ → Result RouterError ClientMap
unregister clients id = require (member id clients) >> ok (without id clients)

-- `Router::write_endpoint_id` and `write_datagram_header_`
abbrev pub write_endpoint_id : ℕ → Bytes
write_endpoint_id = be16

abbrev pub id_of : Bytes → ℕ
id_of buf = of_be16 (get_or buf 0 0) (get_or buf 1 0)

unfoldable pub read_endpoint_id : Reader → Result IoError ℕ × Reader
read_endpoint_id r = let (got, rest) = read_exact 2 r in (got >>= λ buf. ok (id_of buf), rest)

-- `tx.send`, which fails once the channel of the client is dropped.
abbrev pub hand_over : (ℕ → Bool) → ℕ → Delivery → Result RouterError Delivery
hand_over is_open id d = guard (is_open id) channel_closed >> ok d

-- What a round does with the id that it read, or failed to read.
abbrev pub route : ClientMap → (ℕ → Bool) → Result IoError ℕ × Reader → Result RouterError Delivery
route clients is_open (ok id, rest) =
    if member id clients
    then hand_over is_open id (Delivery.stream id rest)
    else err unknown_channel
route clients is_open (err _, rest) = ok dropped
route clients is_open (panic, rest) = panic

-- One round of `accept_channels_uni` and of `accept_channels_bi`.
unfoldable pub accept_channel : ClientMap → (ℕ → Bool) → Reader → Result RouterError Delivery
accept_channel clients is_open r = route clients is_open (read_endpoint_id r)

-- One round of `recv_channels_datagrams`.
unfoldable pub recv_channel_datagram : ClientMap → (ℕ → Bool) → Bytes → Result RouterError Delivery
recv_channel_datagram clients is_open buf =
    if leb 2 (length buf)
    then (if member (id_of buf) clients
        then hand_over is_open (id_of buf) (Delivery.datagram (id_of buf) buf)
        else ok dropped)
    else ok dropped
