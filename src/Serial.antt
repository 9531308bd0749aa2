-- ===== src/Serial.antt =====
-- kymux-types/src/serial.rs, ipc.rs and `forward` of lib.rs: packets over a byte stream, whatever
-- their kind.
pub mod Forward
use plank_kymux.Common.{
  ℕ, zero, suc, ◌<◌, ◌≡◌, Bool, Option, none, some, List, [], ◌∷◌, ◌++◌, Result, ok, err, panic,
  ◌>>=◌, map_err, length,
}
use plank_kymux.Wire.{Bytes, IoError, Reader}

-- The trait `Serializable`: what `write` hands to the writer, and what `read` takes from the reader.
pub record Serializable (A : Type 0) : Type 0 where
  pub write : A → Result IoError Bytes
  pub read : Reader → Result IoError (Option A) × Reader

-- What a kind of packet owes: a packet in range is read back, whatever follows it; each packet
-- read uses up a byte at least.
pub record IsFaithful {A : Type 0} (s : Serializable A) (InRange : A → Type 0) : Type 0 where
  pub read-write :
      (a : A)
      → InRange a
      → (bs : Bytes) × (s.write a ≡ ok bs)
        × ((rest : Bytes) (ends : Bool)
            → s.read (record { input = bs ++ rest; ends = ends })
              ≡ (ok (some a), record { input = rest; ends = ends }))
  pub progress :
      (r r' : Reader) (a : A) → s.read r ≡ (ok (some a), r') → length r'.input < length r.input

-- `ProtocolError`, from either end, and the one that marks a loop with too little fuel.
pub data ForwardError : Type 0 where
  recv_failed send_failed : IoError → ForwardError
  out_of_fuel : ForwardError

module _ {A : Type 0} (s : Serializable A) where
  -- `IpcSend::send` and `driver::write_packet`: append to what was written. The writer takes
  -- everything, and its flush succeeds.
  unfoldable pub send : A → Bytes → Result ForwardError Bytes
  send a out = map_err send_failed (s.write a) >>= λ bs. ok (out ++ bs)

  -- `IpcRecv::recv` and `driver::read_packet`.
  unfoldable pub recv : Reader → Result ForwardError (Option A) × Reader
  recv r = let (got, r') = s.read r in (map_err recv_failed got, r')

  -- A packet that cannot be sent ends the loop, and what was sent before stays.
  abbrev pub and_then :
      Result ForwardError Bytes
      → Bytes
      → (Bytes → Result ForwardError (Unit {0}) × Bytes)
      → Result ForwardError (Unit {0}) × Bytes
  and_then (ok out') out next = next out'
  and_then (err e) out next = (err e, out)
  and_then panic out next = (panic, out)

  -- `while let Some(packet) = recv.recv().await? { send.send(packet).await?; }`
  -- with what has been sent by the end, errors included.
  unfoldable pub forward : ℕ → Reader → Bytes → Result ForwardError (Unit {0}) × Bytes
  unfolding recv
  forward zero r out = (err out_of_fuel, out)
  forward (suc fuel) r out = elim (recv r).0 [
    | ok none ↦ (ok tt, out)
    | ok (some a) ↦ and_then (send a out) out (forward fuel (recv r).1)
    | err e ↦ (err e, out)
    | panic ↦ (panic, out)
  ]

  -- The bytes of a list of packets, sent one after the other.
  unfoldable pub send_all : List A → Bytes → Result ForwardError Bytes
  send_all [] out = ok out
  send_all (a ∷ rest) out = send a out >>= send_all rest
