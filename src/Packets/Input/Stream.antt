-- ===== src/Packets/Input/Stream.antt =====
-- input.rs: `write` and `read` of an input packet on a stream.
use plank_kymux.Common.{
  ℕ, ◌^◌, ◌≤◌, ◌<◌, ◌≡◌, refl, ap, Bool, true, some, [], ◌∷◌, ◌++◌, arith, Result, ok, err, panic,
  length, get_or,
}
use plank_kymux.Wire.{
  Bytes, be16, of_be16, IoError, unexpected_eof, invalid_input, invalid_data, broken, Reader,
  read_exact,
}
use plank_kymux.Wire.Ints.{of_be16_lem, read_exact-append, read_exact_shrinks, read_exact_le}
use plank_kymux.Serial.{Serializable, IsFaithful}
use plank_kymux.Packets.Input.{InputPacket, write, read_payload, read_size, read}

abbrev pub IsInRange : InputPacket → Type 0
IsInRange p = (p.type_ < 2 ^ 8) × (length p.payload < 2 ^ 16)

write_lem :
    (p : InputPacket)
    → IsInRange p
    → write p ≡ ok ((p.type_ ∷ []) ++ be16 (length p.payload) ++ p.payload)
unfolding write
write_lem p v = ground arith

read_back :
    (p : InputPacket)
    → IsInRange p
    → (rest : Bytes) (ends : Bool)
    → read (record {
      input = (p.type_ ∷ []) ++ be16 (length p.payload) ++ p.payload ++ rest;
      ends = ends;
    })
      ≡ (ok (some p), record { input = rest; ends = ends })
unfolding read
read_back p v rest ends =
    let tail : Reader = record { input = rest; ends = ends } in
    rw (
      read_exact-append (p.type_ ∷ []) (be16 (length p.payload) ++ p.payload ++ rest) tail,
      read_size,
      read_exact-append (be16 (length p.payload)) (p.payload ++ rest) tail,
      read_payload,
      of_be16_lem (length p.payload) v.1,
      read_exact-append p.payload rest tail,
    )

pub read-write :
    (p : InputPacket)
    → IsInRange p
    → (bs : Bytes) × (write p ≡ ok bs)
      × ((rest : Bytes) (ends : Bool)
          → read (record { input = bs ++ rest; ends = ends })
            ≡ (ok (some p), record { input = rest; ends = ends }))
read-write p v =
    ((p.type_ ∷ []) ++ be16 (length p.payload) ++ p.payload, write_lem p v, read_back p v)

read_payload_le :
    (t : ℕ) (got : Result IoError Bytes) (r : Reader)
    → length (read_payload t got r).1.input ≤ length r.input
unfolding read_payload
read_payload_le t (ok bs) r = read_exact_le (of_be16 (get_or bs 0 0) (get_or bs 1 0)) r
read_payload_le t (err unexpected_eof) r = omega arith
read_payload_le t (err invalid_input) r = omega arith
read_payload_le t (err invalid_data) r = omega arith
read_payload_le t (err broken) r = omega arith
read_payload_le t panic r = omega arith

read_size-some :
    (got : Result IoError Bytes) (r r' : Reader) (p : InputPacket)
    → read_size got r ≡ (ok (some p), r')
    → (bs : Bytes) × (got ≡ ok bs) × (length r'.input ≤ length r.input)
unfolding read_size
read_size-some (ok bs) r r' p e =
    let le = read_payload_le (get_or bs 0 0) (read_exact 2 r).0 (read_exact 2 r).1 in
    (bs, refl, omega (arith, rw (ap (λ q. q.1) e) at le, read_exact_le 2 r))
read_size-some (err x) r r' p e = cc
read_size-some panic r r' p e = cc

read_progress :
    (r r' : Reader) (p : InputPacket)
    → read r ≡ (ok (some p), r')
    → length r'.input < length r.input
unfolding read
read_progress r r' p e =
    let (bs, got, le) = read_size-some _ _ r' p e in
    omega (
      arith,
      le,
      read_exact_shrinks 1 r (read_exact 1 r).1 bs (ap (λ q. (q, (read_exact 1 r).1)) got),
    )

abbrev pub serializable : Serializable InputPacket
serializable = record { write = write; read = read }

pub serializable-IsFaithful : IsFaithful serializable IsInRange
serializable-IsFaithful = record { read-write = read-write; progress = read_progress }

-- The end of the stream between two packets is an error.
pub end_fails : (read (record { input = []; ends = true })).0 ≡ err unexpected_eof
unfolding read read_size read_exact
end_fails = refl
