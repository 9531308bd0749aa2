-- ===== src/Packets/Metrics/Stream.antt =====
-- metrics.rs: `write` and `read` of a metrics packet on a stream.
use plank_kymux.Common.{
  ◌^◌, ◌≤◌, ◌<◌, ◌≡◌, refl, ap, Bool, true, none, some, [], ◌++◌, arith, Result, ok, err, panic,
  length, get_or,
}
use plank_kymux.Wire.{
  Bytes, be16, of_be16, IoError, unexpected_eof, invalid_input, invalid_data, broken, Reader,
  read_exact,
}
use plank_kymux.Wire.Ints.{of_be16_lem, read_exact-append, read_exact_shrinks, read_exact_le}
use plank_kymux.Serial.{Serializable, IsFaithful}
use plank_kymux.Packets.Metrics.{MetricsPacket, write, read_payload, read}

abbrev pub IsInRange : MetricsPacket → Type 0
IsInRange p = length p.payload < 2 ^ 16

write_lem : (p : MetricsPacket) → IsInRange p → write p ≡ ok (be16 (length p.payload) ++ p.payload)
unfolding write
write_lem p v = ground arith

read_back :
    (p : MetricsPacket)
    → IsInRange p
    → (rest : Bytes) (ends : Bool)
    → read (record { input = be16 (length p.payload) ++ p.payload ++ rest; ends = ends })
      ≡ (ok (some p), record { input = rest; ends = ends })
unfolding read
read_back p v rest ends = rw (
  read_exact-append (be16 (length p.payload)) (p.payload ++ rest)
      (record { input = rest; ends = ends }),
  read_payload,
  of_be16_lem (length p.payload) v,
  read_exact-append p.payload rest (record { input = rest; ends = ends }),
)

pub read-write :
    (p : MetricsPacket)
    → IsInRange p
    → (bs : Bytes) × (write p ≡ ok bs)
      × ((rest : Bytes) (ends : Bool)
          → read (record { input = bs ++ rest; ends = ends })
            ≡ (ok (some p), record { input = rest; ends = ends }))
read-write p v = (be16 (length p.payload) ++ p.payload, write_lem p v, read_back p v)

read_payload-some :
    (got : Result IoError Bytes) (r r' : Reader) (p : MetricsPacket)
    → read_payload got r ≡ (ok (some p), r')
    → (bs : Bytes) × (got ≡ ok bs) × (length r'.input ≤ length r.input)
unfolding read_payload
read_payload-some (ok bs) r r' p e =
    (bs, refl, rw (ap (λ q. q.1) e) at (read_exact_le (of_be16 (get_or bs 0 0) (get_or bs 1 0)) r))
read_payload-some (err unexpected_eof) r r' p e = cc
read_payload-some (err invalid_input) r r' p e = cc
read_payload-some (err invalid_data) r r' p e = cc
read_payload-some (err broken) r r' p e = cc
read_payload-some panic r r' p e = cc

read_progress :
    (r r' : Reader) (p : MetricsPacket)
    → read r ≡ (ok (some p), r')
    → length r'.input < length r.input
unfolding read
read_progress r r' p e =
    let (bs, got, le) = read_payload-some _ _ r' p e in
    omega (
      arith,
      le,
      read_exact_shrinks 2 r (read_exact 2 r).1 bs (ap (λ q. (q, (read_exact 2 r).1)) got),
    )

abbrev pub serializable : Serializable MetricsPacket
serializable = record { write = write; read = read }

pub serializable-IsFaithful : IsFaithful serializable IsInRange
serializable-IsFaithful = record { read-write = read-write; progress = read_progress }

-- The end of the stream between two packets is a clean end.
pub clean_end : (read (record { input = []; ends = true })).0 ≡ ok none
unfolding read read_payload read_exact
clean_end = refl
