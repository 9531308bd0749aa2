-- ===== src/Packets/Data/Stream.antt =====
-- data.rs: `write` and `read` of a data packet on a stream, against the transport's cuts of the prefix.
use plank_kymux.Common.{
  ℕ, zero, suc, ◌+◌, ◌-◌, ◌≤◌, ◌<◌, min, max, ◌≡◌, refl, ap, ◌∙◌, Bool, true, false, none, some, [],
  ◌∷◌, ◌++◌, arith, Result, ok, err, panic, ◌>>=◌, >>=-eq-ok, length, get_or, take, drop,
  length-take, length-drop,
}
use plank_kymux.Wire.{
  Bytes, be32, of_be32, IoError, unexpected_eof, invalid_input, Reader, read_exact,
}
use plank_kymux.Wire.Ints.{of_be32_lem, read_exact-append, read_exact_shrinks}
use plank_kymux.Serial.{Serializable, IsFaithful}
use plank_kymux.Packets.Data.{
  max_data_packet_size, DataPacket, in_bounds, write, read_some, read_payload, read_prefix, read,
}

abbrev pub IsInRange : DataPacket → Type 0
IsInRange p = (1 ≤ length p.payload) × (length p.payload ≤ max_data_packet_size)

write_lem : (p : DataPacket) → IsInRange p → write p ≡ ok (be32 (length p.payload) ++ p.payload)
unfolding write
write_lem p v = ground arith

-- `write` refuses every other packet.
write_refuses : (p : DataPacket) → ¬ IsInRange p → write p ≡ err invalid_input
unfolding write
write_refuses p v = ground (arith, v)

in_bounds_lem : (n : ℕ) → (1 ≤ n) × (n ≤ max_data_packet_size) → in_bounds n ≡ true
in_bounds_lem n h = ground arith

-- On an input of four bytes and more the prefix is those four, wherever the first `read` stops.
module _ (a b c d : ℕ) (rest : Bytes) (ends : Bool) where
  abbrev behind : Reader
  behind = record { input = rest; ends = ends }

  prefix_cut :
      (k : ℕ)
      → 1 ≤ k
      → k ≤ 4
      → read_prefix
          (ok (take k (a ∷ b ∷ c ∷ d ∷ rest)))
          (record { input = drop k (a ∷ b ∷ c ∷ d ∷ rest); ends = ends })
        ≡ read_payload (ok (a ∷ b ∷ c ∷ d ∷ [])) behind
  unfolding read_prefix
  prefix_cut zero lo hi = absurd (omega arith)
  prefix_cut (suc zero) lo hi = rw (read_exact-append (b ∷ c ∷ d ∷ []) rest behind)
  prefix_cut (suc (suc zero)) lo hi = rw (read_exact-append (c ∷ d ∷ []) rest behind)
  prefix_cut (suc (suc (suc zero))) lo hi = rw (read_exact-append (d ∷ []) rest behind)
  prefix_cut (suc (suc (suc (suc zero)))) lo hi = rw (read_exact-append [] rest behind)
  prefix_cut (suc (suc (suc (suc (suc k))))) lo hi = absurd (omega arith)

  prefix_whole :
      (got : ℕ)
      → read got (record { input = a ∷ b ∷ c ∷ d ∷ rest; ends = ends })
        ≡ read_payload (ok (a ∷ b ∷ c ∷ d ∷ [])) behind
  unfolding read read_some
  prefix_whole got =
      prefix_cut (min (max 1 got) (min 4 (length (a ∷ b ∷ c ∷ d ∷ rest)))) (omega arith)
        (omega arith)

read_payload_lem :
    (p : DataPacket) (rest : Bytes) (ends : Bool)
    → IsInRange p
    → read_payload
        (ok (be32 (length p.payload)))
        (record { input = p.payload ++ rest; ends = ends })
      ≡ (ok (some p), record { input = rest; ends = ends })
unfolding read_payload
read_payload_lem p rest ends v = rw (
  of_be32_lem (length p.payload) (omega arith),
  in_bounds_lem (length p.payload) v,
  read_exact-append p.payload rest (record { input = rest; ends = ends }),
)

-- Every packet in range is read back, whatever the first `read` returns of the prefix.
pub read-write :
    (got : ℕ) (p : DataPacket)
    → IsInRange p
    → (bs : Bytes) × (write p ≡ ok bs)
      × ((rest : Bytes) (ends : Bool)
          → read got (record { input = bs ++ rest; ends = ends })
            ≡ (ok (some p), record { input = rest; ends = ends }))
read-write got p v = (
  be32 (length p.payload) ++ p.payload,
  write_lem p v,
  λ rest ends. prefix_whole _ _ _ _ (p.payload ++ rest) ends got ∙ read_payload_lem p rest ends v,
)

-- What a successful `read` implies: the packet is in range, and its prefix and payload are taken.
read_payload-some :
    (got : Result IoError Bytes) (r r' : Reader) (p : DataPacket)
    → read_payload got r ≡ (ok (some p), r')
    → IsInRange p × (length r'.input + length p.payload ≡ length r.input)
unfolding read_payload read_exact
read_payload-some (ok buf) r r' p e =
    let size = of_be32 (get_or buf 0 0) (get_or buf 1 0) (get_or buf 2 0) (get_or buf 3 0) in
    ground (arith, length-take size r.input, length-drop size r.input)
read_payload-some (err x) r r' p e = cc
read_payload-some panic r r' p e = cc

read_payload_ok :
    (m : Result IoError Bytes) (r r' : Reader) (p : DataPacket)
    → read_payload m r ≡ (ok (some p), r')
    → (bs : Bytes) × (m ≡ ok bs)
unfolding read_payload
read_payload_ok (ok bs) r r' p e = (bs, refl)
read_payload_ok (err x) r r' p e = cc
read_payload_ok panic r r' p e = cc

read_prefix-some :
    (front : Bytes) (r r' : Reader) (p : DataPacket)
    → length front ≤ 4
    → read_prefix (ok front) r ≡ (ok (some p), r')
    → IsInRange p × (length r'.input + length p.payload + 4 ≡ length r.input + length front)
unfolding read_prefix
read_prefix-some [] r r' p h e = cc
read_prefix-some (b ∷ bs) r r' p h e =
    let n = 4 - length (b ∷ bs) in
    let m : Result IoError Bytes = (read_exact n r).0 >>= λ back. ok ((b ∷ bs) ++ back) in
    let (whole, w) = read_payload_ok m (read_exact n r).1 r' p e in
    let (back, got, _) = >>=-eq-ok (read_exact n r).0 (λ back. ok ((b ∷ bs) ++ back)) w in
    let (range, lengths) = read_payload-some m (read_exact n r).1 r' p e in
    (
      range,
      omega (
        arith,
        lengths,
        read_exact_shrinks n r (read_exact n r).1 back (ap (λ q. (q, (read_exact n r).1)) got),
      ),
    )

-- Whatever bytes arrive, a packet that is read is in range, and has used up its prefix and its
-- payload: nothing is read of a packet that declares another size.
pub read_some_lem :
    (got : ℕ) (bytes : Bytes) (ends : Bool) (r' : Reader) (p : DataPacket)
    → read got (record { input = bytes; ends = ends }) ≡ (ok (some p), r')
    → IsInRange p × (length r'.input + length p.payload + 4 ≡ length bytes)
unfolding read read_some
read_some_lem got [] true r' p e = unfold read_prefix in cc
read_some_lem got [] false r' p e = unfold read_prefix in cc
read_some_lem got (b ∷ bs) ends r' p e =
    let k = min (max 1 got) (min 4 (length (b ∷ bs))) in
    let (range, lengths) =
      read_prefix-some (take k (b ∷ bs)) _ r' p (omega (arith, length-take k (b ∷ bs))) e in
    (range, omega (arith, lengths, length-take k (b ∷ bs), length-drop k (b ∷ bs)))

-- One choice of the transport for all packets.
abbrev pub serializable : ℕ → Serializable DataPacket
serializable got = record { write = write; read = read got }

pub serializable-IsFaithful : (got : ℕ) → IsFaithful (serializable got) IsInRange
serializable-IsFaithful got = record {
  read-write = read-write got;
  progress = λ r r' p e. omega (arith, (read_some_lem got r.input r.ends r' p e).1);
}

-- The end of the stream between two packets is a clean end.
pub clean_end : (got : ℕ) → (read got (record { input = []; ends = true })).0 ≡ ok none
unfolding read read_some read_prefix
clean_end got = refl

read_prefix_short :
    (front back : Bytes)
    → 0 < length front
    → length front + length back < 4
    → (read_prefix (ok front) (record { input = back; ends = true })).0 ≡ err unexpected_eof
unfolding read_prefix read_payload read_exact
read_prefix_short [] back h l = absurd (omega arith)
read_prefix_short (b ∷ bs) back h l = ground arith

-- The end of the stream inside a prefix is an error, never a clean end.
pub cut_prefix :
    (got : ℕ) (b : ℕ) (bs : Bytes)
    → length bs < 3
    → (read got (record { input = b ∷ bs; ends = true })).0 ≡ err unexpected_eof
unfolding read read_some
cut_prefix got b bs h =
    let k = min (max 1 got) (min 4 (length (b ∷ bs))) in
    read_prefix_short (take k (b ∷ bs)) (drop k (b ∷ bs)) (omega (arith, length-take k (b ∷ bs)))
      (omega (arith, length-take k (b ∷ bs), length-drop k (b ∷ bs)))
