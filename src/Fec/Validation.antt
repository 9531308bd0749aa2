-- ===== src/Fec/Validation.antt =====
-- fec.rs: what the checks on the transmission information, the symbols and the budget let through.
use plank_kymux.Common.{
  ℕ, ◌+◌, ◌-◌, ◌/◌, ◌%◌, ◌≤◌, ◌<◌, ◌≡◌, refl, inl, inr, true, false, ◌&&◌, arith, leb, ◌==◌, leb→le,
  ==_iff, Bool-cases, ok, ◌>>=◌, ◌>>◌, guard, length, take, drop, length-take, length-drop, Safe,
}
use plank_kymux.Wire.{Bytes}
use plank_kymux.Av.Packet.{serialized_size, at}
use plank_kymux.Fec.{
  Oti, PayloadId, Raptorq, FecError, is_out_of_fuel, div_ceil, source_symbols, max_source_symbols,
  max_block_symbols, max_pending_objects, budget, validate_oti, validate_symbol, check_pending,
  slice, array, parse_datagram,
}

-- An error of the code, and not the mark of a loop with too little fuel.
abbrev pub IsReal : FecError → Type 0
IsReal e = is_out_of_fuel e ≡ false

-- The parameters for which RaptorQ is defined, within the bounds of a receiver.
pub record IsValidOti (oti : Oti) (max_payload : ℕ) : Type 0 where
  pub length_ge : serialized_size ≤ oti.transfer_length
  pub length_le : oti.transfer_length ≤ max_payload + serialized_size
  pub symbol_pos : 0 < oti.symbol_size
  pub blocks_pos : 0 < oti.source_blocks
  pub alignment_pos : 0 < oti.symbol_alignment
  pub sub_blocks_pos : 0 < oti.sub_blocks
  pub aligned : oti.symbol_size % oti.symbol_alignment ≡ 0
  pub sub_blocks_le : oti.sub_blocks ≤ oti.symbol_size / oti.symbol_alignment
  pub symbols_le : source_symbols oti ≤ max_source_symbols
  pub blocks_le : oti.source_blocks ≤ source_symbols oti
  pub block_symbols_le : div_ceil (source_symbols oti) oti.source_blocks ≤ max_block_symbols

pub validate_oti-IsValidOti :
    (oti : Oti) (max_payload : ℕ)
    → Safe IsReal (λ u. IsValidOti oti max_payload) (validate_oti oti max_payload)
unfolding validate_oti
validate_oti-IsValidOti oti m = ground arith

pub validate_symbol_lem :
    (oti : Oti) (id : PayloadId) (size : ℕ)
    → Safe IsReal
        (λ u. (id.source_block_number < oti.source_blocks) × (size ≡ oti.symbol_size))
        (validate_symbol oti id size)
unfolding validate_symbol
validate_symbol_lem oti id size = ground arith

-- What `check_pending` admits is within the budget, with one object more.
pub check_pending_lem :
    (objects bytes additional max_payload : ℕ)
    → Safe IsReal
        (λ u. (objects < max_pending_objects) × (bytes + additional ≤ budget max_payload))
        (check_pending objects bytes additional max_payload)
unfolding check_pending
check_pending_lem objects bytes additional m = ground arith

array-slice :
    (from until size : ℕ) (buf : Bytes)
    → from + size ≡ until
    → until ≤ length buf
    → (slice from until buf >>= array size) ≡ ok (take size (drop from buf))
array-slice from until size buf e h =
    let inside : (leb from until && leb until (length buf)) ≡ true = ground (arith, e, h) in
    let same : until - from ≡ size = omega (arith, e) in
    let whole : (length (take size (drop from buf)) == size) ≡ true =
      (==_iff _ _).1
        (omega (arith, length-take size (drop from buf), length-drop from buf, e, h)) in
    rw (inside, same, whole)

module _ {D : Type 0} (R : Raptorq D) where
  -- With the length checked, and a header that holds the 16 bytes, each slice is in range.
  pub parse_datagram-slices :
      (datagram : Bytes) (header_size max_payload : ℕ)
      → 16 ≤ header_size
      → leb header_size (length datagram) ≡ true
      → (let raw = take 12 (drop (header_size - 16) datagram) in
          let oti = R.deserialize_oti raw in
          let id = R.deserialize_id (take 4 (drop (header_size - 16 + 12) datagram)) in
          parse_datagram R datagram header_size max_payload ≡ (do
            guard (at raw 5 == 0) FecError.reserved_oti
            validate_oti oti max_payload
            validate_symbol oti id (length datagram - header_size)
            ok (drop header_size datagram, oti, id)))
  unfolding parse_datagram
  parse_datagram-slices datagram header_size m h enough =
      let offset = header_size - 16 in
      let le : header_size ≤ length datagram = leb→le _ _ enough in
      let wide : leb 16 header_size ≡ true = ground arith in
      let first = array-slice offset (offset + 12) 12 datagram refl (omega arith) in
      let second = array-slice (offset + 12) header_size 4 datagram (omega arith) le in
      rw (wide, first, second, enough)

  -- Whatever a peer sends, on a lane whose header has 16 bytes or more, no datagram panics, and one
  -- that is accepted carries parameters for which RaptorQ is defined, a block of the object, and a
  -- whole symbol.
  pub parse_datagram_lem :
      (datagram : Bytes) (header_size max_payload : ℕ)
      → 16 ≤ header_size
      → Safe IsReal
          (λ q.
            IsValidOti q.1 max_payload
            × (q.2.source_block_number < q.1.source_blocks)
            × (length q.0 ≡ q.1.symbol_size))
          (parse_datagram R datagram header_size max_payload)
  unfolding parse_datagram
  parse_datagram_lem datagram header_size m h =
      let raw = take 12 (drop (header_size - 16) datagram) in
      let oti = R.deserialize_oti raw in
      let id = R.deserialize_id (take 4 (drop (header_size - 16 + 12) datagram)) in
      elim (Bool-cases (leb header_size (length datagram))) [
        | inl enough ↦ rw (parse_datagram-slices datagram header_size m h enough) (
            ground (
              arith,
              validate_oti-IsValidOti oti m,
              validate_symbol_lem oti id (length datagram - header_size),
              length-drop header_size datagram,
            ))
        | inr short ↦ rw short refl
      ]
