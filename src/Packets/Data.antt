-- ===== src/Packets/Data.antt =====
-- kymux-types/src/data.rs: data packets, at most `MAX_DATA_PACKET_SIZE` bytes behind a u32 length.
pub mod Stream
use plank_kymux.Common.{
  ℕ, ◌-◌, ◌*◌, min, max, Bool, ◌&&◌, Option, none, some, [], ◌∷◌, ◌++◌, leb, if◌then◌else◌, Result,
  ok, err, panic, ◌>>=◌, ◌>>◌, guard, length, get_or, take, drop,
}
use plank_kymux.Wire.{
  Bytes, be32, of_be32, IoError, invalid_input, invalid_data, Reader, read_exact, read_failure,
}

abbrev pub max_data_packet_size : ℕ
max_data_packet_size = 1024 * 1024

pub record DataPacket : Type 0 where
  pub payload : Bytes

-- `(1..=MAX_DATA_PACKET_SIZE).contains(&n)`
abbrev in_bounds : ℕ → Bool
in_bounds n = leb 1 n && leb n max_data_packet_size

unfoldable pub write : DataPacket → Result IoError Bytes
write p = do
  guard (in_bounds (length p.payload)) invalid_input
  ok (be32 (length p.payload) ++ p.payload)

-- `reader.read(&mut buf)`: of the bytes that are there it takes between 1 and `n`, as the transport
-- likes; `got` is that choice. At the end of the stream it takes none.
unfoldable pub read_some : ℕ → ℕ → Reader → Result IoError Bytes × Reader
read_some got n r = elim r.input [
  | [] ↦ (if r.ends then ok [] else err (read_failure r), r)
  | b ∷ bs ↦
      (let k = min (max 1 got) (min n (length (b ∷ bs))) in
        (ok (take k (b ∷ bs)), record r { input = drop k (b ∷ bs) }))
]

unfoldable pub read_payload :
    Result IoError Bytes → Reader → Result IoError (Option DataPacket) × Reader
read_payload (ok buf) r =
    let size = of_be32 (get_or buf 0 0) (get_or buf 1 0) (get_or buf 2 0) (get_or buf 3 0) in
    if in_bounds size
    then (let (got, r') = read_exact size r in
        ((got >>= λ payload. ok (some (record { payload = payload }))), r'))
    else (err invalid_data, r)
read_payload (err e) r = (err e, r)
read_payload panic r = (panic, r)

-- The rest of the length prefix, after the first `read` gave `front`.
unfoldable pub read_prefix :
    Result IoError Bytes → Reader → Result IoError (Option DataPacket) × Reader
unfolding read_payload
read_prefix (ok []) r = (ok none, r)
read_prefix (ok front) r =
    let (got, r') = read_exact (4 - length front) r in
    read_payload (got >>= λ back. ok (front ++ back)) r'
read_prefix (err e) r = (err e, r)
read_prefix panic r = (panic, r)

unfoldable pub read : ℕ → Reader → Result IoError (Option DataPacket) × Reader
unfolding read_some read_prefix
read got r = let (front, r') = read_some got 4 r in read_prefix front r'
