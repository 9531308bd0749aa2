-- ===== src/Wire.antt =====
-- Bytes on the wire: the big-endian integers of `BigEndian`, `Buf` and `BufMut`, and a reader with
-- the `read_exact` that the `Serializable` types of kymux-types/src share.
pub mod Ints
use plank_kymux.Common.{
  ℕ, ◌+◌, ◌*◌, ◌/◌, ◌%◌, ◌^◌, ◌<◌, Bool, List, [], ◌∷◌, ◌++◌, leb, if◌then◌else◌, Result, ok, err,
  length, take, drop,
}

-- A byte string. Each element is meant to be below 256.
abbrev pub Bytes : Type 0
Bytes = List ℕ

abbrev pub IsByte : ℕ → Type 0
IsByte b = b < 256

abbrev pub byte : ℕ → ℕ → ℕ
byte k n = n / 256 ^ k % 256

-- `write_u16`, `write_u32` and `write_u64`, most significant byte first.
abbrev pub be16 : ℕ → Bytes
be16 n = byte 1 n ∷ byte 0 n ∷ []

abbrev pub be32 : ℕ → Bytes
be32 n = byte 3 n ∷ byte 2 n ∷ byte 1 n ∷ byte 0 n ∷ []

abbrev pub be64 : ℕ → Bytes
be64 n = be32 (n / 2 ^ 32) ++ be32 (n % 2 ^ 32)

-- `read_u16` and `read_u32` of the bytes in this order.
abbrev pub of_be16 : ℕ → ℕ → ℕ
of_be16 a b = a * 0x100 + b

abbrev pub of_be32 : ℕ → ℕ → ℕ → ℕ → ℕ
of_be32 a b c d = a * 0x100_0000 + b * 0x1_0000 + c * 0x100 + d

-- `io::Error`, as far as the readers look at it, and the errors that they make themselves.
pub data IoError : Type 0 where
  unexpected_eof invalid_input invalid_data broken : IoError

-- A reader: the bytes that will still arrive, and whether the stream then ends (`true`) or fails.
pub record Reader : Type 0 where
  pub input : Bytes
  pub ends : Bool

abbrev pub read_failure : Reader → IoError
read_failure r = if r.ends then unexpected_eof else broken

-- `read_exact` of a buffer of `n` bytes. Where the bytes run out they are used up.
unfoldable pub read_exact : ℕ → Reader → Result IoError Bytes × Reader
read_exact n r =
    if leb n (length r.input)
    then (ok (take n r.input), record r { input = drop n r.input })
    else (err (read_failure r), record r { input = [] })
