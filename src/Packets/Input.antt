-- ===== src/Packets/Input.antt =====
-- kymux-types/src/input.rs: input packets, a type byte and a payload behind a u16 length.
pub mod Stream
use plank_kymux.Common.{
  ℕ, ◌^◌, Option, none, some, [], ◌∷◌, ◌++◌, ltb, Result, ok, err, panic, ◌>>=◌, ◌>>◌, require,
  length, get_or,
}
use plank_kymux.Wire.{Bytes, be16, of_be16, IoError, unexpected_eof, Reader, read_exact}

pub record InputPacket : Type 0 where
  pub type_ : ℕ
  pub payload : Bytes

-- The `expect` of `u16::try_from` is a panic.
unfoldable pub write : InputPacket → Result IoError Bytes
write p = do
  require (ltb (length p.payload) (2 ^ 16))
  ok ((p.type_ ∷ []) ++ be16 (length p.payload) ++ p.payload)

unfoldable pub read_payload :
    ℕ → Result IoError Bytes → Reader → Result IoError (Option InputPacket) × Reader
read_payload t (ok buf) r =
    let size = of_be16 (get_or buf 0 0) (get_or buf 1 0) in
    let (got, r') = read_exact size r in
    ((got >>= λ payload. ok (some (record { type_ = t; payload = payload }))), r')
read_payload t (err unexpected_eof) r = (ok none, r)
read_payload t (err e) r = (err e, r)
read_payload t panic r = (panic, r)

-- `read_u8().await?`: an end of the stream is an error here.
unfoldable pub read_size :
    Result IoError Bytes → Reader → Result IoError (Option InputPacket) × Reader
unfolding read_payload
read_size (ok buf) r = let (got, r') = read_exact 2 r in read_payload (get_or buf 0 0) got r'
read_size (err e) r = (err e, r)
read_size panic r = (panic, r)

unfoldable pub read : Reader → Result IoError (Option InputPacket) × Reader
unfolding read_size
read r = let (got, r') = read_exact 1 r in read_size got r'
