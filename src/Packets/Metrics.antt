-- ===== src/Packets/Metrics.antt =====
-- kymux-types/src/metrics.rs: metrics packets, a payload behind a u16 length.
pub mod Stream
use plank_kymux.Common.{
  ◌^◌, Option, none, some, ◌++◌, ltb, Result, ok, err, panic, ◌>>=◌, ◌>>◌, require, length, get_or,
}
use plank_kymux.Wire.{Bytes, be16, of_be16, IoError, unexpected_eof, Reader, read_exact}

pub record MetricsPacket : Type 0 where
  pub payload : Bytes

-- The `expect` of `u16::try_from` is a panic.
pub write : MetricsPacket → Result IoError Bytes
write p = do require (ltb (length p.payload) (2 ^ 16)); ok (be16 (length p.payload) ++ p.payload)

read_payload : Result IoError Bytes → Reader → Result IoError (Option MetricsPacket) × Reader
read_payload (ok buf) r =
    let size = of_be16 (get_or buf 0 0) (get_or buf 1 0) in
    let (got, r') = read_exact size r in
    ((got >>= λ payload. ok (some (record { payload = payload }))), r')
read_payload (err unexpected_eof) r = (ok none, r)
read_payload (err e) r = (err e, r)
read_payload panic r = (panic, r)

pub read : Reader → Result IoError (Option MetricsPacket) × Reader
unfolding read_payload
read r = let (got, r') = read_exact 2 r in read_payload got r'
