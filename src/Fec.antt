-- ===== src/Fec.antt =====
-- kyproto/src/protocol/driver/av/fec.rs: what a receiver checks of the media that a peer sends with
-- forward error correction, before and after RaptorQ sees it. The crate raptorq is a parameter.
pub mod Decoder
pub mod Media
pub mod Validation
use plank_kymux.Common.{
  ℕ, ◌+◌, ◌-◌, ◌*◌, ◌/◌, ◌%◌, Bool, true, false, not, ◌&&◌, ◌||◌, Option, ltb, leb, ◌==◌,
  if◌then◌else◌, Result, ok, ◌>>=◌, ◌>>◌, guard, require, length, take, drop,
}
use plank_kymux.Wire.{Bytes, IoError}
use plank_kymux.Av.Packet.{serialized_size, at}

-- `ObjectTransmissionInformation` and `PayloadId` of raptorq, by their fields.
pub record Oti : Type 0 where
  pub transfer_length : ℕ
  pub symbol_size : ℕ
  pub source_blocks : ℕ
  pub sub_blocks : ℕ
  pub symbol_alignment : ℕ

pub record PayloadId : Type 0 where
  pub source_block_number : ℕ
  pub encoding_symbol_id : ℕ

-- The two block sizes that `partition` gives, and how many blocks have the larger one.
pub record Partition : Type 0 where
  pub large : ℕ
  pub small : ℕ
  pub large_blocks : ℕ

-- What the receivers call of raptorq, on decoders of type `D`.
pub record Raptorq (D : Type 0) : Type 0 where
  pub deserialize_oti : Bytes → Oti
  pub deserialize_id : Bytes → PayloadId
  pub partition : ℕ → ℕ → Partition
  pub new_decoder : Oti → D
  pub decode : D → PayloadId → Bytes → Option Bytes × D

abbrev pub max_video_payload : ℕ
max_video_payload = 64 * 1024 * 1024 + 16

abbrev pub max_audio_payload : ℕ
max_audio_payload = 64 * 1024

abbrev pub max_pending_objects : ℕ
max_pending_objects = 128

abbrev pub max_pending_groups : ℕ
max_pending_groups = 32

abbrev pub max_source_symbols : ℕ
max_source_symbols = 131_072

abbrev pub max_block_symbols : ℕ
max_block_symbols = 56_403

abbrev pub max_config_payload : ℕ
max_config_payload = 1024 * 1024

-- The reasons of `invalid`, the errors of the stream, and the one that marks a loop with too little
-- fuel.
pub data FecError : Type 0 where
  object_length zero_parameter symbol_alignment_invalid partition_exceeds_bounds : FecError
  block_outside_object symbol_length truncated_header reserved_oti budget_exceeded : FecError
  oti_changed too_many_symbols not_media media_mismatch hole_record invalid_config : FecError
  expected_config duplicate_config too_many_groups changed_group incomplete_object : FecError
  oti_changed_completed zero_frame_size audio_before_codec : FecError
  io : IoError → FecError
  out_of_fuel : FecError

abbrev pub is_out_of_fuel : FecError → Bool
is_out_of_fuel out_of_fuel = true
is_out_of_fuel _ = false

-- `u64::div_ceil`, of a divisor that is not 0.
abbrev pub div_ceil : ℕ → ℕ → ℕ
div_ceil a b = (a + (b - 1)) / b

abbrev pub source_symbols : Oti → ℕ
source_symbols oti = div_ceil oti.transfer_length oti.symbol_size

unfoldable pub validate_oti : Oti → ℕ → Result FecError (Unit {0})
validate_oti oti max_payload = do
  guard
      (leb serialized_size oti.transfer_length
        && leb oti.transfer_length (max_payload + serialized_size))
      object_length
  guard
      (not (
        oti.symbol_size == 0
        || oti.source_blocks == 0
        || oti.symbol_alignment == 0
        || oti.sub_blocks == 0))
      zero_parameter
  guard
      (oti.symbol_size % oti.symbol_alignment == 0
        && leb oti.sub_blocks (oti.symbol_size / oti.symbol_alignment))
      symbol_alignment_invalid
  guard
      (leb (source_symbols oti) max_source_symbols
        && leb oti.source_blocks (source_symbols oti)
        && leb (div_ceil (source_symbols oti) oti.source_blocks) max_block_symbols)
      partition_exceeds_bounds

unfoldable pub validate_symbol : Oti → PayloadId → ℕ → Result FecError (Unit {0})
validate_symbol oti id size = do
  guard (ltb id.source_block_number oti.source_blocks) block_outside_object
  guard (size == oti.symbol_size) symbol_length

unfoldable pub reservation : Oti → ℕ
reservation oti =
    3 * source_symbols oti * oti.symbol_size + 128 * source_symbols oti + 4096 * oti.source_blocks

abbrev pub budget : ℕ → ℕ
budget max_payload = if max_payload == max_video_payload then 256 * 1024 * 1024 else 8 * 1024 * 1024

unfoldable pub check_pending : ℕ → ℕ → ℕ → ℕ → Result FecError (Unit {0})
check_pending objects bytes additional max_payload =
    guard
      (not (
        leb max_pending_objects objects
        || ltb (budget max_payload) additional
        || ltb (budget max_payload - additional) bytes))
      budget_exceeded

-- A difference of `usize`, a slice, and `try_into().unwrap()` of a slice to an array: each may panic.
abbrev pub minus : ℕ → ℕ → Result FecError ℕ
minus a b = require (leb b a) >> ok (a - b)

abbrev pub slice : ℕ → ℕ → Bytes → Result FecError Bytes
slice from until buf =
    require (leb from until && leb until (length buf)) >> ok (take (until - from) (drop from buf))

abbrev pub slice_from : ℕ → Bytes → Result FecError Bytes
slice_from from buf = require (leb from (length buf)) >> ok (drop from buf)

abbrev pub array : ℕ → Bytes → Result FecError Bytes
array size bytes = require (length bytes == size) >> ok bytes

module _ {D : Type 0} (R : Raptorq D) where
  unfoldable pub source_symbols_for_block : Oti → ℕ → ℕ
  source_symbols_for_block oti block =
      let p = R.partition (source_symbols oti) oti.source_blocks in
      if ltb block p.large_blocks then p.large else p.small

  unfoldable pub parse_datagram : Bytes → ℕ → ℕ → Result FecError (Bytes × Oti × PayloadId)
  parse_datagram datagram header_size max_payload = do
    guard (leb header_size (length datagram)) truncated_header
    offset ← minus header_size 16
    raw_oti ← slice offset (offset + 12) datagram >>= array 12
    guard (at raw_oti 5 == 0) reserved_oti
    let oti = R.deserialize_oti raw_oti
    validate_oti oti max_payload
    raw_id ← slice (offset + 12) header_size datagram >>= array 4
    let id = R.deserialize_id raw_id
    size ← minus (length datagram) header_size
    validate_symbol oti id size
    bytes ← slice_from header_size datagram
    ok (bytes, oti, id)
