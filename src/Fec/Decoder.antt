-- ===== src/Fec/Decoder.antt =====
-- `ObjectDecoder` of fec.rs: the symbols of one object, on their way to RaptorQ.
pub mod Invariant
use plank_kymux.Common.{
  ℕ, ◌+◌, ◌*◌, Bool, false, ◌&&◌, ◌||◌, Option, none, some, List, [], ◌∷◌, ltb, ◌==◌, if◌then◌else◌,
  Result, ok, panic, ◌>>=◌, ◌>>◌, guard, length, get_elem?, set, replicate,
}
use plank_kymux.Wire.{Bytes}
use plank_kymux.Fec.{
  Oti, PayloadId, Raptorq, FecError, validate_oti, validate_symbol, source_symbols_for_block,
}

pub record ObjectDecoder (D : Type 0) : Type 0 where
  pub oti : Oti
  pub decoder : D
  pub received : List (ℕ × ℕ)
  pub per_block : List ℕ
  pub received_sources : ℕ

abbrev pub eq_oti : Oti → Oti → Bool
eq_oti a b =
    a.transfer_length == b.transfer_length
    && a.symbol_size == b.symbol_size
    && a.source_blocks == b.source_blocks
    && a.sub_blocks == b.sub_blocks
    && a.symbol_alignment == b.symbol_alignment

-- `HashSet::contains`
abbrev pub has_key : ℕ → ℕ → List (ℕ × ℕ) → Bool
has_key block esi [] = false
has_key block esi ((b, e) ∷ keys) = (b == block && e == esi) || has_key block esi keys

module _ {D : Type 0} (R : Raptorq D) where
  unfoldable pub new : Oti → ℕ → Result FecError (ObjectDecoder D)
  new oti max_payload =
      validate_oti oti max_payload
      >> ok (record {
        oti = oti;
        decoder = R.new_decoder oti;
        received = [];
        per_block = replicate oti.source_blocks 0;
        received_sources = 0;
      })

  -- The distinct symbols that a block may bring.
  abbrev pub symbol_limit : Oti → ℕ → ℕ
  symbol_limit oti block = 2 * source_symbols_for_block R oti block + 32

  -- A symbol of block `b` that has not come before; `count` of them have. Out of range is a panic.
  unfoldable pub take_symbol :
      ObjectDecoder D
      → PayloadId
      → Bytes
      → Option ℕ
      → Result FecError (Option Bytes × ObjectDecoder D)
  take_symbol d id bytes none = panic
  take_symbol d id bytes (some count) = do
    guard (ltb count (symbol_limit d.oti id.source_block_number)) FecError.too_many_symbols
    let (got, decoder) = R.decode d.decoder id bytes
    ok (
      got,
      record d {
        decoder = decoder;
        received = (id.source_block_number, id.encoding_symbol_id) ∷ d.received;
        per_block = set d.per_block id.source_block_number (count + 1);
        received_sources =
            d.received_sources
            + (if ltb id.encoding_symbol_id
                  (source_symbols_for_block R d.oti id.source_block_number)
                then 1
                else 0);
      },
    )

  unfoldable pub decode :
      ObjectDecoder D → Oti → PayloadId → Bytes → Result FecError (Option Bytes × ObjectDecoder D)
  decode d oti id bytes = do
    guard (eq_oti oti d.oti) FecError.oti_changed
    validate_symbol oti id (length bytes)
    if has_key id.source_block_number id.encoding_symbol_id d.received
        then ok (none, d)
        else take_symbol d id bytes (get_elem? d.per_block id.source_block_number)
