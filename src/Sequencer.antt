-- ===== src/Sequencer.antt =====
-- kyproto/src/protocol/driver/util/seq.rs: the Sequencer, for u8, u16 and u32 values.
pub mod Unroll
mod Tests
use plank_kymux.Common.{ℕ, ◌+◌, ◌-◌, ◌*◌, ◌/◌, ◌&&◌, ltb, leb, if◌then◌else◌}

-- `SIZE_BITS` is 8, 16 or 32: the instances of the macro.
pub data Width : Type 0 where
  w8 w16 w32 : Width

abbrev pub size_bits : Width → ℕ
size_bits w8 = 8
size_bits w16 = 16
size_bits w32 = 32

-- `RANGE` and `HALF_RANGE`.
abbrev pub range : Width → ℕ
range w8 = 0x100
range w16 = 0x1_0000
range w32 = 0x1_0000_0000

abbrev pub half_range : Width → ℕ
half_range w8 = 0x80
half_range w16 = 0x8000
half_range w32 = 0x8000_0000

pub record Sequencer : Type 0 where
  pub newest_seq : ℕ

unfoldable pub new : Sequencer
new = record { newest_seq = 0 }

-- `self.newest_seq & HI_MASK`: the low bits cleared.
abbrev pub and_hi_mask : Width → ℕ → ℕ
and_hi_mask w n = n / range w * range w

-- The two corrections of `seq`, by the side of `newest` on which the value lies.
abbrev pub unroll : Width → ℕ → ℕ → ℕ
unroll w newest value =
    let guess = and_hi_mask w newest + value in
    if leb (guess + half_range w) newest
    then guess + range w
    else if ltb (newest + half_range w) guess && leb (range w) guess
    then guess - range w
    else guess

unfoldable pub seq : Width → Sequencer → ℕ → ℕ × Sequencer
seq w s value =
    let n = unroll w s.newest_seq value in
    (n, if ltb s.newest_seq n then record { newest_seq = n } else s)
