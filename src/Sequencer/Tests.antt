-- ===== src/Sequencer/Tests.antt =====
-- The runs of the tests of seq.rs, and the theorems at concrete inputs.
use plank_kymux.Common.{◌≡◌, refl, [], ◌∷◌}
use plank_kymux.Sequencer.{w8, new, seq}
use plank_kymux.Sequencer.Unroll.{run}

test_sequencer :
    run w8 new (
      0x12 ∷ 0x55 ∷ 0x44 ∷ 0x95 ∷ 0x00 ∷ 0xFF ∷ 0x80 ∷ 0x00 ∷ 0x40 ∷ 0x80 ∷ 0x40 ∷ 0xC0 ∷ 0x40
      ∷ 0xC1 ∷ 0xC0 ∷ [])
    ≡ 0x12 ∷ 0x55 ∷ 0x44 ∷ 0x95 ∷ 0x100 ∷ 0xFF ∷ 0x180 ∷ 0x200 ∷ 0x240 ∷ 0x280 ∷ 0x240 ∷ 0x2C0
      ∷ 0x340 ∷ 0x2C1 ∷ 0x3C0 ∷ []
unfolding run seq new
test_sequencer = refl

test_sequencer_special : run w8 new (0xFF ∷ 0x00 ∷ 0xFF ∷ []) ≡ 0xFF ∷ 0x100 ∷ 0xFF ∷ []
unfolding run seq new
test_sequencer_special = refl
