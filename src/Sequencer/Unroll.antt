-- ===== src/Sequencer/Unroll.antt =====
-- `seq` against the numbers that the sender counted.
use plank_kymux.Common.{ℕ, ◌+◌, ◌%◌, ◌≤◌, ◌<◌, max, ◌≡◌, refl, ap, ◌⊎◌, List, [], ◌∷◌, map, arith}
use plank_kymux.Sequencer.{Width, w8, w16, w32, range, half_range, Sequencer, unroll, seq}

-- The values of a stream, fed to the sequencer one after the other.
unfoldable pub run : Width → Sequencer → List ℕ → List ℕ
run w s [] = []
run w s (v ∷ vs) = (seq w s v).0 ∷ run w (seq w s v).1 vs

-- `n` is within half the range of `newest`.
abbrev pub IsNear : Width → ℕ → ℕ → Type 0
IsNear w newest n = (newest < n + half_range w) × (n ≤ newest + half_range w)

pub unroll-mod : (w : Width) (newest n : ℕ) → IsNear w newest n → unroll w newest (n % range w) ≡ n
unroll-mod w8 newest n h = ground arith
unroll-mod w16 newest n h = ground arith
unroll-mod w32 newest n h = ground arith

-- The number has the low bits of the value, is at most a range ahead of the newest one, and is
-- within half the range of it, or else below the range.
pub unroll_bounds :
    (w : Width) (newest v : ℕ)
    → v < range w
    → (unroll w newest v % range w ≡ v)
      × (unroll w newest v ≤ newest + range w)
      × (IsNear w newest (unroll w newest v) ⊎ (unroll w newest v < range w))
unroll_bounds w8 newest v h = (ground arith, ground arith, ground arith)
unroll_bounds w16 newest v h = (ground arith, ground arith, ground arith)
unroll_bounds w32 newest v h = (ground arith, ground arith, ground arith)

-- A stream of counted numbers in which each is within half the range of the largest so far.
abbrev pub IsTrackable : Width → ℕ → List ℕ → Type 0
IsTrackable w newest [] = Unit {0}
IsTrackable w newest (n ∷ ns) = IsNear w newest n × IsTrackable w (max newest n) ns

pub seq_lem :
    (w : Width) (s : Sequencer) (n : ℕ)
    → IsNear w s.newest_seq n
    → seq w s (n % range w) ≡ (n, record { newest_seq = max s.newest_seq n })
unfolding seq
seq_lem w s n h = ground (arith, unroll-mod w s.newest_seq n h)

-- A receiver that is fed the low bits of such a stream, in whatever order it comes, gets the counted
-- numbers back.
pub run-map_mod :
    (w : Width) (s : Sequencer) (ns : List ℕ)
    → IsTrackable w s.newest_seq ns
    → run w s (map (λ n. n % range w) ns) ≡ ns
unfolding run
run-map_mod w s [] h = refl
run-map_mod w s (n ∷ ns) (near, rest) = rw (seq_lem w s n near) (
    ap (λ (t : List ℕ). n ∷ t) (run-map_mod w (record { newest_seq = max s.newest_seq n }) ns rest))
