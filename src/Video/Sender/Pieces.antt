-- ===== src/Video/Sender/Pieces.antt =====
-- The cut that `send_datagrams` makes of a media packet.
use plank_kymux.Common.{
  ℕ, zero, suc, ◌+◌, ◌%◌, ◌^◌, ◌≤◌, ◌<◌, min, ◌≡◌, refl, ap, ◌∙◌, true, List, [], ◌∷◌, ◌++◌, arith,
  ltb, ◌==◌, ok, length, take, drop, All, take-append-drop, length-take, length-drop,
}
use plank_kymux.Wire.{Bytes}
use plank_kymux.Video.Sender.{Channel, VideoSender, datagram_of, send_loop}

-- The pieces of `size` bytes, the last one with what is left.
unfoldable pub pieces : ℕ → ℕ → Bytes → List Bytes
pieces size fuel [] = []
pieces size zero (b ∷ bs) = []
pieces size (suc fuel) (b ∷ bs) =
    take (min size (length (b ∷ bs))) (b ∷ bs)
    ∷ pieces size fuel (drop (min size (length (b ∷ bs))) (b ∷ bs))

-- The datagrams of pieces that are numbered from `n` on.
unfoldable pub datagrams_of : Channel → VideoSender → ℕ → List Bytes → List Bytes
datagrams_of c s n [] = []
datagrams_of c s n (p ∷ ps) = datagram_of c s n (0 == length ps) p ∷ datagrams_of c s (n + 1) ps

abbrev pub concat : List Bytes → Bytes
concat [] = []
concat (x ∷ xs) = x ++ concat xs

-- No byte is lost, repeated or moved.
pub concat-pieces :
    (size fuel : ℕ) (bytes : Bytes)
    → 0 < size
    → length bytes ≤ fuel
    → concat (pieces size fuel bytes) ≡ bytes
unfolding pieces
concat-pieces size fuel [] h l = refl
concat-pieces size zero (b ∷ bs) h l = absurd (omega arith)
concat-pieces size (suc fuel) (b ∷ bs) h l =
    let k = min size (length (b ∷ bs)) in
    rw (concat-pieces size fuel (drop k (b ∷ bs)) h (omega (arith, length-drop k (b ∷ bs))))
      (take-append-drop k (b ∷ bs))

-- Every piece fits the datagram, and none is empty.
pub pieces_bounds :
    (size fuel : ℕ) (bytes : Bytes)
    → 0 < size
    → All (λ p. (0 < length p) × (length p ≤ size)) (pieces size fuel bytes)
unfolding pieces
pieces_bounds size fuel [] h = tt
pieces_bounds size zero (b ∷ bs) h = tt
pieces_bounds size (suc fuel) (b ∷ bs) h =
    let k = min size (length (b ∷ bs)) in
    (omega (arith, length-take k (b ∷ bs)), pieces_bounds size fuel (drop k (b ∷ bs)) h)

pub pieces_empty :
    (size fuel : ℕ) (bytes : Bytes)
    → 0 < size
    → length bytes ≤ fuel
    → (0 == length (pieces size fuel bytes)) ≡ (0 == length bytes)
unfolding pieces
pieces_empty size fuel [] h l = refl
pieces_empty size zero (b ∷ bs) h l = absurd (omega arith)
pieces_empty size (suc fuel) (b ∷ bs) h l = ground arith

pub length-pieces : (size fuel : ℕ) (bytes : Bytes) → length (pieces size fuel bytes) ≤ fuel
unfolding pieces
length-pieces size fuel [] = omega arith
length-pieces size zero (b ∷ bs) = omega arith
length-pieces size (suc fuel) (b ∷ bs) =
    omega (arith, length-pieces size fuel (drop (min size (length (b ∷ bs))) (b ∷ bs)))

pub length-datagrams_of :
    (c : Channel) (s : VideoSender) (n : ℕ) (ps : List Bytes)
    → length (datagrams_of c s n ps) ≡ length ps
unfolding datagrams_of
length-datagrams_of c s n [] = refl
length-datagrams_of c s n (p ∷ ps) = ap suc (length-datagrams_of c s (n + 1) ps)

-- On a channel that takes every datagram the loop succeeds, and sends the datagrams of the pieces.
pub send_loop-datagrams_of :
    (c : Channel) (s : VideoSender) (size fuel : ℕ) (bytes : Bytes) (n : ℕ)
    → ((d : Bytes) → c.takes_datagram d ≡ true)
    → 0 < size
    → size < 2 ^ 16
    → length bytes ≤ fuel
    → n + fuel < 2 ^ 32
    → send_loop c s size fuel bytes n ≡ (ok tt, datagrams_of c s n (pieces size fuel bytes))
unfolding send_loop datagrams_of pieces
send_loop-datagrams_of c s size fuel [] n t h hs l w = refl
send_loop-datagrams_of c s size zero (b ∷ bs) n t h hs l w = absurd (omega arith)
send_loop-datagrams_of c s size (suc fuel) (b ∷ bs) n t h hs l w =
    let k = min size (length (b ∷ bs)) in
    let left = drop k (b ∷ bs) in
    let short : length left ≤ fuel = omega (arith, length-drop k (b ∷ bs)) in
    let last : (0 == length (pieces size fuel left)) ≡ (k == length (b ∷ bs)) =
      pieces_empty size fuel left h short ∙ ground (arith, length-drop k (b ∷ bs)) in
    let ih = send_loop-datagrams_of c s size fuel left (n + 1) t h hs short (omega arith) in
    let below : ltb k (2 ^ 16) ≡ true = ground arith in
    let same : (n + 1) % 2 ^ 32 ≡ n + 1 = omega arith in
    rw (last, below, same, ih, t (datagram_of c s n (k == length (b ∷ bs)) (take k (b ∷ bs))))
