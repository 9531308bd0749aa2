-- ===== src/Video/Segments/Slots.antt =====
-- Lists of segments with gaps, against the pieces of a packet that they stand for.
use plank_kymux.Common.{
  ℕ, zero, suc, ◌+◌, ◌-◌, ◌≤◌, ◌<◌, ◌≡◌, refl, sym, ap, ◌∙◌, ◌≢◌, inl, inr, true, Option, none,
  some, List, [], ◌∷◌, ◌++◌, arith, leb, ◌==◌, leb→le, ==_iff, Bool-cases, ok, length, get_elem?,
  set, replicate, length-append, length-replicate,
}
use plank_kymux.Wire.{Bytes}
use plank_kymux.Video.Sender.Pieces.{concat}
use plank_kymux.Video.Segments.{put_segments, merge_segments, resized, slot}

abbrev pub count_some : List (Option Bytes) → ℕ
count_some [] = 0
count_some (none ∷ xs) = count_some xs
count_some (some b ∷ xs) = suc (count_some xs)

abbrev pub count_bytes : List (Option Bytes) → ℕ
count_bytes [] = 0
count_bytes (none ∷ xs) = count_bytes xs
count_bytes (some b ∷ xs) = length b + count_bytes xs

-- Each segment that is there is the piece of its index.
abbrev pub Agree : List Bytes → List (Option Bytes) → Type 0
Agree ps [] = Unit {0}
Agree [] (x ∷ xs) = ⊥
Agree (p ∷ ps) (none ∷ xs) = Agree ps xs
Agree (p ∷ ps) (some q ∷ xs) = (q ≡ p) × Agree ps xs

pub Agree-length :
    (ps : List Bytes) (xs : List (Option Bytes)) → Agree ps xs → length xs ≤ length ps
Agree-length ps [] a = omega arith
Agree-length [] (x ∷ xs) a = absurd a
Agree-length (p ∷ ps) (none ∷ xs) a = omega (arith, Agree-length ps xs a)
Agree-length (p ∷ ps) (some q ∷ xs) a = omega (arith, Agree-length ps xs a.1)

pub count_some-le : (xs : List (Option Bytes)) → count_some xs ≤ length xs
count_some-le [] = omega arith
count_some-le (none ∷ xs) = omega (arith, count_some-le xs)
count_some-le (some b ∷ xs) = omega (arith, count_some-le xs)

-- With as many segments as pieces there is no gap, and the merge is the packet.
put-full :
    (ps : List Bytes) (xs : List (Option Bytes))
    → Agree ps xs
    → count_some xs ≡ length ps
    → put_segments xs ≡ ok (concat ps)
unfolding put_segments
put-full [] [] a c = refl
put-full (p ∷ ps) [] a c = absurd (omega arith)
put-full [] (x ∷ xs) a c = absurd a
put-full (p ∷ ps) (none ∷ xs) a c = absurd (omega (arith, count_some-le xs, Agree-length ps xs a))
put-full (p ∷ ps) (some q ∷ xs) a c = rw (put-full ps xs a.1 (omega arith), a.0)

count_bytes-full :
    (ps : List Bytes) (xs : List (Option Bytes))
    → Agree ps xs
    → count_some xs ≡ length ps
    → length (concat ps) ≡ count_bytes xs
count_bytes-full [] [] a c = refl
count_bytes-full (p ∷ ps) [] a c = absurd (omega arith)
count_bytes-full [] (x ∷ xs) a c = absurd a
count_bytes-full (p ∷ ps) (none ∷ xs) a c =
    absurd (omega (arith, count_some-le xs, Agree-length ps xs a))
count_bytes-full (p ∷ ps) (some q ∷ xs) a c =
    let same : length q ≡ length p = ap length a.0 in
    omega (arith, same, length-append p (concat ps), count_bytes-full ps xs a.1 (omega arith))

-- The merge, with its assertion on the number of bytes.
pub merge-full :
    (ps : List Bytes) (xs : List (Option Bytes)) (total : ℕ)
    → Agree ps xs
    → count_some xs ≡ length ps
    → total ≡ count_bytes xs
    → merge_segments xs total ≡ ok (concat ps)
unfolding merge_segments
merge-full ps xs total a c e =
    let whole : (length (concat ps) == total) ≡ true =
      (==_iff _ _).1 (count_bytes-full ps xs a c ∙ sym e) in
    rw (put-full ps xs a c, whole)

Agree-append_none :
    (ps : List Bytes) (xs : List (Option Bytes)) (k : ℕ)
    → Agree ps xs
    → length xs + k ≤ length ps
    → Agree ps (xs ++ replicate k none)
Agree-append_none ps [] zero a h = tt
Agree-append_none [] [] (suc k) a h = absurd (omega arith)
Agree-append_none (p ∷ ps) [] (suc k) a h = Agree-append_none ps [] k tt (omega arith)
Agree-append_none [] (x ∷ xs) k a h = absurd a
Agree-append_none (p ∷ ps) (none ∷ xs) k a h = Agree-append_none ps xs k a (omega arith)
Agree-append_none (p ∷ ps) (some q ∷ xs) k a h = (a.0, Agree-append_none ps xs k a.1 (omega arith))

count-append_none :
    (xs : List (Option Bytes)) (k : ℕ)
    → (count_some (xs ++ replicate k none) ≡ count_some xs)
      × (count_bytes (xs ++ replicate k none) ≡ count_bytes xs)
count-append_none [] zero = (refl, refl)
count-append_none [] (suc k) = count-append_none [] k
count-append_none (none ∷ xs) k = count-append_none xs k
count-append_none (some b ∷ xs) k = omega (arith, count-append_none xs k)

slot-append_none :
    (xs : List (Option Bytes)) (k i : ℕ) → slot (xs ++ replicate k none) i ≡ slot xs i
slot-append_none [] zero i = refl
slot-append_none [] (suc k) zero = refl
slot-append_none [] (suc k) (suc i) = slot-append_none [] k i
slot-append_none (x ∷ xs) k zero = refl
slot-append_none (x ∷ xs) k (suc i) = slot-append_none xs k i

module _ (ps : List Bytes) (xs : List (Option Bytes)) (i : ℕ) where
  pub Agree-resized : Agree ps xs → i < length ps → Agree ps (resized i xs)
  Agree-resized a h = elim (Bool-cases (leb (length xs) i)) [
    | inl e ↦ rw e (Agree-append_none ps xs (i + 1 - length xs) a (omega (arith, leb→le _ _ e)))
    | inr e ↦ rw e a
  ]

  pub count-resized :
      (count_some (resized i xs) ≡ count_some xs) × (count_bytes (resized i xs) ≡ count_bytes xs)
  count-resized = elim (Bool-cases (leb (length xs) i)) [
    | inl e ↦ rw e (count-append_none xs (i + 1 - length xs))
    | inr e ↦ rw e (refl, refl)
  ]

  pub slot-resized : (j : ℕ) → slot (resized i xs) j ≡ slot xs j
  slot-resized j = elim (Bool-cases (leb (length xs) i)) [
    | inl e ↦ rw e (slot-append_none xs (i + 1 - length xs) j)
    | inr e ↦ rw e
  ]

  pub length-resized : i < length (resized i xs)
  length-resized =
      let gap : Option Bytes = none in
      let k = i + 1 - length xs in
      ground (arith, length-append xs (replicate k gap), length-replicate k gap)

pub Agree-set :
    (ps : List Bytes) (xs : List (Option Bytes)) (i : ℕ) (p : Bytes)
    → Agree ps xs
    → get_elem? ps i ≡ some p
    → Agree ps (set xs i (some p))
Agree-set ps [] i p a e = tt
Agree-set [] (x ∷ xs) i p a e = absurd a
Agree-set (q ∷ ps) (none ∷ xs) zero p a e = (cc, a)
Agree-set (q ∷ ps) (some r ∷ xs) zero p a e = (cc, a.1)
Agree-set (q ∷ ps) (none ∷ xs) (suc i) p a e = Agree-set ps xs i p a e
Agree-set (q ∷ ps) (some r ∷ xs) (suc i) p a e = (a.0, Agree-set ps xs i p a.1 e)

pub count-set :
    (xs : List (Option Bytes)) (i : ℕ) (p : Bytes)
    → i < length xs
    → slot xs i ≡ none
    → (count_some (set xs i (some p)) ≡ count_some xs + 1)
      × (count_bytes (set xs i (some p)) ≡ count_bytes xs + length p)
count-set [] i p h e = absurd (omega arith)
count-set (none ∷ xs) zero p h e = omega arith
count-set (some b ∷ xs) zero p h e = cc
count-set (none ∷ xs) (suc i) p h e = count-set xs i p (omega arith) e
count-set (some b ∷ xs) (suc i) p h e = omega (arith, count-set xs i p (omega arith) e)

pub slot-set_self :
    (xs : List (Option Bytes)) (i : ℕ) (p : Bytes)
    → i < length xs
    → slot (set xs i (some p)) i ≡ some p
slot-set_self [] i p h = absurd (omega arith)
slot-set_self (x ∷ xs) zero p h = refl
slot-set_self (x ∷ xs) (suc i) p h = slot-set_self xs i p (omega arith)

pub slot-set_ne :
    (xs : List (Option Bytes)) (i j : ℕ) (p : Bytes)
    → i ≢ j
    → slot (set xs i (some p)) j ≡ slot xs j
slot-set_ne [] i j p h = refl
slot-set_ne (x ∷ xs) zero zero p h = absurd (h refl)
slot-set_ne (x ∷ xs) zero (suc j) p h = refl
slot-set_ne (x ∷ xs) (suc i) zero p h = refl
slot-set_ne (x ∷ xs) (suc i) (suc j) p h = slot-set_ne xs i j p (λ e. h (ap suc e))
