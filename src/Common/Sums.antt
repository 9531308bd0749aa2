-- ===== src/Common/Sums.antt =====
-- Sums over a list, and how the list operations change them.
use Prim.Native.Nat.{ℕ, zero, suc, ◌+◌, ◌≤◌}
use mathlib.Core.Path.{◌≡◌, refl}
use mathlib.Core.Option.{some}
use mathlib.Core.List.{List, [], ◌∷◌}
use native.Mathlib.Omega.{arith}
use plank_kymux.Common.Lists.{length, get_elem?, set, drop, insert_at, remove_at}

module _ {ℓ} {A : Type ℓ} (f : A → ℕ) where
  abbrev pub sum_by : List A → ℕ
  sum_by [] = 0
  sum_by (x ∷ xs) = f x + sum_by xs

  pub sum_by-insert_at : (i : ℕ) (a : A) (xs : List A) → sum_by (insert_at i a xs) ≡ f a + sum_by xs
  sum_by-insert_at zero a xs = refl
  sum_by-insert_at (suc i) a [] = refl
  sum_by-insert_at (suc i) a (x ∷ xs) = omega (arith, sum_by-insert_at i a xs)

  pub sum_by-remove_at :
      (i : ℕ) (a : A) (xs : List A)
      → get_elem? xs i ≡ some a
      → f a + sum_by (remove_at i xs) ≡ sum_by xs
  sum_by-remove_at i a [] h = cc
  sum_by-remove_at zero a (x ∷ xs) h = ground arith
  sum_by-remove_at (suc i) a (x ∷ xs) h = omega (arith, sum_by-remove_at i a xs h)

  pub sum_by-set :
      (i : ℕ) (a b : A) (xs : List A)
      → get_elem? xs i ≡ some a
      → sum_by (set xs i b) + f a ≡ sum_by xs + f b
  sum_by-set i a b [] h = cc
  sum_by-set zero a b (x ∷ xs) h = ground arith
  sum_by-set (suc i) a b (x ∷ xs) h = omega (arith, sum_by-set i a b xs h)

  pub sum_by-drop : (i : ℕ) (xs : List A) → sum_by (drop i xs) ≤ sum_by xs
  sum_by-drop zero xs = omega arith
  sum_by-drop (suc i) [] = omega arith
  sum_by-drop (suc i) (x ∷ xs) = omega (arith, sum_by-drop i xs)

  pub sum_by-get : (i : ℕ) (a : A) (xs : List A) → get_elem? xs i ≡ some a → f a ≤ sum_by xs
  sum_by-get i a [] h = cc
  sum_by-get zero a (x ∷ xs) h = ground arith
  sum_by-get (suc i) a (x ∷ xs) h = omega (arith, sum_by-get i a xs h)

module _ {ℓ} {A : Type ℓ} where
  pub sum_by-one : (xs : List A) → sum_by (λ x. 1) xs ≡ length xs
  sum_by-one [] = refl
  sum_by-one (x ∷ xs) = omega (arith, sum_by-one xs)

  pub length-insert_at : (i : ℕ) (a : A) (xs : List A) → length (insert_at i a xs) ≡ suc (length xs)
  length-insert_at zero a xs = refl
  length-insert_at (suc i) a [] = refl
  length-insert_at (suc i) a (x ∷ xs) = omega (arith, length-insert_at i a xs)

  pub length-drop_le : (i : ℕ) (xs : List A) → length (drop i xs) ≤ length xs
  length-drop_le zero xs = omega arith
  length-drop_le (suc i) [] = omega arith
  length-drop_le (suc i) (x ∷ xs) = omega (arith, length-drop_le i xs)

  pub length-remove_at : (i : ℕ) (xs : List A) → length (remove_at i xs) ≤ length xs
  length-remove_at i [] = omega arith
  length-remove_at zero (x ∷ xs) = omega arith
  length-remove_at (suc i) (x ∷ xs) = omega (arith, length-remove_at i xs)
