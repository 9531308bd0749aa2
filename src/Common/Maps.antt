-- ===== src/Common/Maps.antt =====
-- `HashMap<u16, V>` and `HashSet<u16>` as association lists.
use Prim.Native.Nat.{ℕ}
use mathlib.Core.Path.{◌≡◌, refl}
use mathlib.Core.Bool.{Bool, true, false}
use mathlib.Core.Option.{Option, none, some}
use mathlib.Core.List.{List, [], ◌∷◌}
use plank_kymux.Common.Tests.{◌==◌, if◌then◌else◌}
use native.Mathlib.Omega.{arith}

module _ {ℓ} {V : Type ℓ} where
  abbrev pub lookup : ℕ → List (ℕ × V) → Option V
  lookup k [] = none
  lookup k ((k', v) ∷ kvs) = if k' == k then some v else lookup k kvs

  abbrev pub erase : ℕ → List (ℕ × V) → List (ℕ × V)
  erase k [] = []
  erase k ((k', v) ∷ kvs) = let rest = erase k kvs in if k' == k then rest else (k', v) ∷ rest

  pub lookup-erase : (k : ℕ) (kvs : List (ℕ × V)) → lookup k (erase k kvs) ≡ none
  lookup-erase k [] = refl
  lookup-erase k ((k', v) ∷ kvs) = ground (arith, lookup-erase k kvs)

  pub lookup-erase_ne :
      (k j : ℕ) (kvs : List (ℕ × V)) → (j == k) ≡ false → lookup k (erase j kvs) ≡ lookup k kvs
  lookup-erase_ne k j [] h = refl
  lookup-erase_ne k j ((k', v) ∷ kvs) h = ground (arith, lookup-erase_ne k j kvs h)

abbrev pub member : ℕ → List ℕ → Bool
member k [] = false
member k (k' ∷ ks) = if k' == k then true else member k ks
