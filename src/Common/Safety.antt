-- ===== src/Common/Safety.antt =====
-- What holds of an outcome that is no panic: of its value, or of its error.
use mathlib.Core.Path.{◌≡◌, refl}
use mathlib.Core.Bool.{Bool, true, false}
use plank_kymux.Common.Outcomes.{Result, ok, err, panic, ◌>>=◌, ◌>>◌, guard}

module _ {ℓ} {E : Type 0} {A : Type ℓ} where
  abbrev pub Safe : (E → Type 0) → (A → Type 0) → Result E A → Type 0
  Safe F P (ok a) = P a
  Safe F P (err e) = F e
  Safe F P panic = ⊥

  pub Safe-weaken :
      (F : E → Type 0) (P Q : A → Type 0) (m : Result E A)
      → Safe F P m
      → ((a : A) → m ≡ ok a → P a → Q a)
      → Safe F Q m
  Safe-weaken F P Q (ok a) h f = f a refl h
  Safe-weaken F P Q (err e) h f = h
  Safe-weaken F P Q panic h f = h

pub Safe-bind {ℓ κ} :
    {E : Type 0} {A : Type ℓ} {B : Type κ} (F : E → Type 0) (P : A → Type 0) (Q : B → Type 0)
    (m : Result E A) (f : A → Result E B)
    → Safe F P m
    → ((a : A) → m ≡ ok a → P a → Safe F Q (f a))
    → Safe F Q (m >>= f)
Safe-bind F P Q (ok a) f h k = k a refl h
Safe-bind F P Q (err e) f h k = h
Safe-bind F P Q panic f h k = h

pub Safe-guard :
    {E : Type 0} (F : E → Type 0) (b : Bool) (e : E) → F e → Safe F (λ u. b ≡ true) (guard b e)
Safe-guard F true e h = refl
Safe-guard F false e h = h

-- `if !b { return Err(e) }`, and what follows.
pub Safe-guard_then {ℓ} :
    {E : Type 0} {A : Type ℓ} (F : E → Type 0) (Q : A → Type 0) (b : Bool) (e : E) (m : Result E A)
    → F e
    → (b ≡ true → Safe F Q m)
    → Safe F Q (guard b e >> m)
Safe-guard_then F Q true e m h k = k refl
Safe-guard_then F Q false e m h k = h

-- A call that can neither fail nor panic gives a value.
pub Safe-ok {ℓ} :
    {E : Type 0} {A : Type ℓ} (m : Result E A)
    → Safe (λ e. ⊥) (λ a. Unit {0}) m
    → (a : A) × (m ≡ ok a)
Safe-ok (ok a) h = (a, refl)
Safe-ok (err e) h = elim h [ ]
Safe-ok panic h = elim h [ ]
