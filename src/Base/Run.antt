-- ===== src/Base/Run.antt =====
-- What a piece of code with loops does: return, access memory that it may not, or still run when the
-- fuel is up.
use mathlib.Core.Option.{Option, none, some}
use mathlib.Core.Path.{◌≡◌, refl}

pub data Run {ℓ} (A : Type ℓ) : Type ℓ where
  ret : A → Run A
  fault starved : Run A

abbrev pub and_then {ℓ κ} : {A : Type ℓ} {B : Type κ} → Run A → (A → Run B) → Run B
and_then (ret a) f = f a
and_then fault f = fault
and_then starved f = starved

-- A null or freed pointer, or an index behind an array, cannot be read.
abbrev pub read {ℓ} : {A : Type ℓ} → Option A → Run A
read none = fault
read (some a) = ret a

-- What returns in two parts returns in both.
pub and_then-eq-ret {ℓ κ} :
    {A : Type ℓ} {B : Type κ} (m : Run A) (f : A → Run B) {b : B}
    → and_then m f ≡ ret b
    → (a : A) × (m ≡ ret a) × (f a ≡ ret b)
and_then-eq-ret (ret a) f h = (a, refl, h)
and_then-eq-ret fault f h = cc
and_then-eq-ret starved f h = cc
