-- ===== src/Base/Fallible.antt =====
-- `Result<A, E>`: fallible code, chained by `do` as the source chains it by `?`.
use mathlib.Core.Path.{◌≡◌, refl}
use mathlib.Core.Logic.{◌⊎◌, inl, inr}
use mathlib.Core.Bool.{Bool, true, false}
use mathlib.Core.Option.{Option, none, some}
use s5_rs.Base.Tests.{if◌then◌else◌}

pub data Result {ℓ κ} (E : Type ℓ) (A : Type κ) : Type (ℓ ⊔ κ) where
  ok : A → Result E A
  err : E → Result E A

module _ {ℓ κ ι} {E : Type ℓ} {A : Type κ} {B : Type ι} where
  infixl 5 ◌>>=◌
  abbrev pub ◌>>=◌ : Result E A → (A → Result E B) → Result E B
  ok a >>= f = f a
  err e >>= f = err e

-- `Result::ok`.
module _ {ℓ κ} {E : Type ℓ} {A : Type κ} where
  abbrev pub to_option : Result E A → Option A
  to_option (ok a) = some a
  to_option (err e) = none

-- `map_err`.
module _ {ℓ κ ι} {E : Type ℓ} {F : Type κ} {A : Type ι} where
  abbrev pub map_err : (E → F) → Result E A → Result F A
  map_err f (ok a) = ok a
  map_err f (err e) = err (f e)

-- Inversion of a successful step.
module _ {ℓ κ ι} {E : Type ℓ} {A : Type κ} {B : Type ι} where
  pub bind_ok :
      (m : Result E A) (f : A → Result E B) {b : B}
      → (m >>= f) ≡ ok b
      → (a : A) × (m ≡ ok a) × (f a ≡ ok b)
  bind_ok (ok a) f h = (a, refl, h)
  bind_ok (err e) f h = cc

module _ {ℓ κ ι} {E : Type ℓ} {F : Type κ} {A : Type ι} where
  pub map_err_ok : (f : E → F) (r : Result E A) {a : A} → map_err f r ≡ ok a → r ≡ ok a
  map_err_ok f (ok a) h = cc
  map_err_ok f (err e) h = cc

module _ {ℓ κ} {E : Type ℓ} {A : Type κ} where
  -- `if b { return Err(e) }`.
  pub if_err :
      (b : Bool) (e : E) (x : Result E A) {a : A}
      → (if b then err e else x) ≡ ok a
      → (b ≡ false) × (x ≡ ok a)
  if_err true e x h = cc
  if_err false e x h = (refl, h)

module _ {ℓ κ} {E : Type ℓ} {A : Type κ} where
  pub Result-cases : (r : Result E A) → ((a : A) × (r ≡ ok a)) ⊎ ((e : E) × (r ≡ err e))
  Result-cases (ok a) = inl (a, refl)
  Result-cases (err e) = inr (e, refl)
