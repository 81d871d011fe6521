-- ===== src/Base/Returns.antt =====
-- What a chain of early returns that reached its end says of each of its steps.
use mathlib.Core.Path.{◌≡◌, refl}
use mathlib.Core.Bool.{Bool, true, false}
use mathlib.Core.Option.{Option, none, some}
use native.Mathlib.Omega.{arith}
use enclavia.Base.Tests.{Result, ok, err, ◌>>=◌, guard, ok_or, map_err}

module _ {ℓ κ μ} {A : Type ℓ} {B : Type κ} {E : Type μ} where
  pub bind_ok :
      (m : Result A E) (f : A → Result B E) (b : B)
      → (m >>= f) ≡ ok b
      → (a : A) × (m ≡ ok a) × (f a ≡ ok b)
  bind_ok (ok a) f b h = (a, refl, h)
  bind_ok (err e) f b h = ground arith

module _ {ℓ κ} {A : Type ℓ} {E : Type κ} where
  pub ok_or_ok : (o : Option A) (e : E) (a : A) → ok_or o e ≡ ok a → o ≡ some a
  ok_or_ok none e a h = ground arith
  ok_or_ok (some b) e a h = ground arith

pub guard_ok {κ} : {E : Type κ} (b : Bool) (e : E) (u : Unit) → guard b e ≡ ok u → b ≡ true
guard_ok true e u h = refl
guard_ok false e u h = ground arith

module _ {ℓ κ μ} {A : Type ℓ} {E : Type κ} {F : Type μ} where
  pub map_err_ok : (f : E → F) (r : Result A E) (a : A) → map_err f r ≡ ok a → r ≡ ok a
  map_err_ok f (ok b) a h = ground arith
  map_err_ok f (err e) a h = ground arith
