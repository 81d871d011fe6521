-- ===== src/Base/Lists.antt =====
-- Lists measured and indexed by native numbers, under the library's names.
use Prim.Native.Nat.{ℕ, suc, ◌+◌}
use mathlib.Core.Path.{◌≡◌, refl}
use mathlib.Core.List.{List, [], ◌∷◌, ◌++◌}
use native.Mathlib.Omega.{arith}

module _ {ℓ} {A : Type ℓ} where
  abbrev pub length : List A → ℕ
  length [] = 0
  length (x ∷ xs) = suc (length xs)

  pub length-append : (xs ys : List A) → length (xs ++ ys) ≡ length xs + length ys
  length-append [] ys = omega arith
  length-append (x ∷ xs) ys = omega (arith, length-append xs ys)

  -- Parts of equal length are determined by their concatenation.
  pub append-injective :
      (xs ys zs ws : List A) → length xs ≡ length ys → xs ++ zs ≡ ys ++ ws → (xs ≡ ys) × (zs ≡ ws)
  append-injective [] [] zs ws l e = (refl, e)
  append-injective [] (y ∷ ys) zs ws l e = absurd (omega arith)
  append-injective (x ∷ xs) [] zs ws l e = absurd (omega arith)
  append-injective (x ∷ xs) (y ∷ ys) zs ws l e = ground (arith, append-injective xs ys zs ws)
