-- ===== src/Base/BTreeMap.antt =====
-- Rust's `BTreeMap`: the entries, in the order of their keys.
pub mod Sorted
pub mod Collect
use mathlib.Core.Path.{◌≡◌, refl}
use mathlib.Core.Bool.{Bool, true, false}
use mathlib.Core.Option.{Option, none, some}
use mathlib.Core.List.{List, [], ◌∷◌}
use native.Mathlib.Omega.{arith}
use enclavia.Base.Tests.{if◌then◌else◌}
use enclavia.Base.Key.{Key}

abbrev pub BTreeMap {ℓ κ} : Type ℓ → Type κ → Type (ℓ ⊔ κ)
BTreeMap K V = List (K × V)

abbrev pub is_some {ℓ} : {A : Type ℓ} → Option A → Bool
is_some none = false
is_some (some _) = true

module _ {ℓ κ} {K : Type ℓ} {V : Type κ} ⦃o : Key K⦄ where
  unfoldable pub get : BTreeMap K V → K → Option V
  get [] k = none
  get ((j, v) ∷ m) k = if o.beq j k then some v else get m k

  abbrev pub contains_key : BTreeMap K V → K → Bool
  contains_key m k = is_some (get m k)

  unfoldable pub insert : BTreeMap K V → K → V → BTreeMap K V
  insert [] k v = (k, v) ∷ []
  insert ((j, w) ∷ m) k v =
      if o.beq j k
      then (k, v) ∷ m
      else if o.lt k j
      then (k, v) ∷ (j, w) ∷ m
      else (j, w) ∷ insert m k v

  unfoldable pub remove : BTreeMap K V → K → BTreeMap K V
  remove [] k = []
  remove ((j, w) ∷ m) k = let rest = remove m k in if o.beq j k then rest else (j, w) ∷ rest

  pub get-insert :
      (m : BTreeMap K V) (k : K) (v : V) (i : K)
      → get (insert m k v) i ≡ (if o.beq k i then some v else get m i)
  unfolding get insert
  get-insert [] k v i = refl
  get-insert ((j, w) ∷ m) k v i =
      ground (arith, o.beq_iff j k, o.beq_iff j i, o.beq_iff k i, get-insert m k v i)

  pub get-remove :
      (m : BTreeMap K V) (k i : K) → get (remove m k) i ≡ (if o.beq k i then none else get m i)
  unfolding get remove
  get-remove [] k i = ground arith
  get-remove ((j, w) ∷ m) k i =
      ground (arith, o.beq_iff j k, o.beq_iff j i, o.beq_iff k i, get-remove m k i)
