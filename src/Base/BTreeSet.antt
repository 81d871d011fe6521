-- ===== src/Base/BTreeSet.antt =====
-- Rust's `BTreeSet`: the elements, in their order.
pub mod Sorted
use mathlib.Core.Path.{◌≡◌, refl}
use mathlib.Core.Bool.{Bool, false, ◌||◌}
use mathlib.Core.List.{List, [], ◌∷◌}
use native.Mathlib.Omega.{arith}
use enclavia.Base.Tests.{if◌then◌else◌}
use enclavia.Base.Key.{Key}

abbrev pub BTreeSet {ℓ} : Type ℓ → Type ℓ
BTreeSet K = List K

module _ {ℓ} {K : Type ℓ} ⦃o : Key K⦄ where
  unfoldable pub contains : BTreeSet K → K → Bool
  contains [] k = false
  contains (j ∷ s) k = o.beq j k || contains s k

  unfoldable pub insert : BTreeSet K → K → BTreeSet K
  insert [] k = k ∷ []
  insert (j ∷ s) k = if o.beq j k then j ∷ s else if o.lt k j then k ∷ j ∷ s else j ∷ insert s k

  unfoldable pub remove : BTreeSet K → K → BTreeSet K
  remove [] k = []
  remove (j ∷ s) k = let rest = remove s k in if o.beq j k then rest else j ∷ rest

  pub contains-nil : (k : K) → contains [] k ≡ false
  unfolding contains
  contains-nil k = refl

  pub contains-insert :
      (s : BTreeSet K) (k i : K) → contains (insert s k) i ≡ (o.beq k i || contains s i)
  unfolding contains insert
  contains-insert [] k i = refl
  contains-insert (j ∷ s) k i =
      ground (arith, o.beq_iff j k, o.beq_iff j i, o.beq_iff k i, contains-insert s k i)

  pub contains-remove :
      (s : BTreeSet K) (k i : K)
      → contains (remove s k) i ≡ (if o.beq k i then false else contains s i)
  unfolding contains remove
  contains-remove [] k i = ground arith
  contains-remove (j ∷ s) k i =
      ground (arith, o.beq_iff j k, o.beq_iff j i, o.beq_iff k i, contains-remove s k i)
