-- ===== src/Base/BTreeSet/Sorted.antt =====
-- The order of a `BTreeSet`'s elements, which insertion keeps, and the size of a set.
use Prim.Native.Nat.{ℕ, suc}
use mathlib.Core.Path.{◌≡◌, refl}
use mathlib.Core.Bool.{true, false}
use mathlib.Core.List.{[], ◌∷◌}
use native.Mathlib.Omega.{arith}
use enclavia.Base.Tests.{if◌then◌else◌}
use enclavia.Base.Key.{Key}
use enclavia.Base.BTreeSet.{BTreeSet, contains, insert}

abbrev pub len {ℓ} : {K : Type ℓ} → BTreeSet K → ℕ
len [] = 0
len (_ ∷ m) = suc (len m)

module _ {ℓ} {K : Type ℓ} ⦃o : Key K⦄ where
  abbrev pub Above : K → BTreeSet K → Type 0
  Above k [] = Unit
  Above k (j ∷ m) = (o.lt k j ≡ true) × Above k m

  abbrev pub IsSorted : BTreeSet K → Type 0
  IsSorted [] = Unit
  IsSorted (j ∷ m) = Above j m × IsSorted m

  Above-trans : (i k : K) (m : BTreeSet K) → o.lt i k ≡ true → Above k m → Above i m
  Above-trans i k [] p a = tt
  Above-trans i k (j ∷ m) p a = (o.lt_trans i k j p a.0, Above-trans i k m p a.1)

  contains-Above : (k : K) (m : BTreeSet K) → Above k m → contains m k ≡ false
  unfolding contains
  contains-Above k [] a = refl
  contains-Above k (j ∷ m) a = ground (arith, contains-Above k m a.1, o.beq_iff j k, o.lt_irrefl k)

  Above-insert :
      (i : K) (m : BTreeSet K) (k : K) → o.lt i k ≡ true → Above i m → Above i (insert m k)
  unfolding insert
  Above-insert i [] k p a = (p, tt)
  Above-insert i (j ∷ m) k p a = ground (arith, Above-insert i m k p a.1)

  pub insert-IsSorted : (m : BTreeSet K) (k : K) → IsSorted m → IsSorted (insert m k)
  unfolding insert
  insert-IsSorted [] k s = (tt, tt)
  insert-IsSorted (j ∷ m) k s = ground (
    arith,
    Above-trans k j m,
    Above-insert j m k,
    insert-IsSorted m k s.1,
    o.lt_total k j,
    o.beq_iff j k,
    o.beq_iff k j,
  )

  -- An insertion adds one element exactly when it is new.
  pub len-insert :
      (m : BTreeSet K) (k : K)
      → IsSorted m
      → len (insert m k) ≡ (if contains m k then len m else suc (len m))
  unfolding contains insert
  len-insert [] k s = refl
  len-insert (j ∷ m) k s = ground (arith, len-insert m k s.1, contains-Above k m, Above-trans k j m)
