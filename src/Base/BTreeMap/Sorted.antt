-- ===== src/Base/BTreeMap/Sorted.antt =====
-- The order of a `BTreeMap`'s entries, which insertion and removal keep, and the size of a map.
use Prim.Native.Nat.{ℕ, suc}
use mathlib.Core.Path.{◌≡◌, refl}
use mathlib.Core.Bool.{true}
use mathlib.Core.Option.{none}
use mathlib.Core.List.{[], ◌∷◌}
use native.Mathlib.Omega.{arith}
use enclavia.Base.Tests.{if◌then◌else◌}
use enclavia.Base.Key.{Key}
use enclavia.Base.BTreeMap.{BTreeMap, get, contains_key, insert, remove}

abbrev pub len {ℓ κ} : {K : Type ℓ} {V : Type κ} → BTreeMap K V → ℕ
len [] = 0
len (_ ∷ m) = suc (len m)

module _ {ℓ κ} {K : Type ℓ} {V : Type κ} ⦃o : Key K⦄ where
  abbrev pub Above : K → BTreeMap K V → Type 0
  Above k [] = Unit
  Above k ((j, _) ∷ m) = (o.lt k j ≡ true) × Above k m

  abbrev pub IsSorted : BTreeMap K V → Type 0
  IsSorted [] = Unit
  IsSorted ((j, _) ∷ m) = Above j m × IsSorted m

  Above-trans : (i k : K) (m : BTreeMap K V) → o.lt i k ≡ true → Above k m → Above i m
  Above-trans i k [] p a = tt
  Above-trans i k ((j, w) ∷ m) p a = (o.lt_trans i k j p a.0, Above-trans i k m p a.1)

  get-Above : (k : K) (m : BTreeMap K V) → Above k m → get m k ≡ none
  unfolding get
  get-Above k [] a = refl
  get-Above k ((j, w) ∷ m) a = ground (arith, get-Above k m a.1, o.beq_iff j k, o.lt_irrefl k)

  Above-insert :
      (i : K) (m : BTreeMap K V) (k : K) (v : V)
      → o.lt i k ≡ true
      → Above i m
      → Above i (insert m k v)
  unfolding insert
  Above-insert i [] k v p a = (p, tt)
  Above-insert i ((j, w) ∷ m) k v p a = ground (arith, Above-insert i m k v p a.1)

  pub insert-IsSorted : (m : BTreeMap K V) (k : K) (v : V) → IsSorted m → IsSorted (insert m k v)
  unfolding insert
  insert-IsSorted [] k v s = (tt, tt)
  insert-IsSorted ((j, w) ∷ m) k v s = ground (
    arith,
    Above-trans k j m,
    Above-insert j m k v,
    insert-IsSorted m k v s.1,
    o.lt_total k j,
    o.beq_iff j k,
    o.beq_iff k j,
  )

  Above-remove : (i : K) (m : BTreeMap K V) (k : K) → Above i m → Above i (remove m k)
  unfolding remove
  Above-remove i [] k a = tt
  Above-remove i ((j, w) ∷ m) k a = ground (arith, Above-remove i m k a.1)

  pub remove-IsSorted : (m : BTreeMap K V) (k : K) → IsSorted m → IsSorted (remove m k)
  unfolding remove
  remove-IsSorted [] k s = tt
  remove-IsSorted ((j, w) ∷ m) k s = ground (arith, Above-remove j m k s.0, remove-IsSorted m k s.1)

  -- An insertion adds one entry exactly when the key is new.
  pub len-insert :
      (m : BTreeMap K V) (k : K) (v : V)
      → IsSorted m
      → len (insert m k v) ≡ (if contains_key m k then len m else suc (len m))
  unfolding get insert
  len-insert [] k v s = refl
  len-insert ((j, w) ∷ m) k v s =
      ground (arith, len-insert m k v s.1, get-Above k m, Above-trans k j m)

  remove-Above : (m : BTreeMap K V) (k : K) → Above k m → remove m k ≡ m
  unfolding remove
  remove-Above [] k a = refl
  remove-Above ((j, w) ∷ m) k a = ground (arith, remove-Above m k a.1, o.beq_iff j k, o.lt_irrefl k)

  -- A removal takes one entry away exactly when the key is there.
  pub len-remove :
      (m : BTreeMap K V) (k : K)
      → IsSorted m
      → len m ≡ (if contains_key m k then suc (len (remove m k)) else len (remove m k))
  unfolding get remove
  len-remove [] k s = refl
  len-remove ((j, w) ∷ m) k s = ground (arith, len-remove m k s.1, o.beq_iff j k, remove-Above m k)
