-- ===== src/Base/BTreeMap/Collect.antt =====
-- Building a `BTreeMap` from an iterator, and mapping its values.
use mathlib.Core.Path.{◌≡◌, refl, ◌∙◌}
use mathlib.Core.Bool.{true}
use mathlib.Core.List.{List, [], ◌∷◌, ◌++◌, append-nil, append_assoc}
use native.Mathlib.Omega.{arith}
use enclavia.Base.Key.{Key}
use enclavia.Base.BTreeMap.{BTreeMap, insert}
use enclavia.Base.BTreeMap.Sorted.{Above, IsSorted}

unfoldable pub map_values {ℓ κ μ} :
    {K : Type ℓ} {V : Type κ} {W : Type μ} → (V → W) → BTreeMap K V → BTreeMap K W
map_values f [] = []
map_values f ((k, v) ∷ m) = (k, f v) ∷ map_values f m

pub map_values-map_values {ℓ κ μ} :
    {K : Type ℓ} {V : Type κ} {W : Type μ} (f : V → W) (g : W → V)
    → ((v : V) → g (f v) ≡ v)
    → (m : BTreeMap K V) → map_values g (map_values f m) ≡ m
unfolding map_values
map_values-map_values f g h [] = refl
map_values-map_values f g h ((k, v) ∷ m) = cc (h v, map_values-map_values f g h m)

module _ {ℓ κ} {K : Type ℓ} {V : Type κ} ⦃o : Key K⦄ where
  abbrev collect_into : BTreeMap K V → List (K × V) → BTreeMap K V
  collect_into acc [] = acc
  collect_into acc ((k, v) ∷ l) = collect_into (insert acc k v) l

  -- `collect()`: the pairs are inserted in the order of the iterator.
  unfoldable pub collect : List (K × V) → BTreeMap K V
  collect l = collect_into [] l

  lt_last :
      (acc : BTreeMap K V) (j k : K) (v : V) (l : BTreeMap K V)
      → Above j (acc ++ ((k, v) ∷ l))
      → o.lt j k ≡ true
  lt_last [] j k v l a = a.0
  lt_last ((i, w) ∷ acc) j k v l a = lt_last acc j k v l a.1

  insert_last :
      (acc : BTreeMap K V) (k : K) (v : V) (l : BTreeMap K V)
      → IsSorted (acc ++ ((k, v) ∷ l))
      → insert acc k v ≡ acc ++ ((k, v) ∷ [])
  unfolding insert
  insert_last [] k v l s = refl
  insert_last ((j, w) ∷ acc) k v l s = ground (
    arith,
    insert_last acc k v l s.1,
    lt_last acc j k v l s.0,
    o.beq_iff j k,
    o.lt_irrefl j,
    o.lt_irrefl k,
    o.lt_trans j k j,
  )

  collect_into_sorted : (acc l : BTreeMap K V) → IsSorted (acc ++ l) → collect_into acc l ≡ acc ++ l
  collect_into_sorted acc [] s = rw append-nil
  collect_into_sorted acc ((k, v) ∷ l) s = rw (insert_last acc k v l s) (
      collect_into_sorted (acc ++ ((k, v) ∷ [])) l (rw append_assoc s)
      ∙ append_assoc acc ((k, v) ∷ []) l)

  -- Collecting the entries of a map gives the map back.
  pub collect_lem : (m : BTreeMap K V) → IsSorted m → collect m ≡ m
  unfolding collect
  collect_lem m s = collect_into_sorted [] m s

module _ {ℓ κ μ} {K : Type ℓ} {V : Type κ} {W : Type μ} ⦃o : Key K⦄ (f : V → W) where
  Above-map_values : (j : K) (m : BTreeMap K V) → Above j m → Above j (map_values f m)
  unfolding map_values
  Above-map_values j [] a = tt
  Above-map_values j ((i, w) ∷ m) a = (a.0, Above-map_values j m a.1)

  pub map_values-IsSorted : (m : BTreeMap K V) → IsSorted m → IsSorted (map_values f m)
  unfolding map_values
  map_values-IsSorted [] s = tt
  map_values-IsSorted ((k, v) ∷ m) s = (Above-map_values k m s.0, map_values-IsSorted m s.1)
