-- ===== src/Base/Search.antt =====
-- The searches of a slice that the source makes with iterators: `any`, `find` and `rev().find`.
use mathlib.Core.Path.{◌≡◌, refl, ap, ◌∙◌}
use mathlib.Core.Logic.{◌≢◌, ◌↔◌, ◌⊎◌, inl, inr}
use mathlib.Core.Bool.{Bool, true, false, ◌||◌}
use mathlib.Core.Option.{Option, none, some}
use mathlib.Core.List.{List, [], ◌∷◌, ◌++◌}
use native.Mathlib.Omega.{arith}
use enclavia.Base.Tests.{Bool-cases, Option-cases}

module _ {ℓ} {A : Type ℓ} (p : A → Bool) where
  unfoldable pub any : List A → Bool
  any [] = false
  any (x ∷ xs) = p x || any xs

  unfoldable pub find : List A → Option A
  find [] = none
  find (x ∷ xs) = elim (p x) [ true ↦ some x | false ↦ find xs ]

  unfoldable pub find_last : List A → Option A
  find_last [] = none
  find_last (x ∷ xs) = elim (find_last xs) [
    | some y ↦ some y
    | none ↦ elim (p x) [ true ↦ some x | false ↦ none ]
  ]

  pub find_last-append :
      (xs : List A) (x : A)
      → find_last (xs ++ x ∷ []) ≡ (elim (p x) [ true ↦ some x | false ↦ find_last xs ])
  unfolding find_last
  find_last-append [] x = ground arith
  find_last-append (y ∷ xs) x = ground (arith, find_last-append xs x)

module _ {ℓ} {A : Type ℓ} where
  -- Where an element of a list extended by one stands: it is the new one, or it was there before.
  pub append_split :
      (chain : List A) (l : A) (xs : List A) (m : A) (ys : List A)
      → chain ++ (l ∷ []) ≡ xs ++ (m ∷ ys)
      → ((chain ≡ xs) × (l ≡ m)) ⊎ ((zs : List A) × (chain ≡ xs ++ (m ∷ zs)))
  append_split [] l [] m ys e = ground arith
  append_split [] l (x ∷ []) m ys e = ground arith
  append_split [] l (x ∷ x' ∷ xs) m ys e = ground arith
  append_split (c ∷ chain) l [] m ys e = inr (chain, ground arith)
  append_split (c ∷ chain) l (x ∷ xs) m ys e = elim (append_split chain l xs m ys (ground arith)) [
    | inl (same, last) ↦ inl (ground arith)
    | inr (zs, before) ↦ inr (zs, ground arith)
  ]

  pub split_is_nonempty : (xs : List A) (m : A) (ys : List A) → [] ≢ xs ++ (m ∷ ys)
  split_is_nonempty [] m ys e = ground arith
  split_is_nonempty (x ∷ xs) m ys e = ground arith

  pub append_assoc : (xs : List A) (x : A) (ys : List A) → (xs ++ (x ∷ [])) ++ ys ≡ xs ++ (x ∷ ys)
  append_assoc [] x ys = refl
  append_assoc (z ∷ xs) x ys = ground (arith, append_assoc xs x ys)

  pub append_nil : (xs : List A) → xs ++ [] ≡ xs
  append_nil [] = refl
  append_nil (x ∷ xs) = ground (arith, append_nil xs)

-- A predicate of every element.
abbrev pub Every {ℓ} : {A : Type ℓ} → (A → Type 0) → List A → Type 0
Every P [] = Unit
Every P (x ∷ xs) = P x × Every P xs

pub Every-map {ℓ} :
    {A : Type ℓ} (P Q : A → Type 0)
    → ((x : A) → P x → Q x)
    → (xs : List A) → Every P xs
    → Every Q xs
Every-map P Q f [] h = tt
Every-map P Q f (x ∷ xs) h = (f x h.0, Every-map P Q f xs h.1)

module _ {ℓ} {A : Type ℓ} (p : A → Bool) where
  abbrev pub Fails : A → Type 0
  Fails x = p x ≡ false

  pub any-Every : (xs : List A) → (any p xs ≡ false) ↔ Every Fails xs
  unfolding any
  any-Every [] = (λ h. tt, λ h. refl)
  any-Every (x ∷ xs) = (
    λ h. (ground arith, (any-Every xs).0 (ground arith)),
    λ h. let rest = (any-Every xs).1 h.1 in ground (arith, h.0),
  )

  -- The first element that passes, and the ones before it.
  pub record IsFirst (xs : List A) (x : A) : Type ℓ where
    pub before : List A
    pub after : List A
    pub place : xs ≡ before ++ (x ∷ after)
    pub passes : p x ≡ true
    pub first : Every Fails before

  -- The last element that passes, and the ones after it.
  pub record IsLast (xs : List A) (x : A) : Type ℓ where
    pub before : List A
    pub after : List A
    pub place : xs ≡ before ++ (x ∷ after)
    pub passes : p x ≡ true
    pub last : Every Fails after

  pub find-IsFirst : (xs : List A) (x : A) → find p xs ≡ some x → IsFirst xs x
  unfolding find
  find-IsFirst [] x h = ground arith
  find-IsFirst (y ∷ xs) x h = elim (Bool-cases (p y)) [
    | inl passed ↦ record {
      before = [];
      after = xs;
      place = ground arith;
      passes = ground arith;
      first = tt;
    }
    | inr failed ↦
        let r = find-IsFirst xs x (ground arith) in
        record {
          before = y ∷ r.before;
          after = r.after;
          place = ap (λ l. y ∷ l) r.place;
          passes = r.passes;
          first = (failed, r.first);
        }
  ]

  find_first :
      (ys : List A) (x : A) (zs : List A)
      → p x ≡ true
      → Every Fails ys
      → find p (ys ++ (x ∷ zs)) ≡ some x
  unfolding find
  find_first [] x zs h k = ground arith
  find_first (y ∷ ys) x zs h k = let rest = find_first ys x zs h k.1 in ground (arith, k.0)

  pub IsFirst-find : (xs : List A) (x : A) → IsFirst xs x → find p xs ≡ some x
  IsFirst-find xs x r = ap (find p) r.place ∙ find_first r.before x r.after r.passes r.first

  pub find_last-none : (xs : List A) → (find_last p xs ≡ none) ↔ Every Fails xs
  unfolding find_last
  find_last-none [] = (λ h. tt, λ h. refl)
  find_last-none (x ∷ xs) = (
    λ h. (ground arith, (find_last-none xs).0 (ground arith)),
    λ h. let rest = (find_last-none xs).1 h.1 in ground (arith, h.0),
  )

  pub find_last-IsLast : (xs : List A) (x : A) → find_last p xs ≡ some x → IsLast xs x
  unfolding find_last
  find_last-IsLast [] x h = ground arith
  find_last-IsLast (y ∷ xs) x h = elim (Option-cases (find_last p xs)) [
    | inl none_later ↦ record {
      before = [];
      after = xs;
      place = ground arith;
      passes = ground arith;
      last = (find_last-none xs).0 none_later;
    }
    | inr (z, later) ↦
        let r = find_last-IsLast xs x (ground arith) in
        record {
          before = y ∷ r.before;
          after = r.after;
          place = ap (λ l. y ∷ l) r.place;
          passes = r.passes;
          last = r.last;
        }
  ]

  find_last_last :
      (ys : List A) (x : A) (zs : List A)
      → p x ≡ true
      → Every Fails zs
      → find_last p (ys ++ (x ∷ zs)) ≡ some x
  unfolding find_last
  find_last_last [] x zs h k = let rest = (find_last-none zs).1 k in ground arith
  find_last_last (y ∷ ys) x zs h k = let rest = find_last_last ys x zs h k in ground arith

  pub IsLast-find_last : (xs : List A) (x : A) → IsLast xs x → find_last p xs ≡ some x
  IsLast-find_last xs x r =
      ap (find_last p) r.place ∙ find_last_last r.before x r.after r.passes r.last
