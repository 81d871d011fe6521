-- ===== src/Base/Key.antt =====
-- Keys of the ordered containers: what `Ord` gives Rust's `BTreeMap` and `BTreeSet`. A byte array
-- is the number that its bytes spell, most significant first, so that its derived order is `<`.
use Prim.Native.Nat.{ℕ}
use mathlib.Core.Path.{◌≡◌}
use mathlib.Core.Logic.{◌↔◌}
use mathlib.Core.Bool.{Bool, true, false, ◌&&◌, ◌||◌}
use native.Mathlib.Omega.{arith}
use enclavia.Base.Tests.{ltb, ◌==◌}

pub record Key {ℓ} (K : Type ℓ) : Type ℓ where
  pub beq : K → K → Bool
  pub lt : K → K → Bool
  pub beq_iff : (a b : K) → (beq a b ≡ true) ↔ (a ≡ b)
  pub lt_irrefl : (a : K) → lt a a ≡ false
  pub lt_trans : (a b c : K) → lt a b ≡ true → lt b c ≡ true → lt a c ≡ true
  pub lt_total : (a b : K) → beq a b ≡ false → lt a b ≡ false → lt b a ≡ true

pub nat_beq_iff : (a b : ℕ) → ((a == b) ≡ true) ↔ (a ≡ b)
nat_beq_iff a b = ground arith

pub nat_irrefl : (a : ℕ) → ltb a a ≡ false
nat_irrefl a = ground arith

pub nat_trans : (a b c : ℕ) → ltb a b ≡ true → ltb b c ≡ true → ltb a c ≡ true
nat_trans a b c p q = ground arith

pub nat_total : (a b : ℕ) → (a == b) ≡ false → ltb a b ≡ false → ltb b a ≡ true
nat_total a b p q = ground arith

instance abbrev pub nat_key : Key ℕ
nat_key = record {
  beq = ◌==◌;
  lt = ltb;
  beq_iff = nat_beq_iff;
  lt_irrefl = nat_irrefl;
  lt_trans = nat_trans;
  lt_total = nat_total;
}

-- Pairs of numbers, in the lexicographic order that Rust derives for tuples.
abbrev pub pair_beq : ℕ × ℕ → ℕ × ℕ → Bool
pair_beq a b = (a.0 == b.0) && (a.1 == b.1)

abbrev pub pair_lt : ℕ × ℕ → ℕ × ℕ → Bool
pair_lt a b = ltb a.0 b.0 || (a.0 == b.0) && ltb a.1 b.1

pub pair_beq_iff : (a b : ℕ × ℕ) → (pair_beq a b ≡ true) ↔ (a ≡ b)
pair_beq_iff a b = ground arith

pub pair_irrefl : (a : ℕ × ℕ) → pair_lt a a ≡ false
pair_irrefl a = ground arith

pub pair_trans : (a b c : ℕ × ℕ) → pair_lt a b ≡ true → pair_lt b c ≡ true → pair_lt a c ≡ true
pair_trans a b c p q = ground arith

pub pair_total : (a b : ℕ × ℕ) → pair_beq a b ≡ false → pair_lt a b ≡ false → pair_lt b a ≡ true
pair_total a b p q = ground arith

instance abbrev pub pair_key : Key (ℕ × ℕ)
pair_key = record {
  beq = pair_beq;
  lt = pair_lt;
  beq_iff = pair_beq_iff;
  lt_irrefl = pair_irrefl;
  lt_trans = pair_trans;
  lt_total = pair_total;
}
