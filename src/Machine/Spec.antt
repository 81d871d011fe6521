-- ===== src/Machine/Spec.antt =====
-- The specification that synchronizer/src/lib.rs translates: the committed log as seen from
-- outside, with the `ValidOp` predicate and the `ApplyOp` operator as its documentation gives
-- them. A view has functions where the machine has ordered containers.
use enclavia.Base.{
  ◌≡◌, ◌≢◌, Bool, true, false, ◌&&◌, ◌||◌, ◌==◌, if◌then◌else◌, Option, none, some, Result, ok, err,
}
use enclavia.Base.BTreeMap
use enclavia.Base.BTreeSet
use enclavia.Base.Key.{nat_key, pair_key}
use enclavia.Machine.{
  PcrKey, Commitment, ControlPubkey, LinkHash, KeyState, Op, register, pin, transition, revoke,
  StateMachine, is_revoked, next_version,
}

pub record View : Type 0 where
  pub head : PcrKey → Option KeyState
  pub attested : PcrKey → Option ControlPubkey
  pub authorized : PcrKey → PcrKey → Bool
  pub retired : PcrKey → Bool
  pub revoked : PcrKey → LinkHash → Bool

abbrev pub view : StateMachine → View
view sm = record {
  head = BTreeMap.get sm.state;
  attested = BTreeMap.get sm.attested;
  authorized = λ old_key new_key. BTreeSet.contains sm.transition_authorizations (old_key, new_key);
  retired = BTreeSet.contains sm.retired;
  revoked = is_revoked sm;
}

-- Two views that no query tells apart.
pub record SameView (a b : View) : Type 0 where
  pub head : (k : PcrKey) → a.head k ≡ b.head k
  pub attested : (k : PcrKey) → a.attested k ≡ b.attested k
  pub authorized : (k j : PcrKey) → a.authorized k j ≡ b.authorized k j
  pub retired : (k : PcrKey) → a.retired k ≡ b.retired k
  pub revoked : (k : PcrKey) (h : LinkHash) → a.revoked k h ≡ b.revoked k h

abbrev pub Holds : Option KeyState → (KeyState → Type 0) → Type 0
Holds none P = ⊥
Holds (some s) P = P s

abbrev pub Present {ℓ} : {A : Type ℓ} → Option A → Type 0
Present none = ⊥
Present (some _) = Unit

-- `ValidOp`
abbrev pub ValidOp : View → Op → Type 0
ValidOp v (register key _) =
    Present (v.attested key) × (v.head key ≡ none) × (v.retired key ≡ false)
ValidOp v (pin key expected_version _) = Holds (v.head key) (λ s. s.version ≡ expected_version)
ValidOp v (transition old_key new_key link_hash commitment) =
    (old_key ≢ new_key)
    × Holds (v.head old_key) (λ s. s.commitment ≡ commitment)
    × (v.revoked old_key link_hash ≡ false)
    × (v.head new_key ≡ none)
    × (v.retired new_key ≡ false)
    × Present (v.attested new_key)
    × (v.authorized old_key new_key ≡ true)
ValidOp v (revoke key _) = (v.retired key ≡ false) × Present (v.head key)

abbrev pub registered : Commitment → Option ControlPubkey → Option KeyState
registered c none = none
registered c (some pk) = some (record { commitment = c; version = 0; control_pubkey = pk })

abbrev pub repinned : Commitment → Option KeyState → Option KeyState
repinned c none = none
repinned c (some s) = some (record s { commitment = c; version = next_version s.version })

-- The successor's state: the predecessor's, under the successor's own public key.
abbrev pub adopted : Option ControlPubkey → Option KeyState → Option KeyState
adopted (some pk) (some s) = some (record s { control_pubkey = pk })
adopted _ _ = none

-- `ApplyOp`, on a view in which the operation is valid
abbrev pub apply_op : View → Op → View
apply_op v (register key commitment) = record v {
  head = λ k. if key == k then registered commitment (v.attested key) else v.head k;
}
apply_op v (pin key _ commitment) = record v {
  head = λ k. if key == k then repinned commitment (v.head key) else v.head k;
}
apply_op v (transition old_key new_key _ _) = record v {
  head = λ k.
      if new_key == k
      then adopted (v.attested new_key) (v.head old_key)
      else if old_key == k
      then none
      else v.head k;
  retired = λ k. old_key == k || v.retired k;
}
apply_op v (revoke key link_hash) = record v {
  revoked = λ k h. (key == k && link_hash == h) || v.revoked k h;
}

-- The key whose state a successful operation returns.
abbrev pub touched : Op → PcrKey
touched (register key _) = key
touched (pin key _ _) = key
touched (transition _ new_key _ _) = new_key
touched (revoke key _) = key

abbrev pub IsOk {ℓ κ} : {A : Type ℓ} {E : Type κ} → Result A E → Type 0
IsOk (ok _) = Unit
IsOk (err _) = ⊥
