-- ===== src/Machine/Refinement.antt =====
-- `apply` against the specification: it commits exactly the valid operations, with the effect of
-- `ApplyOp`, and a refused operation changes nothing.
use enclavia.Base.{◌≡◌, ◌↔◌, refl, ◌&&◌, ◌||◌, ◌==◌, Bool-cases, inl, inr, some, ok, err, arith}
use enclavia.Base.BTreeMap
use enclavia.Base.BTreeMap.{BTreeMap, get-insert, get-remove}
use enclavia.Base.BTreeSet
use enclavia.Base.BTreeSet.{BTreeSet, contains-nil, contains-insert}
use enclavia.Base.Key.{nat_key, pair_key, nat_beq_iff}
use enclavia.Machine.{
  PcrKey, LinkHash, KeyState, Op, register, pin, transition, revoke, StateMachine, ValidationError,
  is_revoked, hashes_of, covers, apply,
}
use enclavia.Machine.Spec.{View, view, SameView, ValidOp, apply_op, touched, IsOk}

-- A refused operation leaves the whole machine as it was.
pub apply_err_unchanged :
    (sm : StateMachine) (op : Op) (e : ValidationError)
    → (apply sm op).1 ≡ err e
    → (apply sm op).0 ≡ sm
unfolding apply
apply_err_unchanged sm (register key c) e h = ground arith
apply_err_unchanged sm (pin key v c) e h = ground arith
apply_err_unchanged sm (transition o n l c) e h = ground arith
apply_err_unchanged sm (revoke key l) e h = ground arith

-- An operation commits exactly when it is valid.
pub apply-ValidOp : (sm : StateMachine) (op : Op) → IsOk (apply sm op).1 ↔ ValidOp (view sm) op
unfolding apply
apply-ValidOp sm (register key c) = ground arith
apply-ValidOp sm (pin key v c) = ground arith
apply-ValidOp sm (transition o n l c) = ground arith
apply-ValidOp sm (revoke key l) = ground arith

pub head-refines :
    (sm : StateMachine) (op : Op) (s : KeyState)
    → (apply sm op).1 ≡ ok s
    → (k : PcrKey) → (view (apply sm op).0).head k ≡ (apply_op (view sm) op).head k
unfolding apply
head-refines sm (register key c) s h k = ground (arith, get-insert sm.state key s k)
head-refines sm (pin key v c) s h k = ground (arith, get-insert sm.state key s k)
head-refines sm (transition o n l c) s h k =
    ground (arith, get-insert (BTreeMap.remove sm.state o) n s k, get-remove sm.state o k)
head-refines sm (revoke key l) s h k = ground arith

pub retired-refines :
    (sm : StateMachine) (op : Op) (s : KeyState)
    → (apply sm op).1 ≡ ok s
    → (k : PcrKey) → (view (apply sm op).0).retired k ≡ (apply_op (view sm) op).retired k
unfolding apply
retired-refines sm (register key c) s h k = ground arith
retired-refines sm (pin key v c) s h k = ground arith
retired-refines sm (transition o n l c) s h k = ground (arith, contains-insert sm.retired o k)
retired-refines sm (revoke key l) s h k = ground arith

covers-insert :
    (links : BTreeMap PcrKey (BTreeSet LinkHash)) (key : PcrKey) (l : LinkHash) (k : PcrKey)
    (m : LinkHash)
    → covers
        (BTreeMap.get
          (BTreeMap.insert links key (BTreeSet.insert (hashes_of (BTreeMap.get links key)) l))
          k)
        m
      ≡ (key == k && l == m || covers (BTreeMap.get links k) m)
covers-insert links key l k m = rw get-insert (elim (Bool-cases (key == k)) [
  | inl same ↦ rw same (
      rw (← (nat_beq_iff key k).0 same)
        (ground (arith, contains-insert (hashes_of (BTreeMap.get links key)) l m, contains-nil m)))
  | inr other ↦ rw other
])

pub revoked-refines :
    (sm : StateMachine) (op : Op) (s : KeyState)
    → (apply sm op).1 ≡ ok s
    → (k : PcrKey) (l : LinkHash)
    → (view (apply sm op).0).revoked k l ≡ (apply_op (view sm) op).revoked k l
unfolding apply is_revoked
revoked-refines sm (register key c) s h k m = ground arith
revoked-refines sm (pin key v c) s h k m = ground arith
revoked-refines sm (transition o n l c) s h k m = ground arith
revoked-refines sm (revoke key l) s h k m = ground (arith, covers-insert sm.revoked_links key l k m)

attested-apply : (sm : StateMachine) (op : Op) → (apply sm op).0.attested ≡ sm.attested
unfolding apply
attested-apply sm (register key c) = ground arith
attested-apply sm (pin key v c) = ground arith
attested-apply sm (transition o n l c) = ground arith
attested-apply sm (revoke key l) = ground arith

authorizations-apply :
    (sm : StateMachine) (op : Op)
    → (apply sm op).0.transition_authorizations ≡ sm.transition_authorizations
unfolding apply
authorizations-apply sm (register key c) = ground arith
authorizations-apply sm (pin key v c) = ground arith
authorizations-apply sm (transition o n l c) = ground arith
authorizations-apply sm (revoke key l) = ground arith

observed-apply_op :
    (v : View) (op : Op)
    → ((k : PcrKey) → v.attested k ≡ (apply_op v op).attested k)
      × ((k j : PcrKey) → v.authorized k j ≡ (apply_op v op).authorized k j)
observed-apply_op v (register key c) = (λ k. refl, λ k j. refl)
observed-apply_op v (pin key e c) = (λ k. refl, λ k j. refl)
observed-apply_op v (transition o n l c) = (λ k. refl, λ k j. refl)
observed-apply_op v (revoke key l) = (λ k. refl, λ k j. refl)

-- A committed operation has, on every query, the effect of `ApplyOp`.
pub apply-refines :
    (sm : StateMachine) (op : Op) (s : KeyState)
    → (apply sm op).1 ≡ ok s
    → SameView (view (apply sm op).0) (apply_op (view sm) op)
apply-refines sm op s h = record {
  head = head-refines sm op s h;
  attested = rw attested-apply ((observed-apply_op (view sm) op).0);
  authorized = rw authorizations-apply ((observed-apply_op (view sm) op).1);
  retired = retired-refines sm op s h;
  revoked = revoked-refines sm op s h;
}

-- The state that a committed operation returns is the one that the touched key then holds.
pub apply-touched :
    (sm : StateMachine) (op : Op) (s : KeyState)
    → (apply sm op).1 ≡ ok s
    → (view (apply sm op).0).head (touched op) ≡ some s
unfolding apply
apply-touched sm (register key c) s h = ground (arith, get-insert sm.state key s key)
apply-touched sm (pin key v c) s h = ground (arith, get-insert sm.state key s key)
apply-touched sm (transition o n l c) s h =
    ground (arith, get-insert (BTreeMap.remove sm.state o) n s n)
apply-touched sm (revoke key l) s h = ground arith
