-- ===== src/Machine/Invariant.antt =====
-- The well-formedness invariant of the state machine.
use enclavia.Base.{
  ℕ, zero, ◌+◌, ◌<◌, ◌≡◌, refl, Bool, true, false, ◌||◌, ◌==◌, if◌then◌else◌, Option, none, some,
  List, [], Result, ok, err, arith,
}
use enclavia.Base.BTreeMap
use enclavia.Base.BTreeMap.{get-insert, get-remove}
use enclavia.Base.BTreeMap.Sorted
use enclavia.Base.BTreeSet
use enclavia.Base.BTreeSet.{contains-insert}
use enclavia.Base.BTreeSet.Sorted as SortedSet
use enclavia.Base.Key.{nat_key, pair_key, nat_beq_iff}
use enclavia.Machine.{
  PcrKey, KeyState, Op, register, pin, transition, revoke, StateMachine, init, u64_mod,
  observe_attestation, observe_transition, apply,
}
use enclavia.Machine.Run.{Input, attest, authorize, submit, feed, run, run_induction}

-- The containers keep their entries in order.
pub record IsOrdered (sm : StateMachine) : Type 0 where
  pub state : Sorted.IsSorted sm.state
  pub attested : Sorted.IsSorted sm.attested
  pub authorizations : SortedSet.IsSorted sm.transition_authorizations
  pub retired : SortedSet.IsSorted sm.retired
  pub revoked : Sorted.IsSorted sm.revoked_links

pub record IsValid (sm : StateMachine) : Type 0 where
  pub ordered : IsOrdered sm
  pub live :
      (k : PcrKey)
      → BTreeMap.contains_key sm.state k ≡ true
      → BTreeSet.contains sm.retired k ≡ false
  pub proven :
      (k : PcrKey)
      → BTreeMap.contains_key sm.state k ≡ true
      → BTreeMap.contains_key sm.attested k ≡ true
  pub known :
      (k : PcrKey)
      → BTreeMap.contains_key sm.revoked_links k ≡ true
      → (BTreeMap.contains_key sm.state k || BTreeSet.contains sm.retired k) ≡ true
  pub bounded : (k : PcrKey) (s : KeyState) → BTreeMap.get sm.state k ≡ some s → s.version < u64_mod

apply-IsOrdered : (sm : StateMachine) (op : Op) → IsOrdered sm → IsOrdered (apply sm op).0
unfolding apply
apply-IsOrdered sm (register key c) v =
    grind (arith, Sorted.insert-IsSorted, Sorted.remove-IsSorted, SortedSet.insert-IsSorted)
apply-IsOrdered sm (pin key e c) v =
    grind (arith, Sorted.insert-IsSorted, Sorted.remove-IsSorted, SortedSet.insert-IsSorted)
apply-IsOrdered sm (transition o n l c) v =
    grind (arith, Sorted.insert-IsSorted, Sorted.remove-IsSorted, SortedSet.insert-IsSorted)
apply-IsOrdered sm (revoke key l) v =
    grind (arith, Sorted.insert-IsSorted, Sorted.remove-IsSorted, SortedSet.insert-IsSorted)

pub ruleset containers = (arith, get-insert, get-remove, contains-insert, nat_beq_iff)

apply-live :
    (sm : StateMachine) (op : Op)
    → IsValid sm
    → (k : PcrKey) → BTreeMap.contains_key (apply sm op).0.state k ≡ true
    → BTreeSet.contains (apply sm op).0.retired k ≡ false
unfolding apply
apply-live sm (register key c) v k h = grind (containers, v.live)
apply-live sm (pin key e c) v k h = grind (containers, v.live)
apply-live sm (transition o n l c) v k h = grind (containers, v.live)
apply-live sm (revoke key l) v k h = grind (containers, v.live)

apply-proven :
    (sm : StateMachine) (op : Op)
    → IsValid sm
    → (k : PcrKey) → BTreeMap.contains_key (apply sm op).0.state k ≡ true
    → BTreeMap.contains_key (apply sm op).0.attested k ≡ true
unfolding apply
apply-proven sm (register key c) v k h = grind (containers, v.proven)
apply-proven sm (pin key e c) v k h = grind (containers, v.proven)
apply-proven sm (transition o n l c) v k h = grind (containers, v.proven)
apply-proven sm (revoke key l) v k h = grind (containers, v.proven)

apply-known :
    (sm : StateMachine) (op : Op)
    → IsValid sm
    → (k : PcrKey) → BTreeMap.contains_key (apply sm op).0.revoked_links k ≡ true
    → (BTreeMap.contains_key (apply sm op).0.state k || BTreeSet.contains (apply sm op).0.retired k)
      ≡ true
unfolding apply
apply-known sm (register key c) v k h = grind (containers, v.known)
apply-known sm (pin key e c) v k h = grind (containers, v.known)
apply-known sm (transition o n l c) v k h = grind (containers, v.known)
apply-known sm (revoke key l) v k h = grind (containers, v.known)

apply-bounded :
    (sm : StateMachine) (op : Op)
    → IsValid sm
    → (k : PcrKey) (s : KeyState) → BTreeMap.get (apply sm op).0.state k ≡ some s
    → s.version < u64_mod
unfolding apply
apply-bounded sm (register key c) v k s h = grind (containers, v.bounded)
apply-bounded sm (pin key e c) v k s h = grind (containers, v.bounded)
apply-bounded sm (transition o n l c) v k s h = grind (containers, v.bounded)
apply-bounded sm (revoke key l) v k s h = grind (containers, v.bounded)

-- Every operation, committed or refused, keeps the machine valid.
pub apply-IsValid : (sm : StateMachine) (op : Op) → IsValid sm → IsValid (apply sm op).0
apply-IsValid sm op v = record {
  ordered = apply-IsOrdered sm op v.ordered;
  live = apply-live sm op v;
  proven = apply-proven sm op v;
  known = apply-known sm op v;
  bounded = apply-bounded sm op v;
}

pub feed-IsValid : (sm : StateMachine) (i : Input) → IsValid sm → IsValid (feed sm i)
unfolding observe_attestation observe_transition
feed-IsValid sm (attest key pk) v = record {
  ordered = record {
    state = v.ordered.state;
    attested = Sorted.insert-IsSorted sm.attested key pk v.ordered.attested;
    authorizations = v.ordered.authorizations;
    retired = v.ordered.retired;
    revoked = v.ordered.revoked;
  };
  live = v.live;
  proven = λ k h. ground (arith, get-insert sm.attested key pk k, v.proven k h);
  known = v.known;
  bounded = v.bounded;
}
feed-IsValid sm (authorize o n) v = record {
  ordered = record {
    state = v.ordered.state;
    attested = v.ordered.attested;
    authorizations =
        SortedSet.insert-IsSorted sm.transition_authorizations (o, n) v.ordered.authorizations;
    retired = v.ordered.retired;
    revoked = v.ordered.revoked;
  };
  live = v.live;
  proven = v.proven;
  known = v.known;
  bounded = v.bounded;
}
feed-IsValid sm (submit op) v = apply-IsValid sm op v

init-IsValid : IsValid init
unfolding BTreeMap.get
init-IsValid = record {
  ordered = record { state = tt; attested = tt; authorizations = tt; retired = tt; revoked = tt };
  live = λ k h. cc;
  proven = λ k h. cc;
  known = λ k h. cc;
  bounded = λ k s h. cc;
}

-- Whatever inputs arrive, in whatever order, the machine that started empty is valid: the
-- containers are in order, no live key is retired, every live key was attested, revocations stand
-- for live or retired keys only, and versions fit in a `u64`.
pub run-IsValid : (is : List Input) → IsValid (run init is)
run-IsValid is = run_induction IsValid feed-IsValid init is init-IsValid
