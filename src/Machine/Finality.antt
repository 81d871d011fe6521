-- ===== src/Machine/Finality.antt =====
-- What only grows: retired keys stay retired, revoked links stay revoked, and the control key that
-- a registration froze stays frozen while its key is live.
use enclavia.Base.{◌≡◌, refl, ◌⊎◌, inl, inr, true, none, List, Result, ok, err, arith}
use enclavia.Base.BTreeMap
use enclavia.Base.BTreeMap.{get-insert, get-remove}
use enclavia.Base.BTreeSet
use enclavia.Base.BTreeSet.{contains-insert}
use enclavia.Base.Key.{nat_key, pair_key}
use enclavia.Machine.{
  PcrKey, Commitment, LinkHash, KeyState, Op, register, pin, transition, revoke, StateMachine,
  ValidationError, is_revoked, observe_attestation, observe_transition, apply,
}
use enclavia.Machine.Spec.{IsOk}
use enclavia.Machine.Run.{Input, attest, authorize, submit, feed, run, run_induction}
use enclavia.Machine.Invariant.{IsValid, feed-IsValid, containers}
use enclavia.Machine.Refinement.{apply_err_unchanged, revoked-refines}

abbrev pub Retired : PcrKey → StateMachine → Type 0
Retired k sm = BTreeSet.contains sm.retired k ≡ true

pub feed-Retired :
    (k : PcrKey) (sm : StateMachine) (i : Input) → Retired k sm → Retired k (feed sm i)
unfolding apply observe_attestation observe_transition
feed-Retired k sm (attest key pk) r = r
feed-Retired k sm (authorize o n) r = r
feed-Retired k sm (submit (register key c)) r = grind containers
feed-Retired k sm (submit (pin key e c)) r = grind containers
feed-Retired k sm (submit (transition o n l c)) r = grind containers
feed-Retired k sm (submit (revoke key l)) r = grind containers

pub run-Retired :
    (k : PcrKey) (sm : StateMachine) (is : List Input) → Retired k sm → Retired k (run sm is)
run-Retired k = run_induction (Retired k) (feed-Retired k)

abbrev pub IsRevoked : PcrKey → LinkHash → StateMachine → Type 0
IsRevoked k l sm = is_revoked sm k l ≡ true

apply-IsRevoked :
    (k : PcrKey) (l : LinkHash) (sm : StateMachine) (op : Op)
    → IsRevoked k l sm
    → (r : Result KeyState ValidationError) → (apply sm op).1 ≡ r
    → IsRevoked k l (apply sm op).0
apply-IsRevoked k l sm op h (err e) p = rw (apply_err_unchanged sm op e p) h
apply-IsRevoked k l sm (register key c) h (ok s) p =
    rw (revoked-refines sm (register key c) s p k l) h
apply-IsRevoked k l sm (pin key e c) h (ok s) p = rw (revoked-refines sm (pin key e c) s p k l) h
apply-IsRevoked k l sm (transition o n m c) h (ok s) p =
    rw (revoked-refines sm (transition o n m c) s p k l) h
apply-IsRevoked k l sm (revoke key m) h (ok s) p =
    rw (revoked-refines sm (revoke key m) s p k l) (ground arith)

pub feed-IsRevoked :
    (k : PcrKey) (l : LinkHash) (sm : StateMachine) (i : Input)
    → IsRevoked k l sm
    → IsRevoked k l (feed sm i)
unfolding observe_attestation observe_transition is_revoked
feed-IsRevoked k l sm (attest key pk) h = h
feed-IsRevoked k l sm (authorize o n) h = h
feed-IsRevoked k l sm (submit op) h = apply-IsRevoked k l sm op h _ refl

pub not-live_of_Retired :
    (k : PcrKey) (sm : StateMachine) → IsValid sm → Retired k sm → BTreeMap.get sm.state k ≡ none
not-live_of_Retired k sm v r = ground (arith, v.live k)

-- The operations that act on a key: on the key itself, away from it, or onto it.
abbrev pub Names : PcrKey → Op → Type 0
Names k (register key _) = key ≡ k
Names k (pin key _ _) = key ≡ k
Names k (transition old_key new_key _ _) = (old_key ≡ k) ⊎ (new_key ≡ k)
Names k (revoke key _) = key ≡ k

refused_of_Retired :
    (k : PcrKey) (sm : StateMachine)
    → BTreeSet.contains sm.retired k ≡ true
    → BTreeMap.get sm.state k ≡ none
    → (op : Op) → Names k op
    → ¬ IsOk (apply sm op).1
unfolding apply
refused_of_Retired k sm r n (register key c) h = ground arith
refused_of_Retired k sm r n (pin key e c) h = ground arith
refused_of_Retired k sm r n (transition o w l c) (inl h) = ground arith
refused_of_Retired k sm r n (transition o w l c) (inr h) = ground arith
refused_of_Retired k sm r n (revoke key l) h = ground arith

-- Retirement is final. From a valid machine in which `k` is retired, whatever inputs follow, `k`
-- stays retired, has no state, and every operation that names it, as its key, its old key or its
-- new key, is refused.
pub retirement_is_final :
    (k : PcrKey) (sm : StateMachine) (is : List Input)
    → IsValid sm
    → Retired k sm
    → Retired k (run sm is)
      × (BTreeMap.get (run sm is).state k ≡ none)
      × ((op : Op) → Names k op → ¬ IsOk (apply (run sm is) op).1)
retirement_is_final k sm is v r =
    let r' = run-Retired k sm is r in
    let n = not-live_of_Retired k _ (run_induction IsValid feed-IsValid sm is v) r' in
    (r', n, refused_of_Retired k _ r' n)

pub refused_of_IsRevoked :
    (sm : StateMachine) (o n : PcrKey) (l : LinkHash) (c : Commitment)
    → IsRevoked o l sm
    → ¬ IsOk (apply sm (transition o n l c)).1
unfolding apply
refused_of_IsRevoked sm o n l c h = ground arith

pub IsRevoked-revoke :
    (sm : StateMachine) (k : PcrKey) (l : LinkHash) (s : KeyState)
    → (apply sm (revoke k l)).1 ≡ ok s
    → IsRevoked k l (apply sm (revoke k l)).0
IsRevoked-revoke sm k l s h = rw (revoked-refines sm (revoke k l) s h k l) (ground arith)

-- A revocation is permanent. Once a `Revoke` of the link hash `l` out of `k` has committed,
-- whatever inputs follow, every transition out of `k` that presents `l` is refused, to whatever
-- key and with whatever commitment.
pub revocation_is_permanent :
    (sm : StateMachine) (k : PcrKey) (l : LinkHash) (s : KeyState)
    → (apply sm (revoke k l)).1 ≡ ok s
    → (is : List Input) (n : PcrKey) (c : Commitment)
    → ¬ IsOk (apply (run (apply sm (revoke k l)).0 is) (transition k n l c)).1
revocation_is_permanent sm k l s h is n c =
    refused_of_IsRevoked _ k n l c
      (run_induction (IsRevoked k l) (feed-IsRevoked k l) _ is (IsRevoked-revoke sm k l s h))
