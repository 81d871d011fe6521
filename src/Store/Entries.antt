-- ===== src/Store/Entries.antt =====
-- One committed entry: what it embeds is observed before its operation is applied.
use enclavia.Base.{◌≡◌, refl, List, [], ◌∷◌, arith}
use enclavia.Base.BTreeMap.{get-insert}
use enclavia.Base.BTreeSet.{contains-insert}
use enclavia.Base.Key.{nat_key, pair_key, pair_beq_iff}
use enclavia.Machine.{
  KeyState, StateMachine, ValidationError, not_attested, new_key_not_attested,
  no_transition_authorization, observe_attestation, observe_transition, apply, Outcome,
}
use enclavia.Machine
use enclavia.Machine.Invariant.{IsValid, apply-IsValid, feed-IsValid}
use enclavia.Machine.Run.{Input, attest, authorize, submit, run}
use enclavia.Store.{ReplicatedOp, register, pin, transition, revoke, rejected, apply_one}

-- An entry is the inputs that it embeds, in the machine's order.
abbrev pub inputs_of : ReplicatedOp → List Input
inputs_of (register key c pk) = attest key pk ∷ submit (Machine.Op.register key c) ∷ []
inputs_of (pin key e c) = submit (Machine.Op.pin key e c) ∷ []
inputs_of (transition o n pk l until c) =
    attest n pk ∷ authorize o n ∷ submit (Machine.Op.transition o n l c) ∷ []
inputs_of (revoke key l) = submit (Machine.Op.revoke key l) ∷ []

pub apply_one-run :
    (sm : StateMachine) (op : ReplicatedOp) → (apply_one sm op).0 ≡ run sm (inputs_of op)
unfolding apply_one
apply_one-run sm (register key c pk) = refl
apply_one-run sm (pin key e c) = refl
apply_one-run sm (transition o n pk l until c) = refl
apply_one-run sm (revoke key l) = refl

pub apply_one-IsValid :
    (sm : StateMachine) (op : ReplicatedOp) → IsValid sm → IsValid (apply_one sm op).0
unfolding apply_one
apply_one-IsValid sm (register key c pk) v = apply-IsValid _ _ (feed-IsValid sm (attest key pk) v)
apply_one-IsValid sm (pin key e c) v = apply-IsValid _ _ v
apply_one-IsValid sm (transition o n pk l until c) v =
    apply-IsValid _ _ (feed-IsValid _ (authorize o n) (feed-IsValid sm (attest n pk) v))
apply_one-IsValid sm (revoke key l) v = apply-IsValid _ _ v

-- A rejection that says that an observation is missing.
abbrev pub LacksObservation : ValidationError → Type 0
LacksObservation not_attested = Unit
LacksObservation new_key_not_attested = Unit
LacksObservation no_transition_authorization = Unit
LacksObservation _ = ⊥

-- A committed entry is never rejected for want of an observation: no entry answers `NotAttested`,
-- `NewKeyNotAttested` or `NoTransitionAuthorization`, on any replica.
pub apply_one_self_contained :
    (sm : StateMachine) (op : ReplicatedOp) (e : ValidationError)
    → (apply_one sm op).1 ≡ rejected e
    → ¬ LacksObservation e
unfolding apply_one observe_attestation observe_transition apply
apply_one_self_contained sm (register key c pk) e h l =
    ground (arith, get-insert sm.attested key pk key)
apply_one_self_contained sm (pin key v c) e h l = ground arith
apply_one_self_contained sm (transition o n pk k until c) e h l = ground (
  arith,
  get-insert sm.attested n pk n,
  contains-insert sm.transition_authorizations (o, n) (o, n),
  pair_beq_iff (o, n) (o, n),
)
apply_one_self_contained sm (revoke key k) e h l = ground arith
