-- ===== src/Machine/Tests.antt =====
-- The state machine at concrete inputs: two enclaves, the first registered and then succeeded by
-- the second.
use enclavia.Base.{◌≡◌, refl, ◌↔◌, ◌⊎◌, none, List, [], ◌∷◌, arith}
use enclavia.Base.BTreeMap
use enclavia.Base.BTreeSet
use enclavia.Base.Key.{nat_key, pair_key}
use enclavia.Machine.{
  KeyState, Op, register, pin, transition, revoke, StateMachine, init, apply, is_revoked,
  observe_attestation, observe_transition,
}
use enclavia.Machine.Spec.{view, SameView, ValidOp, apply_op, Holds, IsOk}
use enclavia.Machine.Run.{Input, attest, authorize, submit, run}
use enclavia.Machine.Invariant.{IsValid, apply-IsValid, run-IsValid}
use enclavia.Machine.Refinement.{apply-ValidOp, apply-refines}
use enclavia.Machine.Finality.{Retired, Names, retirement_is_final, revocation_is_permanent}
use enclavia.Machine.History.{Follows, live_key_history, pin_wins_once}
use enclavia.Machine.Snapshot.{snapshot, restore_from_snapshot, restore-snapshot}

abbrev arrivals : List Input
arrivals =
    attest 1 10 ∷ attest 2 20 ∷ authorize 1 2 ∷ submit (register 1 100) ∷ submit (pin 1 0 101) ∷ []

abbrev before : StateMachine
before = run init arrivals

abbrev cutover : Op
cutover = transition 1 2 7 101

abbrev entry : KeyState
entry = record { commitment = 101; version = 1; control_pubkey = 10 }

abbrev moved : KeyState
moved = record { commitment = 101; version = 1; control_pubkey = 20 }

run-IsValid_example : IsValid (run init arrivals)
run-IsValid_example = run-IsValid arrivals

apply-IsValid_example : IsValid (apply before cutover).0
apply-IsValid_example = apply-IsValid before cutover (run-IsValid arrivals)

apply-ValidOp_example : IsOk (apply before cutover).1 ↔ ValidOp (view before) cutover
apply-ValidOp_example = apply-ValidOp before cutover

apply-refines_example : SameView (view (apply before cutover).0) (apply_op (view before) cutover)
unfolding apply is_revoked observe_attestation observe_transition BTreeMap.get BTreeMap.insert
    BTreeMap.remove BTreeSet.contains BTreeSet.insert
apply-refines_example = apply-refines before cutover moved refl

retirement_is_final_example :
    Retired 1 (run (apply before cutover).0 arrivals)
    × (BTreeMap.get (run (apply before cutover).0 arrivals).state 1 ≡ none)
    × ((op : Op) → Names 1 op → ¬ IsOk (apply (run (apply before cutover).0 arrivals) op).1)
unfolding apply is_revoked observe_attestation observe_transition BTreeMap.get BTreeMap.insert
    BTreeMap.remove BTreeSet.contains BTreeSet.insert
retirement_is_final_example =
    retirement_is_final 1 (apply before cutover).0 arrivals
      (apply-IsValid before cutover (run-IsValid arrivals)) refl

revocation_is_permanent_example :
    ¬ IsOk (apply (run (apply before (revoke 1 7)).0 arrivals) cutover).1
unfolding apply observe_attestation observe_transition BTreeMap.get BTreeMap.insert
    BTreeSet.contains BTreeSet.insert
revocation_is_permanent_example = revocation_is_permanent before 1 7 entry refl arrivals 2 101

live_key_history_example :
    Retired 1 (run before (submit cutover ∷ []))
    ⊎ Holds (BTreeMap.get (run before (submit cutover ∷ [])).state 1) (Follows entry)
unfolding apply observe_attestation observe_transition BTreeMap.get BTreeMap.insert
    BTreeSet.contains BTreeSet.insert
live_key_history_example = live_key_history 1 entry before (submit cutover ∷ []) refl (omega arith)

pin_wins_once_example :
    ¬ IsOk (apply (run (apply before (pin 1 1 102)).0 (submit (pin 1 2 103) ∷ [])) (pin 1 1 104)).1
unfolding apply observe_attestation observe_transition BTreeMap.get BTreeMap.insert
    BTreeSet.contains BTreeSet.insert
pin_wins_once_example =
    pin_wins_once before 1 1 102 (record { commitment = 102; version = 2; control_pubkey = 10 })
      (submit (pin 1 2 103) ∷ []) (run-IsValid arrivals) refl (omega arith) 1 104 (omega arith)

restore-snapshot_example : restore_from_snapshot init (snapshot before) ≡ before
restore-snapshot_example = restore-snapshot init before (run-IsValid arrivals).ordered
