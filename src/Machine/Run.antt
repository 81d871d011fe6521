-- ===== src/Machine/Run.antt =====
-- The inputs of the state machine in the order in which they arrive: observations of attestations
-- and of verified upgrade links, and operations.
use enclavia.Base.{List, [], ◌∷◌}
use enclavia.Machine.{
  PcrKey, ControlPubkey, Op, StateMachine, observe_attestation, observe_transition, apply,
}

pub data Input : Type 0 where
  attest : (key : PcrKey) (control_pubkey : ControlPubkey) → Input
  authorize : (old_key new_key : PcrKey) → Input
  submit : Op → Input

abbrev pub feed : StateMachine → Input → StateMachine
feed sm (attest key control_pubkey) = observe_attestation sm key control_pubkey
feed sm (authorize old_key new_key) = observe_transition sm old_key new_key
feed sm (submit op) = (apply sm op).0

abbrev pub run : StateMachine → List Input → StateMachine
run sm [] = sm
run sm (i ∷ is) = run (feed sm i) is

-- What every input keeps, every run keeps.
pub run_induction {ℓ} :
    (P : StateMachine → Type ℓ)
    → ((sm : StateMachine) (i : Input) → P sm → P (feed sm i))
    → (sm : StateMachine) (is : List Input) → P sm
    → P (run sm is)
run_induction P keep sm [] h = h
run_induction P keep sm (i ∷ is) h = run_induction P keep (feed sm i) is (keep sm i h)
