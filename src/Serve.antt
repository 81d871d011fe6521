-- ===== src/Serve.antt =====
-- synchronizer/src/raft/serve.rs: a session's requests on the leader of the cluster, and the calls
-- of `RaftHandle` in raft/mod.rs that they make. openraft is a parameter: what it makes of a
-- submitted operation within the commit timeout, whether it confirms a read, and the state machine
-- that this node has applied. The calls return its state after them.
pub mod Replicated
pub mod Acknowledged
mod Tests
use enclavia.Base.{
  ℕ, Bool, true, false, not, ◌==◌, if◌then◌else◌, Option, none, some, Result, ok, err,
}
use enclavia.Base.BTreeMap
use enclavia.Base.Key.{nat_key}
use enclavia.Machine.{
  PcrKey, Commitment, Version, ControlPubkey, KeyState, StateMachine, ValidationError,
  key_not_current,
}
use enclavia.Protocol.Chain.{ChainLink}
use enclavia.Wire.{
  Request, get, register, pin, transition, revoke, Response, get_ok, register_ok, pin_ok,
  transition_ok, revoke_ok, error, RpcError, unauthorized, not_found, transition_rejected,
  revocation_rejected, unavailable, rpc_error,
}
use enclavia.Wire.Links.{
  Verifier, DecodedTransition, VerifiedTransition, decode_transition_link, verify_transition_link,
  verify_revocation_link,
}
use enclavia.Node.{transition_error}
use enclavia.Store.{ReplicatedOp, ReplicatedOpResult, applied, rejected}

-- What a wait for openraft ends with: its answer, its error, or the commit timeout.
pub data Waited (A : Type 0) : Type 0 where
  answered : A → Waited A
  failed elapsed : Waited A

pub record OpenRaft (R : Type 0) : Type 0 where
  pub submit : R → ReplicatedOp → R × Waited ReplicatedOpResult
  pub ensure_linearizable : R → R × Waited (Unit {0})
  pub state_machine : R → StateMachine

-- The errors that these calls return.
pub data RaftHandleError : Type 0 where
  rejected_by : ValidationError → RaftHandleError
  raft not_linearizable commit_timeout : RaftHandleError

pub record Answered : Type 0 where
  pub response : Response
  pub timed_out : Bool

abbrev pub answer : Response → Answered
answer response = record { response = response; timed_out = false }

abbrev pub deadline_elapsed : Answered
deadline_elapsed = record { response = error unavailable; timed_out = true }

abbrev pub refuse : RpcError → Answered
refuse e = answer (error e)

abbrev pub written : Waited ReplicatedOpResult → Result KeyState RaftHandleError
written (answered (applied state)) = ok state
written (answered (rejected e)) = err (rejected_by e)
written failed = err raft
written elapsed = err commit_timeout

-- The answer to a write, from the response to an applied one and the error of a rejected one.
abbrev pub after_write :
    (KeyState → Response)
    → (ValidationError → RpcError)
    → Result KeyState RaftHandleError
    → Answered
after_write f g (ok state) = answer (f state)
after_write f g (err (rejected_by e)) = refuse (g e)
after_write f g (err commit_timeout) = deadline_elapsed
after_write f g (err raft) = refuse unavailable
after_write f g (err not_linearizable) = refuse unavailable

module _ {R : Type 0} (open_raft : OpenRaft R) where
  open open_raft use {submit, ensure_linearizable, state_machine}

  unfoldable pub client_write : R → ReplicatedOp → R × Result KeyState RaftHandleError
  client_write r op = let (after, waited) = submit r op in (after, written waited)

  abbrev read_at : R → PcrKey → Waited (Unit {0}) → Result (Option KeyState) RaftHandleError
  read_at r key (answered _) = ok (BTreeMap.get (state_machine r).state key)
  read_at r key failed = err not_linearizable
  read_at r key elapsed = err commit_timeout

  unfoldable pub linearizable_get : R → PcrKey → R × Result (Option KeyState) RaftHandleError
  linearizable_get r key =
      let (after, waited) = ensure_linearizable r in (after, read_at after key waited)

  -- Submit an operation and answer from its result.
  unfoldable pub write :
      R → ReplicatedOp → (KeyState → Response) → (ValidationError → RpcError) → R × Answered
  unfolding client_write
  write r op f g = let (after, result) = client_write r op in (after, after_write f g result)

  abbrev pub after_read : Result (Option KeyState) RaftHandleError → Answered
  after_read (ok (some state)) = answer (get_ok state.commitment state.version)
  after_read (ok none) = refuse not_found
  after_read (err commit_timeout) = deadline_elapsed
  after_read (err e) = refuse unavailable

  unfoldable pub handle_get : R → PcrKey → PcrKey → R × Answered
  unfolding linearizable_get
  handle_get r session_key key = elim (key == session_key) [
    | false ↦ (r, refuse unauthorized)
    | true ↦ let (after, result) = linearizable_get r key in (after, after_read result)
  ]

  unfoldable pub handle_register : R → PcrKey → PcrKey → Commitment → ControlPubkey → R × Answered
  unfolding write client_write
  handle_register r session_key key commitment control_pubkey = elim (key == session_key) [
    | false ↦ (r, refuse unauthorized)
    | true ↦
        write r (ReplicatedOp.register key commitment control_pubkey) (λ _. register_ok) rpc_error
  ]

  unfoldable pub handle_pin : R → PcrKey → PcrKey → Version → Commitment → R × Answered
  unfolding write client_write
  handle_pin r session_key key expected_version commitment = elim (key == session_key) [
    | false ↦ (r, refuse unauthorized)
    | true ↦
        write r (ReplicatedOp.pin key expected_version commitment) (λ state. pin_ok state.version)
          rpc_error
  ]

  module _ (v : Verifier) (debug_mode : Bool) where
    unfoldable pub handle_revoke : R → PcrKey → ChainLink → R × Answered
    unfolding write client_write
    handle_revoke r session_key link = elim (BTreeMap.get (state_machine r).state session_key) [
      | none ↦ (r, refuse revocation_rejected)
      | some state ↦ elim (verify_revocation_link v link state.control_pubkey) [
        | err _ ↦ (r, refuse revocation_rejected)
        | ok verified ↦
            write r (ReplicatedOp.revoke session_key verified.link_hash) (λ _. revoke_ok)
              (λ _. revocation_rejected)
      ]
    ]

    -- The transition once its link is decoded and the frozen control key is known.
    unfoldable pub handle_verified :
        R
        → PcrKey
        → ControlPubkey
        → ChainLink
        → Commitment
        → DecodedTransition
        → ControlPubkey
        → Option ℕ
        → R × Answered
    unfolding write client_write
    handle_verified r session_key control_pubkey link commitment decoded old_control_pubkey none =
        (r, refuse unavailable)
    handle_verified r session_key control_pubkey link commitment decoded old_control_pubkey
          (some now_ms) =
        elim (verify_transition_link v link decoded session_key old_control_pubkey debug_mode
          now_ms) [
            | err _ ↦ (r, refuse transition_rejected)
            | ok verified ↦
                write r
                  (ReplicatedOp.transition verified.old_key verified.new_key control_pubkey
                    verified.link_hash verified.valid_until_ms commitment)
                  (λ state. transition_ok state.version) transition_error
          ]

    unfoldable pub handle_transition :
        R → PcrKey → ControlPubkey → ChainLink → Commitment → Option ℕ → R × Answered
    unfolding handle_verified
    handle_transition r session_key control_pubkey link commitment now =
        elim (decode_transition_link v link) [
          | err _ ↦ (r, refuse transition_rejected)
          | ok decoded ↦ elim (BTreeMap.get (state_machine r).state decoded.old_key) [
            | none ↦ (r, refuse transition_rejected)
            | some state ↦
                handle_verified r session_key control_pubkey link commitment decoded
                  state.control_pubkey now
          ]
        ]

    unfoldable pub handle_on_leader : R → PcrKey → ControlPubkey → Option ℕ → Request → R × Answered
    handle_on_leader r session_key control_pubkey now (get key) = handle_get r session_key key
    handle_on_leader r session_key control_pubkey now (register key commitment) =
        handle_register r session_key key commitment control_pubkey
    handle_on_leader r session_key control_pubkey now (pin key expected_version commitment) =
        handle_pin r session_key key expected_version commitment
    handle_on_leader r session_key control_pubkey now (transition link commitment) =
        handle_transition r session_key control_pubkey link commitment now
    handle_on_leader r session_key control_pubkey now (revoke link) =
        handle_revoke r session_key link
