-- ===== src/Node.antt =====
-- synchronizer/src/node.rs: one session's requests against the state machine. The lock makes each
-- handler one step; the trusted time that a transition reads, where there is one, is an argument.
pub mod Sessions
pub mod Isolation
pub mod Answers
pub mod ReadBack
pub mod Cutover
pub mod Revocation
mod Tests
use enclavia.Base.{ℕ, Bool, false, not, ◌==◌, if◌then◌else◌, Option, none, some, Result, ok, err}
use enclavia.Base.BTreeMap
use enclavia.Base.Key.{nat_key}
use enclavia.Machine.{
  PcrKey, Commitment, Version, ControlPubkey, KeyState, Op, StateMachine, init, ValidationError,
  key_not_current, apply,
}
use enclavia.Machine
use enclavia.Protocol.Chain.{ChainLink}
use enclavia.Wire.{
  Request, get, register, pin, transition, revoke, Response, get_ok, register_ok, pin_ok,
  transition_ok, revoke_ok, error, RpcError, unauthorized, not_found, transition_rejected,
  revocation_rejected, unavailable, rpc_error,
}
use enclavia.Wire.Links.{
  Verifier, DecodedTransition, VerifiedTransition, VerifiedRevocation, decode_transition_link,
  verify_transition_link, verify_revocation_link,
}

pub record Node : Type 0 where
  pub inner : StateMachine
  pub debug_mode : Bool

abbrev pub with_debug_mode : Bool → Node
with_debug_mode debug_mode = record { inner = init; debug_mode = debug_mode }

abbrev pub new : Node
new = with_debug_mode false

unfoldable pub observe_attestation : Node → PcrKey → ControlPubkey → Node
observe_attestation node key control_pubkey = record node {
  inner = Machine.observe_attestation node.inner key control_pubkey;
}

unfoldable pub observe_transition : Node → PcrKey → PcrKey → Node
observe_transition node old_key new_key = record node {
  inner = Machine.observe_transition node.inner old_key new_key;
}

abbrev pub Handled : Type 0
Handled = Node × Response

-- Apply an operation and answer from its result.
abbrev pub answer : Node → Op → (KeyState → Response) → (ValidationError → RpcError) → Handled
answer node op f g =
    let result = apply node.inner op in
    (record node { inner = result.0 }, elim result.1 [ ok state ↦ f state | err e ↦ error (g e) ])

abbrev handle_get : Node → PcrKey → PcrKey → Handled
handle_get node session_key key =
    if not (key == session_key)
    then (node, error unauthorized)
    else elim (BTreeMap.get node.inner.state key) [
      | some state ↦ (node, get_ok state.commitment state.version)
      | none ↦ (node, error not_found)
    ]

abbrev handle_register : Node → PcrKey → PcrKey → Commitment → Handled
handle_register node session_key key commitment =
    if not (key == session_key)
    then (node, error unauthorized)
    else answer node (Op.register key commitment) (λ _. register_ok) rpc_error

abbrev handle_pin : Node → PcrKey → PcrKey → Version → Commitment → Handled
handle_pin node session_key key expected_version commitment =
    if not (key == session_key)
    then (node, error unauthorized)
    else answer node (Op.pin key expected_version commitment) (λ state. pin_ok state.version)
        rpc_error

-- `KeyNotCurrent` is a rejection here; the other errors are mapped as ever.
abbrev pub transition_error : ValidationError → RpcError
transition_error key_not_current = transition_rejected
transition_error e = rpc_error e

module _ (v : Verifier) where
  -- A transition at the trusted time `now_ms`, once the link's keys are decoded.
  unfoldable pub handle_decoded :
      Node → PcrKey → ChainLink → Commitment → ℕ → DecodedTransition → Handled
  handle_decoded node session_key link commitment now_ms decoded =
      elim (BTreeMap.get node.inner.state decoded.old_key) [
        | none ↦ (node, error transition_rejected)
        | some state ↦
            elim (verify_transition_link v link decoded session_key state.control_pubkey
              node.debug_mode now_ms) [
                | err _ ↦ (node, error transition_rejected)
                | ok verified ↦
                    answer (observe_transition node verified.old_key verified.new_key)
                      (Op.transition verified.old_key verified.new_key verified.link_hash
                        commitment)
                      (λ state. transition_ok state.version) transition_error
              ]
      ]

  unfoldable pub handle_transition : Node → PcrKey → ChainLink → Commitment → Option ℕ → Handled
  handle_transition node session_key link commitment none = (node, error unavailable)
  handle_transition node session_key link commitment (some now_ms) =
      elim (decode_transition_link v link) [
        | err _ ↦ (node, error transition_rejected)
        | ok decoded ↦ handle_decoded node session_key link commitment now_ms decoded
      ]

  unfoldable pub handle_revoke : Node → PcrKey → ChainLink → Handled
  handle_revoke node session_key link = elim (BTreeMap.get node.inner.state session_key) [
    | none ↦ (node, error revocation_rejected)
    | some state ↦ elim (verify_revocation_link v link state.control_pubkey) [
      | err _ ↦ (node, error revocation_rejected)
      | ok verified ↦
          answer node (Op.revoke session_key verified.link_hash) (λ _. revoke_ok)
            (λ _. revocation_rejected)
    ]
  ]

  unfoldable pub handle_request : Node → PcrKey → Option ℕ → Request → Handled
  handle_request node session_key now (get key) = handle_get node session_key key
  handle_request node session_key now (register key commitment) =
      handle_register node session_key key commitment
  handle_request node session_key now (pin key expected_version commitment) =
      handle_pin node session_key key expected_version commitment
  handle_request node session_key now (transition link commitment) =
      handle_transition node session_key link commitment now
  handle_request node session_key now (revoke link) = handle_revoke node session_key link
