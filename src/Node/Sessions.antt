-- ===== src/Node/Sessions.antt =====
-- The sessions of synchronizer/src/node.rs as a sequence of events: what a listener attests, and
-- the requests it hands over. Each event is a run of inputs of the state machine.
use enclavia.Base.{
  ℕ, ◌≡◌, refl, ◌==◌, if◌then◌else◌, Bool, Option, none, some, List, [], ◌∷◌, ok, err, arith,
}
use enclavia.Base.BTreeMap
use enclavia.Base.Key.{nat_key}
use enclavia.Machine.{PcrKey, Commitment, ControlPubkey, StateMachine, Op}
use enclavia.Machine.Run.{Input, attest, authorize, submit, feed, run, run_induction}
use enclavia.Machine.Invariant.{IsValid, feed-IsValid, run-IsValid}
use enclavia.Wire.{Request, get, register, pin, transition, revoke}
use enclavia.Protocol.Chain.{ChainLink}
use enclavia.Wire.Links.{
  DecodedTransition, Verifier, decode_transition_link, verify_transition_link,
  verify_revocation_link,
}
use enclavia.Node.{
  Node, with_debug_mode, observe_attestation, observe_transition, handle_decoded, handle_transition,
  handle_revoke, handle_request,
}

pub data Event : Type 0 where
  connect : (key : PcrKey) (control_pubkey : ControlPubkey) → Event
  request : (session_key : PcrKey) (now : Option ℕ) (req : Request) → Event

module _ (v : Verifier) where
  abbrev pub serve : Node → Event → Node
  serve node (connect key control_pubkey) = observe_attestation node key control_pubkey
  serve node (request session_key now req) = (handle_request v node session_key now req).0

  unfoldable pub serve_all : Node → List Event → Node
  serve_all node [] = node
  serve_all node (e ∷ es) = serve_all (serve node e) es

  -- What a verified link submits.
  abbrev inputs_of_link :
      Node → PcrKey → ChainLink → Commitment → ℕ → DecodedTransition → List Input
  inputs_of_link node session_key link c now_ms decoded =
      elim (BTreeMap.get node.inner.state decoded.old_key) [
        | none ↦ []
        | some state ↦
            elim (verify_transition_link v link decoded session_key state.control_pubkey
              node.debug_mode now_ms) [
                | err _ ↦ []
                | ok verified ↦
                    authorize verified.old_key verified.new_key
                    ∷ submit (Op.transition verified.old_key verified.new_key verified.link_hash c)
                    ∷ []
              ]
      ]

  abbrev inputs_of_revocation : Node → PcrKey → ChainLink → List Input
  inputs_of_revocation node session_key link = elim (BTreeMap.get node.inner.state session_key) [
    | none ↦ []
    | some state ↦ elim (verify_revocation_link v link state.control_pubkey) [
      | err _ ↦ []
      | ok verified ↦ submit (Op.revoke session_key verified.link_hash) ∷ []
    ]
  ]

  -- The inputs that an event hands to the state machine.
  abbrev pub inputs_of : Node → Event → List Input
  inputs_of node (connect key control_pubkey) = attest key control_pubkey ∷ []
  inputs_of node (request session_key now (get key)) = []
  inputs_of node (request session_key now (register key c)) =
      if key == session_key then submit (Op.register key c) ∷ [] else []
  inputs_of node (request session_key now (pin key e c)) =
      if key == session_key then submit (Op.pin key e c) ∷ [] else []
  inputs_of node (request session_key none (transition link c)) = []
  inputs_of node (request session_key (some now_ms) (transition link c)) =
      elim (decode_transition_link v link) [
        | err _ ↦ []
        | ok decoded ↦ inputs_of_link node session_key link c now_ms decoded
      ]
  inputs_of node (request session_key now (revoke link)) =
      inputs_of_revocation node session_key link

  pub serve-run :
      (node : Node) (e : Event) → (serve node e).inner ≡ run node.inner (inputs_of node e)
  unfolding handle_request handle_transition handle_decoded handle_revoke observe_attestation
      observe_transition
  serve-run node (connect key pk) = refl
  serve-run node (request session_key now (get key)) = ground arith
  serve-run node (request session_key now (register key c)) = ground arith
  serve-run node (request session_key now (pin key e c)) = ground arith
  serve-run node (request session_key none (transition link c)) = refl
  serve-run node (request session_key (some now_ms) (transition link c)) = ground arith
  serve-run node (request session_key now (revoke link)) = ground arith

  -- What every input of the state machine keeps, every sequence of events keeps.
  pub serve_all_induction {ℓ} :
      (P : StateMachine → Type ℓ)
      → ((sm : StateMachine) (i : Input) → P sm → P (feed sm i))
      → (node : Node) (es : List Event) → P node.inner
      → P (serve_all node es).inner
  unfolding serve_all
  serve_all_induction P keep node [] h = h
  serve_all_induction P keep node (e ∷ es) h =
      serve_all_induction P keep (serve node e) es
        (rw serve-run (run_induction P keep node.inner (inputs_of node e) h))

  -- A node that served any events since it was created holds a valid state machine, whatever its
  -- sessions attested and requested, and whatever the trusted time was.
  pub serve_all-IsValid :
      (debug_mode : Bool) (es : List Event)
      → IsValid (serve_all (with_debug_mode debug_mode) es).inner
  serve_all-IsValid debug_mode es =
      serve_all_induction IsValid feed-IsValid (with_debug_mode debug_mode) es (run-IsValid [])
