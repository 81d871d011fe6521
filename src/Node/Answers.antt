-- ===== src/Node/Answers.antt =====
-- What the answers of synchronizer/src/node.rs say of the state that they leave.
use enclavia.Base.{ℕ, ◌≡◌, ◌≢◌, refl, Option, none, some, ok, arith, Result-cases, inl, inr}
use enclavia.Base.BTreeMap
use enclavia.Base.BTreeMap.{BTreeMap}
use enclavia.Base.Key.{nat_key}
use enclavia.Machine.{
  PcrKey, Commitment, Version, ControlPubkey, LinkHash, KeyState, StateMachine, Op, ValidationError,
  apply, next_version,
}
use enclavia.Machine
use enclavia.Machine.Refinement.{apply_err_unchanged, apply-touched}
use enclavia.Machine.Spec.{touched}
use enclavia.Protocol.Chain.{ChainLink}
use enclavia.Wire.{
  Request, get, register, pin, transition, revoke, Response, transition_ok, error, RpcError,
}
use enclavia.Wire.Links.{Verifier, DecodedTransition, VerifiedTransition}
use enclavia.Node.{
  Node, transition_error, observe_transition, answer, handle_decoded, handle_transition,
  handle_revoke, handle_request,
}

-- What an operation writes into the state that it returns.
abbrev pub Written : Op → KeyState → Type 0
Written (Op.register _ c) s = (s.commitment ≡ c) × (s.version ≡ 0)
Written (Op.pin _ e c) s = (s.commitment ≡ c) × (s.version ≡ next_version e)
Written (Op.transition _ _ _ c) s = s.commitment ≡ c
Written (Op.revoke _ _) s = Unit

pub apply-Written :
    (sm : StateMachine) (op : Op) (s : KeyState) → (apply sm op).1 ≡ ok s → Written op s
unfolding apply
apply-Written sm (Op.register key c) s h = ground arith
apply-Written sm (Op.pin key e c) s h = ground arith
apply-Written sm (Op.transition o n l c) s h = ground arith
apply-Written sm (Op.revoke key l) s h = tt

-- The key holds a state that was written by `op`.
pub record IsHeld (sm : StateMachine) (op : Op) (key : PcrKey) : Type 0 where
  pub entry : KeyState
  pub held : BTreeMap.get sm.state key ≡ some entry
  pub written : Written op entry

pub IsHeld-answer :
    (node : Node) (op : Op) (f : KeyState → Response) (g : ValidationError → RpcError)
    (r : Response)
    → ((e : RpcError) → r ≢ error e)
    → (answer node op f g).1 ≡ r
    → (h : IsHeld (answer node op f g).0.inner op (touched op)) × (f h.entry ≡ r)
IsHeld-answer node op f g r never h = elim (Result-cases (apply node.inner op).1) [
  | inl (s, p) ↦ (
    record {
      entry = s;
      held = apply-touched node.inner op s p;
      written = apply-Written node.inner op s p;
    },
    ground arith,
  )
  | inr (e, p) ↦ absurd (never (g e) (ground arith))
]

-- The same machine, the pending authorizations apart.
abbrev pub SamePins : StateMachine → StateMachine → Type 0
SamePins a b = a ≡ record b { transition_authorizations = a.transition_authorizations }

answer_err :
    (node : Node) (op : Op) (f : KeyState → Response) (g : ValidationError → RpcError)
    (e : RpcError)
    → ((s : KeyState) → f s ≢ error e)
    → (answer node op f g).1 ≡ error e
    → (answer node op f g).0.inner ≡ node.inner
answer_err node op f g e never h = elim (Result-cases (apply node.inner op).1) [
  | inl (s, p) ↦ absurd (never s (ground arith))
  | inr (x, p) ↦ apply_err_unchanged node.inner op x p
]

module _ (v : Verifier) where
  SamePins-verified :
      (node : Node) (r : VerifiedTransition) (c : Commitment) (e : RpcError)
      → (answer
          (observe_transition node r.old_key r.new_key)
          (Op.transition r.old_key r.new_key r.link_hash c)
          (λ state. transition_ok state.version)
          transition_error).1
        ≡ error e
      → SamePins
          (answer
            (observe_transition node r.old_key r.new_key)
            (Op.transition r.old_key r.new_key r.link_hash c)
            (λ state. transition_ok state.version)
            transition_error).0.inner
          node.inner
  unfolding observe_transition Machine.observe_transition
  SamePins-verified node r c e h =
      let unchanged =
        answer_err (observe_transition node r.old_key r.new_key)
          (Op.transition r.old_key r.new_key r.link_hash c) (λ state. transition_ok state.version)
          transition_error e (λ s. ground arith) h in
      rw unchanged refl

  SamePins-decoded :
      (node : Node) (session_key : PcrKey) (link : ChainLink) (c : Commitment) (now_ms : ℕ)
      (d : DecodedTransition) (e : RpcError)
      → (handle_decoded v node session_key link c now_ms d).1 ≡ error e
      → SamePins (handle_decoded v node session_key link c now_ms d).0.inner node.inner
  unfolding handle_decoded
  SamePins-decoded node session_key link c now_ms d e h = grind (arith, SamePins-verified)

  -- A request that is answered with an error leaves the state machine as it was, but for the
  -- authorizations: no pinned state, attestation, retirement or revocation changes.
  pub error_changes_nothing :
      (node : Node) (session_key : PcrKey) (now : Option ℕ) (req : Request) (e : RpcError)
      → (handle_request v node session_key now req).1 ≡ error e
      → SamePins (handle_request v node session_key now req).0.inner node.inner
  unfolding handle_request handle_transition handle_revoke
  error_changes_nothing node session_key now (get key) e h = ground arith
  error_changes_nothing node session_key now (register key c) e h =
      grind (arith, apply_err_unchanged)
  error_changes_nothing node session_key now (pin key x c) e h = grind (arith, apply_err_unchanged)
  error_changes_nothing node session_key none (transition link c) e h = refl
  error_changes_nothing node session_key (some now_ms) (transition link c) e h =
      grind (arith, SamePins-decoded)
  error_changes_nothing node session_key now (revoke link) e h = grind (arith, apply_err_unchanged)
