-- ===== src/Serve/Replicated.antt =====
-- The replicated handlers of synchronizer/src/raft/serve.rs do what the node of
-- synchronizer/src/node.rs does, over a log that commits what is submitted to it.
use enclavia.Base.{
  ℕ, ◌≡◌, refl, sym, ap, subst, ◌∙◌, Bool, false, ◌==◌, Option, some, Result, arith, Bool-cases,
  Option-cases, Result-cases, inl, inr,
}
use enclavia.Base.BTreeMap
use enclavia.Base.Key.{nat_key, nat_beq_iff}
use enclavia.Machine.{
  PcrKey, Commitment, Version, ControlPubkey, KeyState, Op, StateMachine, ValidationError, LinkHash,
  key_not_current, apply, is_revoked,
}
use enclavia.Machine
use enclavia.Protocol.Chain.{ChainLink}
use enclavia.Wire.{
  Request, get, register, pin, transition, revoke, Response, register_ok, pin_ok, transition_ok,
  revoke_ok, error, RpcError, rpc_error, transition_rejected, revocation_rejected, unauthorized,
  not_found,
}
use enclavia.Wire.Links.{
  Verifier, DecodedTransition, decode_transition_link, verify_transition_link,
  verify_revocation_link,
}
use enclavia.Wire.Links.Authorized.{verified-keys}
use enclavia.Node
use enclavia.Node.{Node, handle_request, transition_error}
use enclavia.Node.ReadBack.{handle_decoded-verified}
use enclavia.Store.{ReplicatedOp, apply_one, observed, op_of}
use enclavia.Serve.{
  answered, OpenRaft, Answered, write, client_write, linearizable_get, handle_get, handle_register,
  handle_pin, handle_revoke, handle_verified, handle_transition, handle_on_leader, refuse,
}

-- A cluster whose log commits each operation as it is submitted, on a leader that has applied it.
abbrev pub committing : OpenRaft StateMachine
committing = record {
  submit = λ sm op. let (after, result) = apply_one sm op in (after, answered result);
  ensure_linearizable = λ sm. (sm, answered tt);
  state_machine = λ sm. sm;
}

-- The session's node, which observed the session's attestation when it was set up.
abbrev pub node_of : StateMachine → Bool → PcrKey → ControlPubkey → Node
node_of sm debug_mode session_key control_pubkey =
    Node.observe_attestation (record { inner = sm; debug_mode = debug_mode }) session_key
      control_pubkey

-- The same answer, and the same pins, retired keys and revocations.
pub record Agrees (a : StateMachine × Answered) (n : Node × Response) : Type 0 where
  pub response : a.1.response ≡ n.1
  pub in_time : a.1.timed_out ≡ false
  pub state : a.0.state ≡ n.0.inner.state
  pub retired : a.0.retired ≡ n.0.inner.retired
  pub revoked_links : a.0.revoked_links ≡ n.0.inner.revoked_links

-- An operation that reads no attestation does the same on both.
record SameApplied (x y : StateMachine × Result KeyState ValidationError) : Type 0 where
  result : x.1 ≡ y.1
  state : x.0.state ≡ y.0.state
  retired : x.0.retired ≡ y.0.retired
  revoked_links : x.0.revoked_links ≡ y.0.revoked_links

module _ (sm : StateMachine) (key : PcrKey) (control_pubkey : ControlPubkey) where
  pin-SameApplied :
      (k : PcrKey) (expected_version : Version) (commitment : Commitment)
      → SameApplied (apply sm (Op.pin k expected_version commitment)) (
          apply
            (Machine.observe_attestation sm key control_pubkey)
            (Op.pin k expected_version commitment))
  unfolding apply Machine.observe_attestation
  pin-SameApplied k expected_version commitment = record {
    result = ground arith;
    state = ground arith;
    retired = ground arith;
    revoked_links = ground arith;
  }

  revoke-SameApplied :
      (k : PcrKey) (link_hash : LinkHash)
      → SameApplied
          (apply sm (Op.revoke k link_hash))
          (apply (Machine.observe_attestation sm key control_pubkey) (Op.revoke k link_hash))
  unfolding apply Machine.observe_attestation
  revoke-SameApplied k link_hash = record {
    result = ground arith;
    state = ground arith;
    retired = ground arith;
    revoked_links = ground arith;
  }

write-Agrees :
    (sm : StateMachine) (node : Node) (op : ReplicatedOp) (node_op : Op) (f : KeyState → Response)
    (g : ValidationError → RpcError)
    → SameApplied (apply (observed sm op) (op_of op)) (apply node.inner node_op)
    → Agrees (write committing sm op f g) (Node.answer node node_op f g)
unfolding write client_write apply_one
write-Agrees sm node op node_op f g s = elim (Result-cases (apply (observed sm op) (op_of op)).1) [
  | inl (state, done) ↦ record {
    response = ground (arith, s.result);
    in_time = ground arith;
    state = s.state;
    retired = s.retired;
    revoked_links = s.revoked_links;
  }
  | inr (e, refused) ↦ record {
    response = ground (arith, s.result);
    in_time = ground arith;
    state = s.state;
    retired = s.retired;
    revoked_links = s.revoked_links;
  }
]

same : (x : StateMachine × Result KeyState ValidationError) → SameApplied x x
same x = record { result = refl; state = refl; retired = refl; revoked_links = refl }

module _ (v : Verifier) (debug_mode : Bool) (sm : StateMachine) (session_key : PcrKey)
    (control_pubkey : ControlPubkey) where
  abbrev node : Node
  node = node_of sm debug_mode session_key control_pubkey

  -- A refusal, by both, that changes nothing.
  Refused :
      (a : StateMachine × Answered) (n : Node × Response) (e : RpcError)
      → a ≡ (sm, refuse e)
      → n ≡ (node, error e)
      → Agrees a n
  unfolding Node.observe_attestation Machine.observe_attestation
  Refused a n e p q = record {
    response = ground arith;
    in_time = ground arith;
    state =
        ap (λ (b : StateMachine × Answered). b.0.state) p
        ∙ ap (λ (m : Node × Response). m.0.inner.state) (sym q);
    retired =
        ap (λ (b : StateMachine × Answered). b.0.retired) p
        ∙ ap (λ (m : Node × Response). m.0.inner.retired) (sym q);
    revoked_links =
        ap (λ (b : StateMachine × Answered). b.0.revoked_links) p
        ∙ ap (λ (m : Node × Response). m.0.inner.revoked_links) (sym q);
  }

  get-Agrees :
      (now : Option ℕ) (key : PcrKey)
      → Agrees
          (handle_get committing sm session_key key)
          (handle_request v node session_key now (get key))
  unfolding handle_get linearizable_get handle_request Node.observe_attestation
      Machine.observe_attestation
  get-Agrees now key = elim (Bool-cases (key == session_key)) [
    | inr other ↦ Refused _ _ unauthorized (ground arith) (ground arith)
    | inl own ↦ elim (Option-cases (BTreeMap.get sm.state key)) [
      | inl unknown ↦ Refused _ _ not_found (ground arith) (ground arith)
      | inr (s, held) ↦ record {
        response = ground arith;
        in_time = ground arith;
        state = ground arith;
        retired = ground arith;
        revoked_links = ground arith;
      }
    ]
  ]

  Agrees-both :
      (a b : StateMachine × Answered) (n m : Node × Response)
      → a ≡ b
      → n ≡ m
      → Agrees b m
      → Agrees a n
  Agrees-both a b n m p q h = subst (λ x. Agrees x n) (sym p) (subst (λ x. Agrees b x) (sym q) h)

  register-Agrees :
      (now : Option ℕ) (key : PcrKey) (c : Commitment)
      → Agrees
          (handle_register committing sm session_key key c control_pubkey)
          (handle_request v node session_key now (register key c))
  unfolding handle_register handle_request Node.observe_attestation
  register-Agrees now key c = elim (Bool-cases (key == session_key)) [
    | inr other ↦ Refused _ _ unauthorized (ground arith) (ground arith)
    | inl own ↦
        let op = ReplicatedOp.register key c control_pubkey in
        let is_own = (nat_beq_iff key session_key).0 own in
        Agrees-both _ (write committing sm op (λ _. register_ok) rpc_error) _
          (Node.answer node (Op.register key c) (λ _. register_ok) rpc_error) (ground arith)
          (ground arith)
          (write-Agrees sm node op (Op.register key c) (λ _. register_ok) rpc_error
            (subst
              (λ k.
                SameApplied (apply (observed sm op) (Op.register key c))
                  (apply (Machine.observe_attestation sm k control_pubkey) (Op.register key c)))
              is_own (same (apply (observed sm op) (Op.register key c)))))
  ]

  pin-Agrees :
      (now : Option ℕ) (key : PcrKey) (e : Version) (c : Commitment)
      → Agrees
          (handle_pin committing sm session_key key e c)
          (handle_request v node session_key now (pin key e c))
  unfolding handle_pin handle_request Node.observe_attestation
  pin-Agrees now key e c = elim (Bool-cases (key == session_key)) [
    | inr other ↦ Refused _ _ unauthorized (ground arith) (ground arith)
    | inl own ↦
        let f : KeyState → Response = λ state. pin_ok state.version in
        Agrees-both _ (write committing sm (ReplicatedOp.pin key e c) f rpc_error) _
          (Node.answer node (Op.pin key e c) f rpc_error) (ground arith) (ground arith)
          (write-Agrees sm node (ReplicatedOp.pin key e c) (Op.pin key e c) f rpc_error
            (pin-SameApplied sm session_key control_pubkey key e c))
  ]

  revoke-Agrees :
      (now : Option ℕ) (link : ChainLink)
      → Agrees
          (handle_revoke committing v debug_mode sm session_key link)
          (handle_request v node session_key now (revoke link))
  unfolding handle_revoke handle_request Node.handle_revoke Node.observe_attestation
      Machine.observe_attestation
  revoke-Agrees now link = elim (Option-cases (BTreeMap.get sm.state session_key)) [
    | inl unknown ↦ Refused _ _ revocation_rejected (ground arith) (ground arith)
    | inr (s, held) ↦ elim (Result-cases (verify_revocation_link v link s.control_pubkey)) [
      | inr (e, bad) ↦ Refused _ _ revocation_rejected (ground arith) (ground arith)
      | inl (r, verified) ↦
          let op = Op.revoke session_key r.link_hash in
          let g : ValidationError → RpcError = λ _. revocation_rejected in
          Agrees-both _
            (write committing sm (ReplicatedOp.revoke session_key r.link_hash) (λ _. revoke_ok) g) _
            (Node.answer node op (λ _. revoke_ok) g) (ground arith) (ground arith)
            (write-Agrees sm node (ReplicatedOp.revoke session_key r.link_hash) op (λ _. revoke_ok)
              g (revoke-SameApplied sm session_key control_pubkey session_key r.link_hash))
    ]
  ]

  verified-Agrees :
      (now_ms : ℕ) (link : ChainLink) (c : Commitment) (d : DecodedTransition) (s : KeyState)
      → BTreeMap.get sm.state d.old_key ≡ some s
      → Agrees
          (handle_verified committing v debug_mode sm session_key control_pubkey link c d
            s.control_pubkey
            (some now_ms))
          (Node.handle_decoded v node session_key link c now_ms d)
  unfolding handle_verified Node.handle_decoded Node.observe_attestation Node.observe_transition
      Machine.observe_attestation
  verified-Agrees now_ms link c d s held =
      elim (Result-cases
        (verify_transition_link v link d session_key s.control_pubkey debug_mode now_ms)) [
          | inr (e, bad) ↦ Refused _ _ transition_rejected (ground arith) (ground arith)
          | inl (r, verified) ↦
              let op = Op.transition r.old_key r.new_key r.link_hash c in
              let f : KeyState → Response = λ state. transition_ok state.version in
              let replicated =
                ReplicatedOp.transition r.old_key r.new_key control_pubkey r.link_hash
                  r.valid_until_ms c in
              let (_, ours) =
                verified-keys v link d session_key s.control_pubkey debug_mode now_ms r verified in
              let moved = Node.observe_transition node r.old_key r.new_key in
              Agrees-both _ (write committing sm replicated f transition_error) _
                (Node.answer moved op f transition_error) (ground arith)
                (handle_decoded-verified v node session_key link c now_ms d s r held verified)
                (write-Agrees sm moved replicated op f transition_error (
                  subst
                    (λ k. SameApplied (apply (observed sm replicated) op) (
                      apply
                        (Machine.observe_transition
                          (Machine.observe_attestation sm k control_pubkey) r.old_key r.new_key)
                        op))
                    ours (same (apply (observed sm replicated) op))))
        ]

  transition-Agrees :
      (now_ms : ℕ) (link : ChainLink) (c : Commitment)
      → Agrees
          (handle_transition committing v debug_mode sm session_key control_pubkey link c
            (some now_ms))
          (handle_request v node session_key (some now_ms) (transition link c))
  unfolding handle_transition handle_request Node.handle_transition Node.handle_decoded
      Node.observe_attestation Machine.observe_attestation
  transition-Agrees now_ms link c = elim (Result-cases (decode_transition_link v link)) [
    | inr (e, bad) ↦ Refused _ _ transition_rejected (ground arith) (ground arith)
    | inl (d, decoded) ↦ elim (Option-cases (BTreeMap.get sm.state d.old_key)) [
      | inl unknown ↦ Refused _ _ transition_rejected (ground arith) (ground arith)
      | inr (s, held) ↦
          Agrees-both _
            (handle_verified committing v debug_mode sm session_key control_pubkey link c d
              s.control_pubkey (some now_ms))
            _ (Node.handle_decoded v node session_key link c now_ms d) (ground arith) (ground arith)
            (verified-Agrees now_ms link c d s held)
    ]
  ]

  -- The replicated handlers do what the single node does. Over a cluster that commits at once what
  -- is submitted and confirms its reads, with trusted time available, a request on the leader is
  -- answered, in time, as the node answers it that has the same state machine and has observed the
  -- session's attestation, and leaves the same pins, retired keys and revocations.
  pub handle_on_leader-Agrees :
      (now_ms : ℕ) (req : Request)
      → Agrees
          (handle_on_leader committing v debug_mode sm session_key control_pubkey (some now_ms) req)
          (handle_request v
            (node_of sm debug_mode session_key control_pubkey)
            session_key
            (some now_ms)
            req)
  unfolding handle_on_leader
  handle_on_leader-Agrees now_ms (get key) = get-Agrees (some now_ms) key
  handle_on_leader-Agrees now_ms (register key c) = register-Agrees (some now_ms) key c
  handle_on_leader-Agrees now_ms (pin key e c) = pin-Agrees (some now_ms) key e c
  handle_on_leader-Agrees now_ms (transition link c) = transition-Agrees now_ms link c
  handle_on_leader-Agrees now_ms (revoke link) = revoke-Agrees (some now_ms) link
