-- ===== src/Node/Isolation.antt =====
-- Which requests of synchronizer/src/node.rs can change the pinned state of a key that is not the
-- session's own.
use enclavia.Base.{
  ℕ, ◌≡◌, ◌≢◌, ◌⊎◌, inl, inr, refl, ap, ◌==◌, Option, none, some, ok, arith, Bool-cases,
  Option-cases, Result-cases,
}
use enclavia.Base.BTreeMap
use enclavia.Base.Key.{nat_key, nat_beq_iff}
use enclavia.Machine.{PcrKey, Commitment, KeyState, StateMachine, Op, apply}
use enclavia.Machine
use enclavia.Machine.Finality.{Names}
use enclavia.Machine.Invariant.{containers}
use enclavia.Protocol.Identity
use enclavia.Protocol.Chain.{ChainLink, UpgradePayload}
use enclavia.Wire.{Request, get, register, pin, transition, revoke}
use enclavia.Wire.Links.{
  Verifier, DecodedTransition, VerifiedTransition, decode_transition_link, verify_transition_link,
  verify_revocation_link,
}
use enclavia.Wire.Links.Authorized.{IsAuthorized, decoded_of, verify_transition_link_iff}
use enclavia.Wire.Links.Structure.{IsStructured, decode_transition_link_iff}
use enclavia.Node.{
  observe_transition, Node, handle_decoded, handle_transition, handle_revoke, handle_request,
}

-- An operation that does not name a key leaves the key's state.
apply-elsewhere :
    (sm : StateMachine) (op : Op) (k : PcrKey)
    → ¬ Names k op
    → BTreeMap.get (apply sm op).0.state k ≡ BTreeMap.get sm.state k
unfolding apply
apply-elsewhere sm (Op.register key c) k h = grind containers
apply-elsewhere sm (Op.pin key e c) k h = grind containers
apply-elsewhere sm (Op.transition o n l c) k h = grind containers
apply-elsewhere sm (Op.revoke key l) k h = grind containers

module _ (v : Verifier) where
  open v use {crypto}

  -- A link moved the pin of `k` to the session's key: the owner of the control key that `k` had
  -- frozen signed it, and the enclave of `k` attested it.
  pub record IsTakenOver (node : Node) (session_key k : PcrKey) (now : Option ℕ) (link : ChainLink)
      : Type 0 where
    pub payload : UpgradePayload
    pub old : KeyState
    pub now_ms : ℕ
    pub trusted : now ≡ some now_ms
    pub structured : IsStructured v link payload
    pub from : Identity.key crypto payload.from ≡ k
    pub held : BTreeMap.get node.inner.state k ≡ some old
    pub authorized :
        IsAuthorized v link payload session_key old.control_pubkey node.debug_mode now_ms

  -- The link of a request that changed the state of a key of another session.
  abbrev pub TakesOver : Node → PcrKey → PcrKey → Option ℕ → Request → Type 0
  TakesOver node session_key k now (transition link _) = IsTakenOver node session_key k now link
  TakesOver _ _ _ _ _ = ⊥

  abbrev pub state_after : Node → PcrKey → Option ℕ → Request → PcrKey → Option KeyState
  state_after node session_key now req k =
      BTreeMap.get (handle_request v node session_key now req).0.inner.state k

  -- What a verified link does to the machine.
  pub verified-applied :
      (node : Node) (session_key : PcrKey) (now_ms : ℕ) (link : ChainLink) (c : Commitment)
      (payload : UpgradePayload) (old : KeyState) (verified : VerifiedTransition)
      → BTreeMap.get node.inner.state (Identity.key crypto payload.from) ≡ some old
      → verify_transition_link v link
          (decoded_of v payload)
          session_key
          old.control_pubkey
          node.debug_mode
          now_ms
        ≡ ok verified
      → (handle_decoded v node session_key link c now_ms (decoded_of v payload)).0.inner
        ≡ (apply
            (Machine.observe_transition node.inner verified.old_key verified.new_key)
            (Op.transition verified.old_key verified.new_key verified.link_hash c)).0
  unfolding handle_decoded observe_transition
  verified-applied node session_key now_ms link c payload old verified held passed = ground arith

  taken_over :
      (node : Node) (session_key k : PcrKey) (now_ms : ℕ) (link : ChainLink) (c : Commitment)
      (payload : UpgradePayload) (old : KeyState) (verified : VerifiedTransition)
      → k ≢ session_key
      → IsStructured v link payload
      → BTreeMap.get node.inner.state (Identity.key crypto payload.from) ≡ some old
      → verify_transition_link v link
          (decoded_of v payload)
          session_key
          old.control_pubkey
          node.debug_mode
          now_ms
        ≡ ok verified
      → (BTreeMap.get
            (handle_decoded v node session_key link c now_ms (decoded_of v payload)).0.inner.state
            k
          ≡ BTreeMap.get node.inner.state k)
        ⊎ IsTakenOver node session_key k (some now_ms) link
  unfolding Machine.observe_transition
  taken_over node session_key k now_ms link c payload old verified away s held passed =
      let (a, same) =
        (verify_transition_link_iff v link payload session_key old.control_pubkey node.debug_mode
            now_ms verified s.encodes).0
          passed in
      elim (Bool-cases (Identity.key crypto payload.from == k)) [
        | inl from ↦ inr (record {
          payload = payload;
          old = old;
          now_ms = now_ms;
          trusted = refl;
          structured = s;
          from = (nat_beq_iff _ k).0 from;
          held = rw (← (nat_beq_iff _ k).0 from) held;
          authorized = a;
        })
        | inr other ↦ inl (
            rw (verified-applied node session_key now_ms link c payload old verified held passed) (
              apply-elsewhere
                (Machine.observe_transition node.inner verified.old_key verified.new_key)
                (Op.transition verified.old_key verified.new_key verified.link_hash c) k
                (ground
                  (arith, same, a.submitter, nat_beq_iff (Identity.key crypto payload.from) k))))
      ]

  decoded-isolated :
      (node : Node) (session_key k : PcrKey) (now_ms : ℕ) (link : ChainLink) (c : Commitment)
      (payload : UpgradePayload)
      → k ≢ session_key
      → IsStructured v link payload
      → (BTreeMap.get
            (handle_decoded v node session_key link c now_ms (decoded_of v payload)).0.inner.state
            k
          ≡ BTreeMap.get node.inner.state k)
        ⊎ IsTakenOver node session_key k (some now_ms) link
  unfolding handle_decoded
  decoded-isolated node session_key k now_ms link c payload away s =
      elim (Option-cases (BTreeMap.get node.inner.state (Identity.key crypto payload.from))) [
        | inl absent ↦ inl (ground arith)
        | inr (old, held) ↦
            elim (Result-cases (
              verify_transition_link v link (decoded_of v payload) session_key old.control_pubkey
                node.debug_mode now_ms)) [
                  | inl (verified, passed) ↦
                      taken_over node session_key k now_ms link c payload old verified away s held
                        passed
                  | inr refused ↦ inl (ground arith)
                ]
      ]

  pub handle_request-decoded :
      (node : Node) (session_key : PcrKey) (now_ms : ℕ) (link : ChainLink) (c : Commitment)
      (decoded : DecodedTransition) (payload : UpgradePayload)
      → decode_transition_link v link ≡ ok decoded
      → decoded ≡ decoded_of v payload
      → handle_request v node session_key (some now_ms) (transition link c)
        ≡ handle_decoded v node session_key link c now_ms (decoded_of v payload)
  unfolding handle_request handle_transition
  handle_request-decoded node session_key now_ms link c decoded payload passed same =
      ground (arith, ap (handle_decoded v node session_key link c now_ms) same)

  transition-isolated :
      (node : Node) (session_key k : PcrKey) (now_ms : ℕ) (link : ChainLink) (c : Commitment)
      → k ≢ session_key
      → (state_after node session_key (some now_ms) (transition link c) k
          ≡ BTreeMap.get node.inner.state k)
        ⊎ IsTakenOver node session_key k (some now_ms) link
  unfolding handle_request handle_transition
  transition-isolated node session_key k now_ms link c away =
      elim (Result-cases (decode_transition_link v link)) [
        | inl (decoded, passed) ↦
            let (payload, s, same) = (decode_transition_link_iff v link decoded).0 passed in
            rw (handle_request-decoded node session_key now_ms link c decoded payload passed same)
              (decoded-isolated node session_key k now_ms link c payload away s)
        | inr refused ↦ inl (ground arith)
      ]

  -- A request changes the pinned state of no key but the session's own, unless it is a transition
  -- whose link takes over from that key: an upgrade link, canonically encoded, whose payload moves
  -- from the enclave of that key, and which the control key frozen for it authorizes for this
  -- session at the trusted time.
  pub session_isolation :
      (node : Node) (session_key k : PcrKey) (now : Option ℕ) (req : Request)
      → k ≢ session_key
      → (state_after node session_key now req k ≡ BTreeMap.get node.inner.state k)
        ⊎ TakesOver node session_key k now req
  unfolding handle_request handle_revoke handle_transition
  session_isolation node session_key k now (get key) away = inl (ground arith)
  session_isolation node session_key k now (register key c) away =
      inl (ground (arith, apply-elsewhere node.inner (Op.register key c) k))
  session_isolation node session_key k now (pin key e c) away =
      inl (ground (arith, apply-elsewhere node.inner (Op.pin key e c) k))
  session_isolation node session_key k none (transition link c) away = inl refl
  session_isolation node session_key k (some now_ms) (transition link c) away =
      transition-isolated node session_key k now_ms link c away
  session_isolation node session_key k now (revoke link) away =
      inl (elim (Option-cases (BTreeMap.get node.inner.state session_key)) [
        | inl absent ↦ ground arith
        | inr (s, held) ↦ elim (Result-cases (verify_revocation_link v link s.control_pubkey)) [
          | inl (r, passed) ↦
              ground (arith, apply-elsewhere node.inner (Op.revoke session_key r.link_hash) k)
          | inr refused ↦ ground arith
        ]
      ])
