-- ===== src/Node/ReadBack.antt =====
-- What a session reads after an answer of synchronizer/src/node.rs.
use enclavia.Base.{
  ℕ, ◌≡◌, ◌≢◌, subst, refl, sym, ap, ◌∙◌, ◌==◌, Option, none, some, ok, arith, Bool-cases,
  Option-cases, Result-cases, inl, inr,
}
use enclavia.Base.BTreeMap
use enclavia.Base.BTreeMap.{BTreeMap}
use enclavia.Base.Key.{nat_key, nat_beq_iff}
use enclavia.Machine.{PcrKey, Commitment, Version, KeyState, Op, ValidationError}
use enclavia.Protocol.Chain.{ChainLink}
use enclavia.Wire.{
  Request, get, register, pin, transition, revoke, Response, get_ok, register_ok, pin_ok,
  transition_ok, revoke_ok, error, RpcError, rpc_error,
}
use enclavia.Wire.Links.{
  Verifier, DecodedTransition, VerifiedTransition, decode_transition_link, verify_transition_link,
}
use enclavia.Wire.Links.Authorized.{verified-keys}
use enclavia.Node.{
  Handled, Node, transition_error, observe_transition, answer, handle_decoded, handle_transition,
  handle_request,
}
use enclavia.Machine.Spec.{touched}
use enclavia.Node.Answers.{Written, IsHeld-answer}

module _ (v : Verifier) where
  -- What an answer tells the session that a `Get` will answer next.
  abbrev pub told : Request → Response → Option Response
  told (get _) (get_ok c w) = some (get_ok c w)
  told (register _ c) register_ok = some (get_ok c 0)
  told (pin _ _ c) (pin_ok w) = some (get_ok c w)
  told (transition _ c) (transition_ok w) = some (get_ok c w)
  told _ _ = none

  -- A `Get` of the session's key at the state `sm`.
  abbrev pub Reads : Node → PcrKey → Response → Type 0
  Reads node session_key r =
      (now : Option ℕ) → (handle_request v node session_key now (get session_key)).1 ≡ r

  Reads-held :
      (node : Node) (session_key : PcrKey) (s : KeyState)
      → BTreeMap.get node.inner.state session_key ≡ some s
      → Reads node session_key (get_ok s.commitment s.version)
  unfolding handle_request
  Reads-held node session_key s h now = ground (arith, (nat_beq_iff session_key session_key).1 refl)

  -- What a verified link is answered with.
  abbrev answered : Node → VerifiedTransition → Commitment → Handled
  answered node r c =
      answer (observe_transition node r.old_key r.new_key)
        (Op.transition r.old_key r.new_key r.link_hash c) (λ state. transition_ok state.version)
        transition_error

  pub handle_decoded-verified :
      (node : Node) (session_key : PcrKey) (link : ChainLink) (c : Commitment) (now_ms : ℕ)
      (d : DecodedTransition) (s : KeyState) (r : VerifiedTransition)
      → BTreeMap.get node.inner.state d.old_key ≡ some s
      → verify_transition_link v link d session_key s.control_pubkey node.debug_mode now_ms ≡ ok r
      → handle_decoded v node session_key link c now_ms d ≡ answered node r c
  unfolding handle_decoded
  handle_decoded-verified node session_key link c now_ms d s r p q = ground arith

  Reads-answer :
      (node : Node) (session_key : PcrKey) (op : Op) (f : KeyState → Response)
      (g : ValidationError → RpcError) (answered r : Response)
      → touched op ≡ session_key
      → ((e : RpcError) → answered ≢ error e)
      → (answer node op f g).1 ≡ answered
      → ((s : KeyState) → Written op s → f s ≡ answered → get_ok s.commitment s.version ≡ r)
      → Reads (answer node op f g).0 session_key r
  Reads-answer node session_key op f g answered r same never h reads now =
      let (held, p) = IsHeld-answer node op f g answered never h in
      Reads-held (answer node op f g).0 session_key held.entry (rw (← same) held.held) now
      ∙ reads held.entry held.written p

  Reads-answered :
      (node : Node) (session_key : PcrKey) (r : VerifiedTransition) (c : Commitment) (w : Version)
      → r.new_key ≡ session_key
      → (answered node r c).1 ≡ transition_ok w
      → Reads (answered node r c).0 session_key (get_ok c w)
  Reads-answered node session_key r c w same h =
      Reads-answer (observe_transition node r.old_key r.new_key) session_key
        (Op.transition r.old_key r.new_key r.link_hash c) (λ state. transition_ok state.version)
        transition_error (transition_ok w) (get_ok c w) same (λ e. ground arith) h
        (λ s written p. ground arith)

  Reads-decoded :
      (node : Node) (session_key : PcrKey) (link : ChainLink) (c : Commitment) (now_ms : ℕ)
      (d : DecodedTransition) (w : Version)
      → (handle_decoded v node session_key link c now_ms d).1 ≡ transition_ok w
      → Reads (handle_decoded v node session_key link c now_ms d).0 session_key (get_ok c w)
  unfolding handle_decoded
  Reads-decoded node session_key link c now_ms d w h =
      elim (Option-cases (BTreeMap.get node.inner.state d.old_key)) [
        | inl absent ↦ ground arith
        | inr (s, p) ↦
            elim (Result-cases (
              verify_transition_link v link d session_key s.control_pubkey node.debug_mode
                now_ms)) [
                  | inl (verified, q) ↦
                      let e =
                        handle_decoded-verified node session_key link c now_ms d s verified p q in
                      let (old, new) =
                        verified-keys v link d session_key s.control_pubkey node.debug_mode now_ms
                          verified q in
                      subst (λ x. Reads x.0 session_key (get_ok c w)) (sym e)
                        (Reads-answered node session_key verified c w new
                          (ap (λ x. x.1) (sym e) ∙ h))
                  | inr refused ↦ ground arith
                ]
      ]

  Reads-transition :
      (node : Node) (session_key : PcrKey) (link : ChainLink) (c : Commitment) (now : Option ℕ)
      (w : Version)
      → (handle_transition v node session_key link c now).1 ≡ transition_ok w
      → Reads (handle_transition v node session_key link c now).0 session_key (get_ok c w)
  unfolding handle_transition
  Reads-transition node session_key link c none w h = ground arith
  Reads-transition node session_key link c (some now_ms) w h =
      elim (Result-cases (decode_transition_link v link)) [
        | inl (d, p) ↦
            let e : handle_transition v node session_key link c (some now_ms)
                ≡ handle_decoded v node session_key link c now_ms d =
              ground arith in
            subst (λ x. Reads x.0 session_key (get_ok c w)) (sym e)
              (Reads-decoded node session_key link c now_ms d w (ap (λ x. x.1) (sym e) ∙ h))
        | inr refused ↦ ground arith
      ]

  told_error : (req : Request) (e : RpcError) → told req (error e) ≡ none
  told_error (get key) e = refl
  told_error (register key c) e = refl
  told_error (pin key v c) e = refl
  told_error (transition link c) e = refl
  told_error (revoke link) e = refl

  told-never :
      (req : Request) (answered r : Response)
      → told req answered ≡ some r
      → (e : RpcError) → answered ≢ error e
  told-never req answered r h e p =
      let q : none ≡ some r = sym (told_error req e) ∙ ap (told req) (sym p) ∙ h in cc

  told-register :
      (key : PcrKey) (c : Commitment) (f : Response) (r : Response)
      → told (register key c) f ≡ some r
      → (f ≡ register_ok) × (r ≡ get_ok c 0)
  told-register key c register_ok r h = ground arith
  told-register key c (get_ok _ _) r h = ground arith
  told-register key c (pin_ok _) r h = ground arith
  told-register key c (transition_ok _) r h = ground arith
  told-register key c revoke_ok r h = ground arith
  told-register key c (error _) r h = ground arith

  Reads-register :
      (node : Node) (session_key : PcrKey) (now : Option ℕ) (key : PcrKey) (c : Commitment)
      (r : Response)
      → told (register key c) (handle_request v node session_key now (register key c)).1 ≡ some r
      → Reads (handle_request v node session_key now (register key c)).0 session_key r
  unfolding handle_request
  Reads-register node session_key now key c r h = elim (Bool-cases (key == session_key)) [
    | inl same ↦
        let e : handle_request v node session_key now (register key c)
            ≡ answer node (Op.register key c) (λ _. register_ok) rpc_error =
          ground arith in
        let t = ap (λ x. told (register key c) x.1) (sym e) ∙ h in
        subst (λ x. Reads x.0 session_key r) (sym e)
          (Reads-answer node session_key (Op.register key c) (λ _. register_ok) rpc_error _ r
            ((nat_beq_iff key session_key).0 same) (told-never (register key c) _ r t) refl
            (λ s written p. ground (arith, told-register key c _ r t)))
    | inr other ↦ ground arith
  ]

  told-pin :
      (key : PcrKey) (v : Version) (c : Commitment) (f r : Response)
      → told (pin key v c) f ≡ some r
      → (w : Version) × (f ≡ pin_ok w) × (r ≡ get_ok c w)
  told-pin key v c register_ok r h = ground arith
  told-pin key v c (get_ok _ _) r h = ground arith
  told-pin key v c (pin_ok w) r h = (w, refl, ground arith)
  told-pin key v c (transition_ok _) r h = ground arith
  told-pin key v c revoke_ok r h = ground arith
  told-pin key v c (error _) r h = ground arith

  told-transition :
      (link : ChainLink) (c : Commitment) (f r : Response)
      → told (transition link c) f ≡ some r
      → (w : Version) × (f ≡ transition_ok w) × (r ≡ get_ok c w)
  told-transition link c register_ok r h = ground arith
  told-transition link c (get_ok _ _) r h = ground arith
  told-transition link c (pin_ok _) r h = ground arith
  told-transition link c (transition_ok w) r h = (w, refl, ground arith)
  told-transition link c revoke_ok r h = ground arith
  told-transition link c (error _) r h = ground arith

  Reads-pin :
      (node : Node) (session_key : PcrKey) (now : Option ℕ) (key : PcrKey) (e : Version)
      (c : Commitment) (r : Response)
      → told (pin key e c) (handle_request v node session_key now (pin key e c)).1 ≡ some r
      → Reads (handle_request v node session_key now (pin key e c)).0 session_key r
  unfolding handle_request
  Reads-pin node session_key now key e c r h = elim (Bool-cases (key == session_key)) [
    | inl same ↦
        let p : handle_request v node session_key now (pin key e c)
            ≡ answer node (Op.pin key e c) (λ state. pin_ok state.version) rpc_error =
          ground arith in
        let (w, told, read) = told-pin key e c _ r (ap (λ x. told (pin key e c) x.1) (sym p) ∙ h) in
        subst (λ x. Reads x.0 session_key r) (sym p)
          (Reads-answer node session_key (Op.pin key e c) (λ state. pin_ok state.version) rpc_error
            _ r ((nat_beq_iff key session_key).0 same) (λ x. ground arith) told
            (λ s written q. ground arith))
    | inr other ↦ ground arith
  ]

  -- A session reads back what it was told. Whatever a request of the session was answered with, a
  -- `Get` that follows is answered with the commitment and the version that the answer stands
  -- for: a registration with its commitment at version 0, a pin with its commitment at the version
  -- it returned, a transition with the commitment it required at the version it returned.
  pub read_your_writes :
      (node : Node) (session_key : PcrKey) (now : Option ℕ) (req : Request) (r : Response)
      → told req (handle_request v node session_key now req).1 ≡ some r
      → Reads (handle_request v node session_key now req).0 session_key r
  unfolding handle_request
  read_your_writes node session_key now (get key) r h = ground (arith, nat_beq_iff key session_key)
  read_your_writes node session_key now (register key c) r h =
      Reads-register node session_key now key c r h
  read_your_writes node session_key now (pin key e c) r h =
      Reads-pin node session_key now key e c r h
  read_your_writes node session_key now (transition link c) r h =
      let (w, same, read) = told-transition link c _ r h in
      rw read (Reads-transition node session_key link c now w same)
  read_your_writes node session_key now (revoke link) r h = ground arith
