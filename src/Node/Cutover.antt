-- ===== src/Node/Cutover.antt =====
-- Transitions of synchronizer/src/node.rs across everything that later sessions do.
use enclavia.Base.{
  ℕ, ◌≡◌, subst, refl, sym, ap, ◌∙◌, Option, none, some, List, arith, Option-cases, Result-cases,
  inl, inr,
}
use enclavia.Base.BTreeMap
use enclavia.Base.Key.{nat_key, nat_beq_iff}
use enclavia.Machine.{
  PcrKey, Commitment, Version, LinkHash, KeyState, StateMachine, Op, ValidationError, apply,
}
use enclavia.Machine
use enclavia.Machine.Spec.{IsOk}
use enclavia.Machine.Invariant.{IsValid, apply-IsValid, feed-IsValid}
use enclavia.Machine.Run.{authorize}
use enclavia.Machine.Refinement.{retired-refines}
use enclavia.Machine.Finality.{Retired, feed-Retired, not-live_of_Retired}
use enclavia.Protocol.Identity
use enclavia.Protocol.Chain.{ChainLink, UpgradePayload, upgrade_link_hash}
use enclavia.Wire.{get, transition, transition_ok, error, not_found}
use enclavia.Wire.Links.{Verifier, decode_transition_link, verify_transition_link}
use enclavia.Wire.Links.Authorized.{IsAuthorized, decoded_of, verify_transition_link_iff}
use enclavia.Wire.Links.Structure.{IsStructured, decode_transition_link_iff}
use enclavia.Node.{Node, observe_transition, handle_decoded, handle_transition, handle_request}
use enclavia.Node.Sessions.{Event, serve_all, serve_all_induction}
use enclavia.Node.Isolation.{handle_request-decoded}

Retired-transition :
    (sm : StateMachine) (o n : PcrKey) (l : LinkHash) (c : Commitment)
    → IsOk (apply sm (Op.transition o n l c)).1
    → Retired o (apply sm (Op.transition o n l c)).0
Retired-transition sm o n l c h = elim (Result-cases (apply sm (Op.transition o n l c)).1) [
  | inl (s, p) ↦ rw (retired-refines sm (Op.transition o n l c) s p o) (ground arith)
  | inr (e, p) ↦ ground arith
]

module _ (v : Verifier) where
  open v use {crypto, revocations}

  -- How a link moves the pin of its `from` to the session's key.
  pub record IsCutover (node : Node) (session_key : PcrKey) (now : Option ℕ) (link : ChainLink)
      (c : Commitment) : Type 0 where
    pub payload : UpgradePayload
    pub old : KeyState
    pub now_ms : ℕ
    pub trusted : now ≡ some now_ms
    pub structured : IsStructured v link payload
    pub held : BTreeMap.get node.inner.state (Identity.key crypto payload.from) ≡ some old
    pub authorized :
        IsAuthorized v link payload session_key old.control_pubkey node.debug_mode now_ms
    pub committed :
        IsOk
          (apply
            (Machine.observe_transition node.inner (Identity.key crypto payload.from) session_key)
            (Op.transition
              (Identity.key crypto payload.from)
              session_key
              (upgrade_link_hash crypto link.payload)
              c)).1
    pub moved :
        (handle_request v node session_key now (transition link c)).0.inner
        ≡ (apply
            (Machine.observe_transition node.inner (Identity.key crypto payload.from) session_key)
            (Op.transition
              (Identity.key crypto payload.from)
              session_key
              (upgrade_link_hash crypto link.payload)
              c)).0

  decoded-IsCutover :
      (node : Node) (session_key : PcrKey) (now_ms : ℕ) (link : ChainLink) (c : Commitment)
      (w : Version) (payload : UpgradePayload)
      → IsStructured v link payload
      → handle_request v node session_key (some now_ms) (transition link c)
        ≡ handle_decoded v node session_key link c now_ms (decoded_of v payload)
      → (handle_decoded v node session_key link c now_ms (decoded_of v payload)).1 ≡ transition_ok w
      → IsCutover node session_key (some now_ms) link c
  unfolding upgrade_link_hash handle_decoded observe_transition
  decoded-IsCutover node session_key now_ms link c w payload s e h =
      elim (Option-cases (BTreeMap.get node.inner.state (Identity.key crypto payload.from))) [
        | inl absent ↦ ground arith
        | inr (old, held) ↦
            elim (Result-cases (
              verify_transition_link v link (decoded_of v payload) session_key old.control_pubkey
                node.debug_mode now_ms)) [
                  | inl (verified, passed) ↦
                      let (a, same) =
                        (verify_transition_link_iff v link payload session_key old.control_pubkey
                            node.debug_mode now_ms verified s.encodes).0
                          passed in
                      record {
                        payload = payload;
                        old = old;
                        now_ms = now_ms;
                        trusted = refl;
                        structured = s;
                        held = held;
                        authorized = a;
                        committed = ground (arith, same, a.submitter);
                        moved = ap (λ x. x.0.inner) e ∙ ground (arith, same, a.submitter);
                      }
                  | inr refused ↦ ground arith
                ]
      ]

  -- A transition is accepted only as a cutover.
  pub transition_ok-IsCutover :
      (node : Node) (session_key : PcrKey) (now : Option ℕ) (link : ChainLink) (c : Commitment)
      (w : Version)
      → (handle_request v node session_key now (transition link c)).1 ≡ transition_ok w
      → IsCutover node session_key now link c
  unfolding handle_request handle_transition
  transition_ok-IsCutover node session_key none link c w h = ground arith
  transition_ok-IsCutover node session_key (some now_ms) link c w h =
      elim (Result-cases (decode_transition_link v link)) [
        | inl (d, passed) ↦
            let (payload, s, same) = (decode_transition_link_iff v link d).0 passed in
            let e = handle_request-decoded v node session_key now_ms link c d payload passed same in
            decoded-IsCutover node session_key now_ms link c w payload s e
              (ap (λ x. x.1) (sym e) ∙ h)
        | inr refused ↦ ground arith
      ]

  IsCutover-Retired :
      (node : Node) (session_key : PcrKey) (now : Option ℕ) (link : ChainLink) (c : Commitment)
      → IsValid node.inner
      → (x : IsCutover node session_key now link c)
      → IsValid (handle_request v node session_key now (transition link c)).0.inner
        × Retired
            (Identity.key crypto x.payload.from)
            (handle_request v node session_key now (transition link c)).0.inner
  IsCutover-Retired node session_key now link c valid x =
      let k = Identity.key crypto x.payload.from in
      let sm = Machine.observe_transition node.inner k session_key in
      let op = Op.transition k session_key (upgrade_link_hash crypto link.payload) c in
      subst (λ m. IsValid m × Retired k m) (sym x.moved)
        (
          apply-IsValid sm op (feed-IsValid node.inner (authorize k session_key) valid),
          Retired-transition sm k session_key (upgrade_link_hash crypto link.payload) c x.committed,
        )

  not_found_of_Retired :
      (node : Node) (k : PcrKey) (now : Option ℕ)
      → IsValid node.inner
      → Retired k node.inner
      → (handle_request v node k now (get k)).1 ≡ error not_found
  unfolding handle_request
  not_found_of_Retired node k now valid r =
      ground (arith, not-live_of_Retired k node.inner valid r, (nat_beq_iff k k).1 refl)

  -- A cutover is final. A transition that a node with a valid machine accepted has a structured
  -- upgrade link, and whatever events follow, the key that the link moves away from is retired: its
  -- own session's `Get` is answered `NotFound`.
  pub cutover_is_final :
      (node : Node) (session_key : PcrKey) (now : Option ℕ) (link : ChainLink) (c : Commitment)
      (w : Version)
      → IsValid node.inner
      → (handle_request v node session_key now (transition link c)).1 ≡ transition_ok w
      → (payload : UpgradePayload) × IsStructured v link payload
        × ((es : List Event) (now' : Option ℕ)
            → Retired
                (Identity.key crypto payload.from)
                (serve_all v (handle_request v node session_key now (transition link c)).0 es).inner
              × ((handle_request v
                    (serve_all v (handle_request v node session_key now (transition link c)).0 es)
                    (Identity.key crypto payload.from)
                    now'
                    (get (Identity.key crypto payload.from))).1
                  ≡ error not_found))
  cutover_is_final node session_key now link c w valid h =
      let x = transition_ok-IsCutover node session_key now link c w h in
      let k = Identity.key crypto x.payload.from in
      (
        x.payload,
        x.structured,
        λ es now'.
            let after = (handle_request v node session_key now (transition link c)).0 in
            let (valid', r) =
              serve_all_induction v (λ sm. IsValid sm × Retired k sm)
                (λ sm i (vm, rm). (feed-IsValid sm i vm, feed-Retired k sm i rm)) after es
                (IsCutover-Retired node session_key now link c valid x) in
            (r, not_found_of_Retired (serve_all v after es) k now' valid' r),
      )
