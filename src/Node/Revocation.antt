-- ===== src/Node/Revocation.antt =====
-- Revocations of synchronizer/src/node.rs across everything that later sessions do.
use enclavia.Base.{
  ℕ, ◌≡◌, ◌≢◌, subst, sym, Option, some, List, ok, arith, Option-cases, Result-cases, inl, inr,
}
use enclavia.Base.BTreeMap
use enclavia.Base.Key.{nat_key}
use enclavia.Machine.{
  PcrKey, Commitment, Version, LinkHash, KeyState, StateMachine, Op, ValidationError, apply,
}
use enclavia.Machine
use enclavia.Machine.Run.{authorize}
use enclavia.Machine.Finality.{IsRevoked, feed-IsRevoked, refused_of_IsRevoked, IsRevoked-revoke}
use enclavia.Protocol.Identity
use enclavia.Protocol.Chain.{ChainLink, UpgradePayload, RevocationPayload, upgrade_link_hash}
use enclavia.Wire.{transition, revoke, transition_ok, revoke_ok}
use enclavia.Wire.Links.{Verifier, VerifiedRevocation, verify_revocation_link}
use enclavia.Wire.Links.Structure.{verify_revocation_link_iff}
use enclavia.Wire.Links.Signed.{Encodes}
use enclavia.Node.{Node, handle_revoke, handle_request}
use enclavia.Node.Sessions.{Event, serve_all, serve_all_induction}
use enclavia.Node.Cutover.{IsCutover, transition_ok-IsCutover}

observed-IsRevoked :
    (sm : StateMachine) (old_key new_key k : PcrKey) (l : LinkHash)
    → IsRevoked k l sm
    → IsRevoked k l (Machine.observe_transition sm old_key new_key)
observed-IsRevoked sm old_key new_key k l r = feed-IsRevoked k l sm (authorize old_key new_key) r

module _ (v : Verifier) where
  open v use {crypto, revocations}

  verified-IsRevoked :
      (node : Node) (session_key : PcrKey) (now : Option ℕ) (link : ChainLink)
      (r : VerifiedRevocation) (s : KeyState) (payload : RevocationPayload)
      → BTreeMap.get node.inner.state session_key ≡ some s
      → verify_revocation_link v link s.control_pubkey ≡ ok r
      → r.link_hash ≡ payload.revokes_link
      → (handle_request v node session_key now (revoke link)).1 ≡ revoke_ok
      → IsRevoked session_key payload.revokes_link
          (handle_request v node session_key now (revoke link)).0.inner
  unfolding handle_request handle_revoke
  verified-IsRevoked node session_key now link r s payload held passed named h =
      elim (Result-cases (apply node.inner (Op.revoke session_key r.link_hash)).1) [
        | inl (t, p) ↦
            let e : (handle_request v node session_key now (revoke link)).0.inner
                ≡ (apply node.inner (Op.revoke session_key r.link_hash)).0 =
              ground arith in
            subst (IsRevoked session_key payload.revokes_link) (sym e) (
              subst
                (λ l.
                  IsRevoked session_key l (apply node.inner (Op.revoke session_key r.link_hash)).0)
                named (IsRevoked-revoke node.inner session_key r.link_hash t p))
        | inr (x, p) ↦ ground arith
      ]

  revoke_ok-IsRevoked :
      (node : Node) (session_key : PcrKey) (now : Option ℕ) (link : ChainLink)
      (payload : RevocationPayload)
      → Encodes revocations link.payload payload
      → (handle_request v node session_key now (revoke link)).1 ≡ revoke_ok
      → IsRevoked session_key payload.revokes_link
          (handle_request v node session_key now (revoke link)).0.inner
  unfolding handle_request handle_revoke
  revoke_ok-IsRevoked node session_key now link payload e h =
      elim (Option-cases (BTreeMap.get node.inner.state session_key)) [
        | inl absent ↦ ground arith
        | inr (s, held) ↦ elim (Result-cases (verify_revocation_link v link s.control_pubkey)) [
          | inl (r, passed) ↦
              let (payload', i, named) =
                (verify_revocation_link_iff v link s.control_pubkey r).0 passed in
              verified-IsRevoked node session_key now link r s payload held passed
                (ground (arith, named, e, i.encodes)) h
          | inr refused ↦ ground arith
        ]
      ]

  refused-IsCutover :
      (node : Node) (session_key : PcrKey) (now : Option ℕ) (link : ChainLink) (c : Commitment)
      (payload : UpgradePayload)
      → Encodes v.upgrades link.payload payload
      → IsRevoked
          (Identity.key crypto payload.from)
          (upgrade_link_hash crypto link.payload)
          node.inner
      → ¬ IsCutover v node session_key now link c
  refused-IsCutover node session_key now link c payload e r x =
      refused_of_IsRevoked
        (Machine.observe_transition node.inner (Identity.key crypto x.payload.from) session_key)
        (Identity.key crypto x.payload.from) session_key (upgrade_link_hash crypto link.payload) c
        (observed-IsRevoked node.inner _ session_key _ _
          (ground (arith, r, e, x.structured.encodes)))
        x.committed

  -- A revoked upgrade link never moves a pin. Once a session's revocation of the link hash in
  -- `payload` was answered with success, whatever events follow, no session has a transition
  -- accepted for a link out of that session's key whose payload has that hash.
  pub revoked_link_is_dead :
      (node : Node) (session_key : PcrKey) (now : Option ℕ) (link : ChainLink)
      (payload : RevocationPayload)
      → Encodes revocations link.payload payload
      → (handle_request v node session_key now (revoke link)).1 ≡ revoke_ok
      → (es : List Event) (later : PcrKey) (now' : Option ℕ) (link' : ChainLink) (c : Commitment)
        (upgrade : UpgradePayload) (w : Version)
      → Encodes v.upgrades link'.payload upgrade
      → Identity.key crypto upgrade.from ≡ session_key
      → upgrade_link_hash crypto link'.payload ≡ payload.revokes_link
      → (handle_request v
          (serve_all v (handle_request v node session_key now (revoke link)).0 es)
          later
          now'
          (transition link' c)).1
        ≢ transition_ok w
  revoked_link_is_dead node session_key now link payload e h es later now' link' c upgrade w e' from
        hash ok' =
      let after = (handle_request v node session_key now (revoke link)).0 in
      let r =
        serve_all_induction v (IsRevoked session_key payload.revokes_link)
          (feed-IsRevoked session_key payload.revokes_link) after es
          (revoke_ok-IsRevoked node session_key now link payload e h) in
      refused-IsCutover (serve_all v after es) later now' link' c upgrade e' (rw from (rw hash r))
        (transition_ok-IsCutover v (serve_all v after es) later now' link' c w ok')
