-- ===== src/UpgradeChain/Walk/Lineage/Signed.antt =====
-- What an accepted upgrade or revocation adds to the lineage of a walk of
-- enclavia-protocol/src/chain.rs.
use enclavia.Base.{◌≡◌, sym, ap, ◌∙◌, false, none, ok, arith, inl, inr}
use enclavia.Base.Int.{ℤ}
use enclavia.Base.Search.{find}
use enclavia.Protocol.Identity.{PinIdentity}
use enclavia.Protocol.Signing.{upgrade}
use enclavia.Protocol.Chain.{ChainLink, UpgradePayload}
use enclavia.Wire.Links.Signed.{Encodes, decode_canonical-Encodes}
use enclavia.UpgradeChain.Payload.{is_empty, list_cases, image_pcrs}
use enclavia.UpgradeChain.Link.{
  ChainVerifier, Outcome, validate_upgrade, validate_revocation, signed_payload_seen, ChainContext,
  id_is, to_pcrs,
}
use enclavia.UpgradeChain.Accepted.{IsAttested}
use enclavia.UpgradeChain.Accepted.Signed.{
  validate_upgrade-IsUpgrade, validate_revocation-IsRevocation,
}
use enclavia.UpgradeChain.Walk.{WalkArguments, InForce, Walk, context_in, signed_context}
use enclavia.UpgradeChain.Walk.Lineage.{IsSound, IsAuthorized}

module _ (v : ChainVerifier) (link : ChainLink) (ctx : ChainContext) (o : Outcome) where
  open v use {verifier}
  open verifier use {revocations}

  -- A signed link is never accepted first.
  pub upgrade_is_later :
      (attested : PinIdentity)
      → validate_upgrade v link ctx attested ≡ ok o
      → is_empty ctx.prior_chain ≡ false
  unfolding validate_upgrade signed_payload_seen
  upgrade_is_later attested h = elim (list_cases ctx.prior_chain) [
    | inr later ↦ later
    | inl first ↦
        let unseen : signed_payload_seen link ctx.prior_chain ≡ false =
          ap (signed_payload_seen link) first in
        absurd (ground arith)
  ]

  pub revocation_is_later :
      (now : ℤ) → validate_revocation v link ctx now ≡ ok o → is_empty ctx.prior_chain ≡ false
  unfolding validate_revocation signed_payload_seen find
  revocation_is_later now h = elim (list_cases ctx.prior_chain) [
    | inr later ↦ later
    | inl first ↦
        let unseen : signed_payload_seen link ctx.prior_chain ≡ false =
          ap (signed_payload_seen link) first in
        let (payload, r) = validate_revocation-IsRevocation v link ctx now o h in
        let d = decode_canonical-Encodes revocations link.payload payload r.encodes in
        let missing : find (id_is payload.revokes) ctx.prior_chain ≡ none =
          ap (find (id_is payload.revokes)) first in
        absurd (ground arith)
  ]

module _ (v : ChainVerifier) (a : WalkArguments) (OnChain : ChainLink → Type 0) where
  open v use {verifier}
  open verifier use {upgrades}

  pub upgrade_lands :
      (w : Walk v) (link : ChainLink) (attested : PinIdentity) (o : Outcome)
      → IsSound v a OnChain w
      → OnChain link
      → link.kind ≡ upgrade
      → IsAttested v link (context_in v a w (signed_context v a w).state) a.debug_mode attested
      → validate_upgrade v link (context_in v a w (signed_context v a w).state) attested ≡ ok o
      → (t : UpgradePayload) × Encodes upgrades link.payload t × IsAuthorized v a OnChain link t
  unfolding signed_context
  upgrade_lands w link attested o s on k t h =
      let (state, f) =
        s.started
          (upgrade_is_later v link (context_in v a w (signed_context v a w).state) o attested h) in
      let (identity, _, reached) = s.tip state f in
      let (payload, u) =
        validate_upgrade-IsUpgrade v link (context_in v a w (signed_context v a w).state) attested o
          h in
      let same : (signed_context v a w).state ≡ state = ground arith in
      (
        payload,
        u.encodes,
        (
          state,
          (identity, reached),
          record {
            on_chain = on;
            is_upgrade = k;
            encodes = u.encodes;
            enclave = u.enclave;
            pk = u.signature.pk;
            key = u.signature.key;
            signed = u.signature.signed;
            window = u.window;
            valid = t.valid ∙ ap ok (sym u.from);
            measured =
                ap (λ (f : InForce). to_pcrs v f.pcrs) (sym same)
                ∙ (t.measured ∙ ap (λ i. ok (image_pcrs i)) (sym u.from));
          },
        ),
      )
