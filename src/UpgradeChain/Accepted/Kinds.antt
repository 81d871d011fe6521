-- ===== src/UpgradeChain/Accepted/Kinds.antt =====
-- `validate_chain_link` of enclavia-protocol/src/chain.rs by the kind of the link.
use enclavia.Base.{◌≡◌, ap, Bool, ◌∙◌, sym, ok, arith, Result-cases, inl, inr}
use enclavia.Base.Int.{ℤ}
use enclavia.Protocol.Identity.{PinIdentity}
use enclavia.Protocol.Chain.{ChainLink}
use enclavia.UpgradeChain.Payload.{image_pcrs, pcrs_eq_iff}
use enclavia.UpgradeChain.Link.{
  ChainVerifier, ChainContext, Outcome, to_pcrs, link_attestation, require_pcrs, validate_kind,
  validate_chain_link,
}
use enclavia.UpgradeChain.Accepted.{IsAttested}

module _ (v : ChainVerifier) (link : ChainLink) (ctx : ChainContext) (now : ℤ) (debug_mode : Bool)
    (o : Outcome) where
  -- What is accepted is attested, with the recorded image PCRs, and its kind's checks accept it.
  pub accepted_by_kind :
      validate_chain_link v link ctx now debug_mode ≡ ok o
      → (attested : PinIdentity) × IsAttested v link ctx debug_mode attested
        × (validate_kind v link ctx attested now link.kind ≡ ok o)
  unfolding validate_chain_link require_pcrs
  accepted_by_kind h = elim (Result-cases (link_attestation v link debug_mode)) [
    | inr refused ↦ ground arith
    | inl (attested, valid) ↦ elim (Result-cases (to_pcrs v ctx.enclave_pcrs)) [
      | inr corrupt ↦ ground arith
      | inl (recorded, decodes) ↦ (
        attested,
        record {
          valid = valid;
          measured =
              decodes ∙ ap ok (sym ((pcrs_eq_iff (image_pcrs attested) recorded).0 (ground arith)));
        },
        ground arith,
      )
    ]
  ]
