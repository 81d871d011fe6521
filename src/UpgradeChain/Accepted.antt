-- ===== src/UpgradeChain/Accepted.antt =====
-- Which links `validate_chain_link` of enclavia-protocol/src/chain.rs accepts, described without its
-- order of checks.
pub mod Earlier
pub mod Described
pub mod Cancelled
pub mod Kinds
pub mod Boot
pub mod Signed
use enclavia.Base.{
  ◌∙◌, ap, sym, ℕ, zero, suc, ◌≡◌, ◌≢◌, ◌↔◌, refl, Bool, true, false, not, ◌==◌, ◌⊎◌, Option, none,
  some, List, [], ◌∷◌, length, Result, ok, err, arith, Bool-cases, Option-cases, Result-cases, inl,
  inr,
}
use enclavia.Base.Int.{ℤ, leb_plus}
use enclavia.Base.Bytes.{Bytes, bytes_eq_iff}
use enclavia.Base.Search.{find, find_last}
use enclavia.Machine.{ControlPubkey}
use enclavia.Protocol.Identity.{PinIdentity, identity_eq_iff}
use enclavia.Protocol.Signing.{
  ChainLinkKind, boot, upgrade, revocation, upgrade_payload, revocation_payload, SignedDomain,
  verify_control_signature, decode_canonical,
}
use enclavia.Protocol.Chain.{
  ChainLink, UpgradePayload, RevocationPayload, upgrade_window_is_valid, upgrade_link_hash,
}
use enclavia.Wire.Links.Signed.{
  Encodes, IsSigned, decode_canonical-Encodes, Encodes-decode_canonical,
  verify_control_signature-IsSigned,
}
use enclavia.UpgradeChain.Payload.{
  Pcrs, BootPayload, check_successor, image_pcrs, pcrs_eq_iff, pcrs_hex_eq_iff,
}
use enclavia.UpgradeChain.Link.{
  ChainVerifier, ChainContext, Outcome, append, dedup, kind_eq, id_is, is_boot, signed_payload_seen,
  to_pcrs, link_attestation, require_pcrs, validate_boot, signed_by_control_key, validate_upgrade,
  check_not_revoked, validate_revocation, validate_chain_link,
}

module _ (v : ChainVerifier) where
  open v use {verifier, boots}
  open verifier use {crypto, upgrades, revocations}

  -- The link carries a document that validates against its payload, with the recorded image PCRs.
  pub record IsAttested (link : ChainLink) (ctx : ChainContext) (debug_mode : Bool)
      (attested : PinIdentity) : Type 0 where
    pub valid : link_attestation v link debug_mode ≡ ok attested
    pub measured : to_pcrs v ctx.enclave_pcrs ≡ ok (image_pcrs attested)

  pub record IsSignedLink (link : ChainLink) (ctx : ChainContext) (domain : SignedDomain)
      : Type 0 where
    pub upgradable : ctx.upgradable ≡ true
    pub pk : ControlPubkey
    pub key : ctx.control_public_key ≡ some pk
    pub signed : IsSigned crypto pk domain link.payload link.signature

  pub record IsBoot (link : ChainLink) (ctx : ChainContext) (payload : BootPayload) : Type 0 where
    pub unsigned : link.signature ≡ none
    pub encodes : Encodes boots link.payload payload
    pub enclave : payload.enclave_id ≡ ctx.enclave_id
    pub pcrs : payload.pcrs ≡ ctx.enclave_pcrs
    pub digest : payload.image_digest ≡ ctx.enclave_image_digest

  pub record IsUpgrade (link : ChainLink) (ctx : ChainContext) (attested : PinIdentity)
      (payload : UpgradePayload) : Type 0 where
    pub signature : IsSignedLink link ctx upgrade_payload
    pub encodes : Encodes upgrades link.payload payload
    pub enclave : payload.enclave_id ≡ ctx.enclave_id
    pub window : upgrade_window_is_valid payload.valid_from payload.valid_until ≡ true
    pub from : payload.from ≡ attested

  -- The upgrade that a revocation cancels, before its activation.
  pub record Revokes (ctx : ChainContext) (now : ℤ) (payload : RevocationPayload)
      (target : ChainLink) (cancelled : UpgradePayload) : Type 0 where
    pub found : find (id_is payload.revokes) ctx.prior_chain ≡ some target
    pub is_upgrade : target.kind ≡ upgrade
    pub hash : payload.revokes_link ≡ upgrade_link_hash crypto target.payload
    pub encodes : Encodes upgrades target.payload cancelled
    pub pending : leb_plus cancelled.valid_from 0 now 0 ≡ false
    pub fresh : check_not_revoked v payload.revokes ctx.prior_chain ≡ ok tt

  pub record IsRevocation (link : ChainLink) (ctx : ChainContext) (payload : RevocationPayload)
      : Type 0 where
    pub signature : IsSignedLink link ctx revocation_payload
    pub encodes : Encodes revocations link.payload payload
    pub enclave : payload.enclave_id ≡ ctx.enclave_id

  pub signed_by_control_key-IsSignedLink :
      (link : ChainLink) (ctx : ChainContext) (domain : SignedDomain)
      → signed_by_control_key v link ctx domain ≡ ok tt
      → IsSignedLink link ctx domain
  unfolding signed_by_control_key
  signed_by_control_key-IsSignedLink link ctx domain h = elim (Option-cases link.signature) [
    | inl absent ↦ ground arith
    | inr (sig_bytes, present) ↦ elim (Option-cases ctx.control_public_key) [
      | inl absent ↦ ground arith
      | inr (pk, key) ↦ elim (Option-cases (crypto.from_sec1_bytes pk)) [
        | inl absent ↦ ground arith
        | inr (verifying, pubkey) ↦ record {
          upgradable = ground arith;
          pk = pk;
          key = key;
          signed =
              verify_control_signature-IsSigned crypto pk domain link.payload sig_bytes
                link.signature verifying present pubkey (ground arith);
        }
      ]
    ]
  ]

  pub IsSignedLink-signed_by_control_key :
      (link : ChainLink) (ctx : ChainContext) (domain : SignedDomain)
      → IsSignedLink link ctx domain
      → signed_by_control_key v link ctx domain ≡ ok tt
  unfolding signed_by_control_key verify_control_signature
  IsSignedLink-signed_by_control_key link ctx domain s =
      ground (arith, s.upgradable, s.key, s.signed)
