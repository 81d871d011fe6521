-- ===== src/UpgradeChain/Accepted/Signed.antt =====
-- The upgrade and revocation links that enclavia-protocol/src/chain.rs accepts.
use enclavia.Base.{
  ◌∙◌, ap, sym, ℕ, ◌≡◌, ◌≢◌, ◌↔◌, false, [], length, ok, arith, Option-cases, Result-cases, inl,
  inr,
}
use enclavia.Base.Int.{ℤ}
use enclavia.Base.Search.{find}
use enclavia.Protocol.Identity.{PinIdentity, identity_eq_iff}
use enclavia.Protocol.Signing.{upgrade_payload, revocation_payload, decode_canonical}
use enclavia.Protocol.Chain.{ChainLink, UpgradePayload, RevocationPayload}
use enclavia.Wire.Links.Signed.{decode_canonical-Encodes, Encodes-decode_canonical}
use enclavia.UpgradeChain.Link.{
  ChainVerifier, ChainContext, Outcome, append, id_is, signed_payload_seen, validate_upgrade,
  validate_revocation,
}
use enclavia.UpgradeChain.Accepted.{
  IsUpgrade, IsRevocation, Revokes, signed_by_control_key-IsSignedLink,
  IsSignedLink-signed_by_control_key,
}

module _ (v : ChainVerifier) where
  open v use {verifier, boots}
  open verifier use {crypto, upgrades, revocations}

  pub validate_upgrade-IsUpgrade :
      (link : ChainLink) (ctx : ChainContext) (attested : PinIdentity) (o : Outcome)
      → validate_upgrade v link ctx attested ≡ ok o
      → (payload : UpgradePayload) × IsUpgrade v link ctx attested payload
  unfolding validate_upgrade
  validate_upgrade-IsUpgrade link ctx attested o h =
      elim (Result-cases (decode_canonical upgrades link.payload)) [
        | inr refused ↦ ground arith
        | inl (payload, decodes) ↦ (
          payload,
          record {
            signature =
                signed_by_control_key-IsSignedLink v link ctx upgrade_payload (ground arith);
            encodes = Encodes-decode_canonical upgrades link.payload payload decodes;
            enclave = ground arith;
            window = ground arith;
            from = (identity_eq_iff payload.from attested).0 (ground arith);
          },
        )
      ]

  -- An upgrade is appended exactly when the control key signed its canonical payload as an upgrade
  -- of this upgradable enclave, with a window of at least the minimum length, from the identity
  -- that the link's document attests, the chain is not empty and holds no upgrade with the same
  -- payload; its number is the length of the chain.
  pub validate_upgrade-append_checks :
      (link : ChainLink) (ctx : ChainContext) (attested : PinIdentity) (n : ℕ)
      → (validate_upgrade v link ctx attested ≡ ok (append n)) ↔ (
          ((payload : UpgradePayload) × IsUpgrade v link ctx attested payload)
          × (signed_payload_seen link ctx.prior_chain ≡ false)
          × (ctx.prior_chain ≢ [])
          × (n ≡ length ctx.prior_chain))
  unfolding validate_upgrade
  validate_upgrade-append_checks link ctx attested n = (
    λ h. (
      validate_upgrade-IsUpgrade link ctx attested (append n) h,
      ground arith,
      ground arith,
      ground arith,
    ),
    λ ((payload, u), new, nonempty, same).
        let s = IsSignedLink-signed_by_control_key v link ctx upgrade_payload u.signature in
        let d = decode_canonical-Encodes upgrades link.payload payload u.encodes in
        let f = (identity_eq_iff payload.from attested).1 u.from in
        ground (arith, u.enclave, u.window),
  )

  pub validate_revocation-IsRevocation :
      (link : ChainLink) (ctx : ChainContext) (now : ℤ) (o : Outcome)
      → validate_revocation v link ctx now ≡ ok o
      → (payload : RevocationPayload) × IsRevocation v link ctx payload
  unfolding validate_revocation
  validate_revocation-IsRevocation link ctx now o h =
      elim (Result-cases (decode_canonical revocations link.payload)) [
        | inr refused ↦ ground arith
        | inl (payload, decodes) ↦ (
          payload,
          record {
            signature =
                signed_by_control_key-IsSignedLink v link ctx revocation_payload (ground arith);
            encodes = Encodes-decode_canonical revocations link.payload payload decodes;
            enclave = ground arith;
          },
        )
      ]

  appended-Revokes :
      (link : ChainLink) (ctx : ChainContext) (now : ℤ) (n : ℕ) (payload : RevocationPayload)
      → decode_canonical revocations link.payload ≡ ok payload
      → validate_revocation v link ctx now ≡ ok (append n)
      → ((target : ChainLink) × (cancelled : UpgradePayload) × Revokes v ctx now payload target
            cancelled)
        × (signed_payload_seen link ctx.prior_chain ≡ false)
        × (n ≡ length ctx.prior_chain)
  unfolding validate_revocation
  appended-Revokes link ctx now n payload d h =
      elim (Option-cases (find (id_is payload.revokes) ctx.prior_chain)) [
        | inl missing ↦ ground arith
        | inr (target, found) ↦ elim (Result-cases (decode_canonical upgrades target.payload)) [
          | inr refused ↦ ground arith
          | inl (cancelled, decodes) ↦ (
            (
              target,
              cancelled,
              record {
                found = found;
                is_upgrade = ground arith;
                hash = ground arith;
                encodes = Encodes-decode_canonical upgrades target.payload cancelled decodes;
                pending = ground arith;
                fresh = ground arith;
              },
            ),
            ground arith,
            ground arith,
          )
        ]
      ]

  Revokes-appended :
      (link : ChainLink) (ctx : ChainContext) (now : ℤ) (payload : RevocationPayload)
      (target : ChainLink) (cancelled : UpgradePayload)
      → IsRevocation v link ctx payload
      → Revokes v ctx now payload target cancelled
      → signed_payload_seen link ctx.prior_chain ≡ false
      → validate_revocation v link ctx now ≡ ok (append (length ctx.prior_chain))
  unfolding validate_revocation find
  Revokes-appended link ctx now payload target cancelled r c new =
      let s = IsSignedLink-signed_by_control_key v link ctx revocation_payload r.signature in
      let d = decode_canonical-Encodes revocations link.payload payload r.encodes in
      let t = decode_canonical-Encodes upgrades target.payload cancelled c.encodes in
      ground (arith, r.enclave, c.found, c.is_upgrade, c.hash, c.pending, c.fresh)

  -- A revocation is appended exactly when the control key signed its canonical payload as a
  -- revocation in this upgradable enclave, the chain holds no revocation with the same payload,
  -- and the first link with the revoked id is an upgrade whose payload has the revoked hash, that
  -- is not active yet at `now` and that no revocation of the chain names; its number is the length
  -- of the chain.
  pub validate_revocation-append_checks :
      (link : ChainLink) (ctx : ChainContext) (now : ℤ) (n : ℕ)
      → (validate_revocation v link ctx now ≡ ok (append n)) ↔ (
          ((payload : RevocationPayload) × IsRevocation v link ctx payload
            × ((target : ChainLink) × (cancelled : UpgradePayload) × Revokes v ctx now payload
                  target cancelled))
          × (signed_payload_seen link ctx.prior_chain ≡ false)
          × (n ≡ length ctx.prior_chain))
  validate_revocation-append_checks link ctx now n = (
    λ h.
        let (payload, r) = validate_revocation-IsRevocation link ctx now (append n) h in
        let d = decode_canonical-Encodes revocations link.payload payload r.encodes in
        let (cancels, new, same) = appended-Revokes link ctx now n payload d h in
        ((payload, r, cancels), new, same),
    λ ((payload, r, (target, cancelled, c)), new, same).
        Revokes-appended link ctx now payload target cancelled r c new
        ∙ ap (λ m. ok (append m)) (sym same),
  )
