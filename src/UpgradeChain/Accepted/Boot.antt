-- ===== src/UpgradeChain/Accepted/Boot.antt =====
-- The boot links that enclavia-protocol/src/chain.rs accepts.
use enclavia.Base.{
  ◌∙◌, ap, sym, ℕ, ◌≡◌, ◌↔◌, true, false, ◌⊎◌, none, some, length, ok, arith, Option-cases,
  Result-cases, inl, inr,
}
use enclavia.Base.Bytes.{bytes_eq, bytes_eq_iff}
use enclavia.Base.Search.{find_last}
use enclavia.Protocol.Signing.{decode_canonical}
use enclavia.Protocol.Chain.{ChainLink}
use enclavia.Wire.Links.Signed.{Encodes, decode_canonical-Encodes, Encodes-decode_canonical}
use enclavia.UpgradeChain.Payload.{BootPayload, check_successor, pcrs_hex_eq_iff}
use enclavia.UpgradeChain.Link.{
  ChainVerifier, ChainContext, Outcome, append, is_boot, validate_boot,
}
use enclavia.UpgradeChain.Accepted.{IsBoot}

module _ (v : ChainVerifier) where
  open v use {verifier, boots}
  open verifier use {crypto, upgrades, revocations}

  -- What a new boot must be next to the last boot of the chain.
  pub record Succeeds (ctx : ChainContext) (payload : BootPayload) (prev : ChainLink)
      (previous : BootPayload) : Type 0 where
    pub last : find_last is_boot ctx.prior_chain ≡ some prev
    pub encodes : Encodes boots prev.payload previous
    pub upgradable : ctx.upgradable ≡ true
    pub other_image : bytes_eq previous.image_digest payload.image_digest ≡ false
    pub anti_rollback : check_successor previous.anti_rollback payload.anti_rollback ≡ ok tt

  abbrev pub IsNewBoot : ChainContext → BootPayload → Type 0
  IsNewBoot ctx payload =
      (find_last is_boot ctx.prior_chain ≡ none)
      ⊎ ((prev : ChainLink) × (previous : BootPayload) × Succeeds ctx payload prev previous)

  pub validate_boot-IsBoot :
      (link : ChainLink) (ctx : ChainContext) (o : Outcome)
      → validate_boot v link ctx ≡ ok o
      → (payload : BootPayload) × IsBoot v link ctx payload
  unfolding validate_boot
  validate_boot-IsBoot link ctx o h = elim (Result-cases (decode_canonical boots link.payload)) [
    | inr refused ↦ ground arith
    | inl (payload, decodes) ↦ (
      payload,
      record {
        unsigned = ground arith;
        encodes = Encodes-decode_canonical boots link.payload payload decodes;
        enclave = ground arith;
        pcrs = (pcrs_hex_eq_iff payload.pcrs ctx.enclave_pcrs).0 (ground arith);
        digest = (bytes_eq_iff payload.image_digest ctx.enclave_image_digest).0 (ground arith);
      },
    )
  ]

  appended-IsNewBoot :
      (link : ChainLink) (ctx : ChainContext) (n : ℕ) (payload : BootPayload)
      → decode_canonical boots link.payload ≡ ok payload
      → validate_boot v link ctx ≡ ok (append n)
      → IsNewBoot ctx payload × (n ≡ length ctx.prior_chain)
  unfolding validate_boot
  appended-IsNewBoot link ctx n payload d h =
      elim (Option-cases (find_last is_boot ctx.prior_chain)) [
        | inl first ↦ (inl first, ground arith)
        | inr (prev, last) ↦ elim (Result-cases (decode_canonical boots prev.payload)) [
          | inr refused ↦ ground arith
          | inl (previous, decodes) ↦ (
            inr (
              prev,
              previous,
              record {
                last = last;
                encodes = Encodes-decode_canonical boots prev.payload previous decodes;
                upgradable = ground arith;
                other_image = ground arith;
                anti_rollback = ground arith;
              },
            ),
            ground arith,
          )
        ]
      ]

  IsNewBoot-appended :
      (link : ChainLink) (ctx : ChainContext) (payload : BootPayload)
      → IsBoot v link ctx payload
      → IsNewBoot ctx payload
      → validate_boot v link ctx ≡ ok (append (length ctx.prior_chain))
  unfolding validate_boot
  IsNewBoot-appended link ctx payload b n =
      let d = decode_canonical-Encodes boots link.payload payload b.encodes in
      let p = (pcrs_hex_eq_iff payload.pcrs ctx.enclave_pcrs).1 b.pcrs in
      let i = (bytes_eq_iff payload.image_digest ctx.enclave_image_digest).1 b.digest in
      elim n [
        | inl first ↦ ground (arith, b.unsigned, b.enclave)
        | inr (prev, previous, s) ↦
            let e = decode_canonical-Encodes boots prev.payload previous s.encodes in
            ground
              (arith, b.unsigned, b.enclave, s.last, s.upgradable, s.other_image, s.anti_rollback)
      ]

  -- A boot is appended exactly when it carries no signature, its payload is canonical and names the
  -- enclave, its recorded PCRs and its image digest, and either no boot precedes it, or the enclave
  -- is upgradable, the last boot is of another image, and its anti-rollback setting allows the new
  -- one as its successor; its number is the length of the chain.
  pub validate_boot-append_checks :
      (link : ChainLink) (ctx : ChainContext) (n : ℕ)
      → (validate_boot v link ctx ≡ ok (append n)) ↔ (
          ((payload : BootPayload) × IsBoot v link ctx payload × IsNewBoot ctx payload)
          × (n ≡ length ctx.prior_chain))
  validate_boot-append_checks link ctx n = (
    λ h.
        let (payload, b) = validate_boot-IsBoot link ctx (append n) h in
        let d = decode_canonical-Encodes boots link.payload payload b.encodes in
        let (new, same) = appended-IsNewBoot link ctx n payload d h in ((payload, b, new), same),
    λ ((payload, b, new), same).
        IsNewBoot-appended link ctx payload b new ∙ ap (λ m. ok (append m)) (sym same),
  )
