-- ===== src/UpgradeChain/Walk/Target.antt =====
-- Which upgrade `promotion_target` of enclavia-protocol/src/chain.rs finds for a boot.
use enclavia.Base.{
  ◌==◌, ◌≡◌, ◌≢◌, refl, sym, subst, ◌∙◌, true, false, some, List, [], ◌∷◌, ◌++◌, ok, arith,
  Bool-cases, Option-cases, Result-cases, inl, inr,
}
use enclavia.Base.Bytes.{Bytes, bytes_eq_iff}
use enclavia.Base.Search.{any, append_assoc}
use enclavia.Protocol.Signing.{upgrade, revocation, decode_canonical}
use enclavia.Protocol.Chain.{ChainLink, UpgradePayload, RevocationPayload}
use enclavia.UpgradeChain.Payload.{PcrsHex, pcrs_hex_eq_iff, image_pcrs_hex}
use enclavia.UpgradeChain.Link.{ChainVerifier, kind_eq, signed_payload_seen}
use enclavia.UpgradeChain.Walk.{revoked_ids, explains, last_explaining, promotion_target}

module _ (v : ChainVerifier) where
  open v use {verifier, hex_encode}
  open verifier use {upgrades, revocations}

  -- An upgrade of the chain that is not revoked on it, whose payload is no copy of an earlier one,
  -- to the measurements and the image of the boot.
  pub record IsTarget (prior : List ChainLink) (boot_pcrs : PcrsHex) (boot_image_digest : Bytes)
      (target : UpgradePayload) : Type 0 where
    pub before : List ChainLink
    pub link : ChainLink
    pub after : List ChainLink
    pub place : prior ≡ before ++ (link ∷ after)
    pub is_upgrade : link.kind ≡ upgrade
    pub decodes : decode_canonical upgrades link.payload ≡ ok target
    pub original : signed_payload_seen link before ≡ false
    pub unrevoked :
        (r : ChainLink) (xs ys : List ChainLink) (p : RevocationPayload)
        → prior ≡ xs ++ (r ∷ ys)
        → r.kind ≡ revocation
        → decode_canonical revocations r.payload ≡ ok p
        → link.id ≢ some p.revokes
    pub pcrs : image_pcrs_hex hex_encode target.to ≡ boot_pcrs
    pub digest : target.image_digest ≡ boot_image_digest

  revoked_id_found :
      (xs : List ChainLink) (r : ChainLink) (ys : List ChainLink) (p : RevocationPayload)
      → r.kind ≡ revocation
      → decode_canonical revocations r.payload ≡ ok p
      → any (λ j. j == p.revokes) (revoked_ids v (xs ++ (r ∷ ys))) ≡ true
  unfolding any revoked_ids
  revoked_id_found [] r ys p k d = ground arith
  revoked_id_found (l ∷ xs) r ys p k d = elim (Bool-cases (kind_eq l.kind revocation)) [
    | inr other ↦ ground (arith, revoked_id_found xs r ys p k d)
    | inl revokes ↦ elim (Result-cases (decode_canonical revocations l.payload)) [
      | inl (q, decodes) ↦ ground (arith, revoked_id_found xs r ys p k d)
      | inr corrupt ↦ ground (arith, revoked_id_found xs r ys p k d)
    ]
  ]

  explained-IsTarget :
      (prior : List ChainLink) (boot_pcrs : PcrsHex) (boot_image_digest : Bytes)
      (before : List ChainLink) (l : ChainLink) (after : List ChainLink) (target : UpgradePayload)
      → prior ≡ before ++ (l ∷ after)
      → explains v (revoked_ids v prior) boot_pcrs boot_image_digest before l ≡ some target
      → IsTarget prior boot_pcrs boot_image_digest target
  unfolding explains
  explained-IsTarget prior boot_pcrs boot_image_digest before l after target e h =
      elim (Result-cases (decode_canonical upgrades l.payload)) [
        | inr refused ↦ ground arith
        | inl (payload, decodes) ↦
            let same : payload ≡ target = ground arith in
            record {
              before = before;
              link = l;
              after = after;
              place = e;
              is_upgrade = ground arith;
              decodes = ground arith;
              original = ground arith;
              unrevoked = λ r xs ys p split k d named.
                  let found = revoked_id_found xs r ys p k d in
                  let here =
                    subst (λ c. any (λ j. j == p.revokes) (revoked_ids v c) ≡ true) (sym split)
                      found in
                  ground arith;
              pcrs =
                  (pcrs_hex_eq_iff (image_pcrs_hex hex_encode target.to) boot_pcrs).0
                    (ground arith);
              digest = (bytes_eq_iff target.image_digest boot_image_digest).0 (ground arith);
            }
      ]

  last_explained-IsTarget :
      (prior : List ChainLink) (boot_pcrs : PcrsHex) (boot_image_digest : Bytes)
      (before rest : List ChainLink) (target : UpgradePayload)
      → prior ≡ before ++ rest
      → last_explaining v (revoked_ids v prior) boot_pcrs boot_image_digest before rest
        ≡ some target
      → IsTarget prior boot_pcrs boot_image_digest target
  unfolding last_explaining
  last_explained-IsTarget prior boot_pcrs boot_image_digest before [] target e h = ground arith
  last_explained-IsTarget prior boot_pcrs boot_image_digest before (l ∷ ls) target e h =
      elim (Option-cases (
        last_explaining v (revoked_ids v prior) boot_pcrs boot_image_digest (before ++ (l ∷ []))
          ls)) [
            | inl later ↦
                explained-IsTarget prior boot_pcrs boot_image_digest before l ls target e
                  (ground arith)
            | inr (p, found) ↦
                last_explained-IsTarget prior boot_pcrs boot_image_digest (before ++ (l ∷ [])) ls
                  target (e ∙ sym (append_assoc before l ls)) (ground arith)
          ]

  -- The upgrade that explains a boot is a link of the chain before it, of kind upgrade, that no
  -- revocation of that chain names, whose payload no earlier upgrade has, and whose target image
  -- has the boot's PCR0-2 and digest.
  pub promotion_target-IsTarget :
      (prior : List ChainLink) (boot_pcrs : PcrsHex) (boot_image_digest : Bytes)
      (target : UpgradePayload)
      → promotion_target v prior boot_pcrs boot_image_digest ≡ some target
      → IsTarget prior boot_pcrs boot_image_digest target
  unfolding promotion_target
  promotion_target-IsTarget prior boot_pcrs boot_image_digest target h =
      last_explained-IsTarget prior boot_pcrs boot_image_digest [] prior target refl h
