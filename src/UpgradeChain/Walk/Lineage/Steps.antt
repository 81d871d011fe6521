-- ===== src/UpgradeChain/Walk/Lineage/Steps.antt =====
-- The walk of enclavia-protocol/src/chain.rs keeps the lineage, link by link.
use enclavia.Base.{
  ℕ, ◌≡◌, ◌≢◌, refl, sym, ap, subst, ◌∙◌, true, some, [], ◌∷◌, ◌++◌, ok, arith, Bool-cases,
  Option-cases, inl, inr,
}
use enclavia.Base.Int.{ℤ}
use enclavia.Protocol.Identity.{PinIdentity}
use enclavia.Protocol.Signing.{ChainLinkKind, boot, upgrade, revocation, decode_canonical}
use enclavia.Protocol.Chain.{ChainLink, UpgradePayload}
use enclavia.Wire.Links.Signed.{decode_canonical-Encodes}
use enclavia.UpgradeChain.Payload.{BootPayload, is_empty}
use enclavia.UpgradeChain.Link.{
  ChainVerifier, Outcome, append, dedup, link_attestation, validate_kind, validate_boot,
  validate_upgrade, to_pcrs,
}
use enclavia.UpgradeChain.Accepted.{IsAttested}
use enclavia.UpgradeChain.Accepted.Boot.{validate_boot-IsBoot}
use enclavia.UpgradeChain.Walk.{
  WalkArguments, InForce, LinkContext, Walk, push, conclude, context_in, link_context, boot_context,
  signed_context, attested_identity,
}
use enclavia.UpgradeChain.Walk.Lineage.{state_of, Ran, Reached, IsReached, IsAuthorized, IsSound}
use enclavia.UpgradeChain.Walk.Lineage.Boots.{Lands, IsAccepted, boot-Lands, genesis_is_appended}
use enclavia.UpgradeChain.Walk.Lineage.Signed.{upgrade_is_later, revocation_is_later, upgrade_lands}
use enclavia.UpgradeChain.Walk.Lineage.Growth.{grow, push-IsSound}

module _ (v : ChainVerifier) (a : WalkArguments) (OnChain : ChainLink → Type 0) where
  open v use {verifier, boots}
  open verifier use {upgrades}

  not_upgrade :
      (link : ChainLink) (k : ChainLinkKind)
      → link.kind ≡ k
      → k ≢ upgrade
      → (t : UpgradePayload) → link.kind ≡ upgrade
      → decode_canonical upgrades link.payload ≡ ok t
      → IsAuthorized v a OnChain link t
  not_upgrade link k e other t u d = absurd (other (sym e ∙ u))

  not_boot :
      (link : ChainLink) (k : ChainLinkKind)
      → link.kind ≡ k
      → k ≢ boot
      → (p : BootPayload) → link.kind ≡ boot
      → decode_canonical boots link.payload ≡ ok p
      → IsReached v a OnChain (state_of p)
  not_boot link k e other p b d = absurd (other (sym e ∙ b))

  -- The signed links leave the state in force as it is.
  signed_conclude :
      (w : Walk v) (link : ChainLink) (o : Outcome)
      → conclude v a w link (signed_context v a w) (ok o) ≡ push v a w link (ok o)
  unfolding conclude signed_context
  signed_conclude w link dedup = refl
  signed_conclude w link (append n) = elim (Option-cases w.in_force) [
    | inl nothing ↦ ground arith
    | inr (state, f) ↦ ground arith
  ]

  module _ (w : Walk v) (link : ChainLink) (s : IsSound v a OnChain w) (on : OnChain link) where
    IsReached-boot :
        (c : LinkContext) (p : BootPayload) (attested : PinIdentity)
        → decode_canonical boots link.payload ≡ ok p
        → Lands v a OnChain w c p attested
        → (q : BootPayload) → link.kind ≡ boot
        → decode_canonical boots link.payload ≡ ok q
        → IsReached v a OnChain (state_of q)
    IsReached-boot c p attested d l q b e =
        let same : p ≡ q = ground arith in
        subst (IsReached v a OnChain) (sym l.same ∙ ap state_of same) l.reached

    attested_known :
        (attested : PinIdentity)
        → link_attestation v link a.debug_mode ≡ ok attested
        → attested_identity v a link ≡ some attested
    attested_known attested valid = ground arith

    here :
        (f : InForce) (attested : PinIdentity) (state : InForce)
        → some f ≡ some state
        → Reached v a OnChain f attested
        → Reached v a OnChain state attested
    here f attested state e r =
        let same : f ≡ state = ground arith in subst (λ f. Reached v a OnChain f attested) same r

    boot_concludes :
        (c : LinkContext) (p : BootPayload) (attested : PinIdentity) (o : Outcome)
        → link.kind ≡ boot
        → decode_canonical boots link.payload ≡ ok p
        → link_attestation v link a.debug_mode ≡ ok attested
        → Lands v a OnChain w c p attested
        → (is_empty w.prior ≡ true → (c.promotes ≡ true) × ((n : ℕ) × (o ≡ append n)))
        → IsSound v a OnChain (conclude v a w link c (ok o))
    unfolding conclude
    boot_concludes c p attested dedup b d valid l first =
        push-IsSound v a OnChain w link dedup s (ground arith) (IsReached-boot c p attested d l)
          (not_upgrade link boot b (λ e. ground arith))
    boot_concludes c p attested (append n) b d valid l first = elim (Bool-cases c.promotes) [
      | inl promotes ↦ subst (IsSound v a OnChain) (ground arith) (
          grow v a OnChain w link (w.outcomes ++ (ok (append n) ∷ [])) (some c.state)
            (attested_identity v a link) s
            (λ state e. (
              attested,
              attested_known attested valid,
              here c.state attested state e (l.new promotes),
            ))
            (c.state, refl) (IsReached-boot c p attested d l)
            (not_upgrade link boot b (λ e. ground arith)))
      | inr stays ↦ subst (IsSound v a OnChain) (ground arith) (
          push-IsSound v a OnChain w link (append n) s (ground arith)
            (IsReached-boot c p attested d l) (not_upgrade link boot b (λ e. ground arith)))
    ]

    boot-IsSound :
        (c : LinkContext) (attested : PinIdentity) (o : Outcome)
        → link.kind ≡ boot
        → boot_context v a w link ≡ ok c
        → IsAttested v link (context_in v a w c.state) a.debug_mode attested
        → validate_boot v link (context_in v a w c.state) ≡ ok o
        → IsSound v a OnChain (conclude v a w link c (ok o))
    boot-IsSound c attested o b h t valid =
        let (p, is) = validate_boot-IsBoot v link (context_in v a w c.state) o valid in
        let d = decode_canonical-Encodes boots link.payload p is.encodes in
        let ran : Ran v a OnChain link p attested = record {
          on_chain = on;
          is_boot = b;
          encodes = is.encodes;
          enclave = is.enclave;
          valid = t.valid;
          measured = ap (to_pcrs v) is.pcrs ∙ t.measured;
        } in
        let k : IsAccepted v a OnChain w link c p attested = record { is = is; ran = ran } in
        boot_concludes c p attested o b d t.valid (boot-Lands v a OnChain w link c p attested s k h)
          (λ first. genesis_is_appended v a OnChain w link c p attested s k o h first valid)

    pub kind-IsSound :
        (kind : ChainLinkKind) (c : LinkContext) (attested : PinIdentity) (now : ℤ) (o : Outcome)
        → link.kind ≡ kind
        → link_context v a w link kind ≡ ok c
        → IsAttested v link (context_in v a w c.state) a.debug_mode attested
        → validate_kind v link (context_in v a w c.state) attested now kind ≡ ok o
        → IsSound v a OnChain (conclude v a w link c (ok o))
    kind-IsSound boot c attested now o k h t valid = boot-IsSound c attested o k h t valid
    kind-IsSound upgrade c attested now o k h t valid =
        let same : signed_context v a w ≡ c = ground arith in
        let t' =
          subst
            (λ (c : LinkContext).
              IsAttested v link (context_in v a w c.state) a.debug_mode attested)
            (sym same) t in
        let valid' =
          subst
            (λ (c : LinkContext).
              validate_upgrade v link (context_in v a w c.state) attested ≡ ok o)
            (sym same) valid in
        let (payload, encodes, authorized) =
          upgrade_lands v a OnChain w link attested o s on k t' valid' in
        let d = decode_canonical-Encodes upgrades link.payload payload encodes in
        subst (λ c. IsSound v a OnChain (conclude v a w link c (ok o))) same
          (subst (IsSound v a OnChain) (sym (signed_conclude w link o)) (
            push-IsSound v a OnChain w link o s
              (upgrade_is_later v link (context_in v a w c.state) o attested valid)
              (not_boot link upgrade k (λ e. ground arith))
              (λ t u e.
                let same_payload : payload ≡ t = ground arith in
                subst (IsAuthorized v a OnChain link) same_payload authorized)))
    kind-IsSound revocation c attested now o k h t valid =
        let same : signed_context v a w ≡ c = ground arith in
        subst (λ c. IsSound v a OnChain (conclude v a w link c (ok o))) same
          (subst (IsSound v a OnChain) (sym (signed_conclude w link o)) (
            push-IsSound v a OnChain w link o s
              (revocation_is_later v link (context_in v a w c.state) o now valid)
              (not_boot link revocation k (λ e. ground arith))
              (not_upgrade link revocation k (λ e. ground arith))))
