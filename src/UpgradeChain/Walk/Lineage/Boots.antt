-- ===== src/UpgradeChain/Walk/Lineage/Boots.antt =====
-- What an accepted boot link adds to the lineage of a walk of enclavia-protocol/src/chain.rs.
use enclavia.Base.{
  ℕ, ◌≡◌, sym, ap, subst, true, false, none, some, ok, arith, Bool-cases, Option-cases, inl, inr,
}
use enclavia.Base.Search.{find_last}
use enclavia.Protocol.Identity.{PinIdentity, identity_eq_iff}
use enclavia.Protocol.Chain.{ChainLink, UpgradePayload}
use enclavia.Wire.Links.Signed.{decode_canonical-Encodes}
use enclavia.UpgradeChain.Payload.{BootPayload, is_empty, list_cases, pcrs_hex_eq}
use enclavia.UpgradeChain.Link.{
  ChainVerifier, Outcome, append, validate_boot, link_attestation, is_boot,
}
use enclavia.UpgradeChain.Accepted.{IsBoot}
use enclavia.UpgradeChain.Walk.{
  WalkArguments, InForce, LinkContext, Walk, promotion_target, promotion_context,
  later_boot_context, boot_context, context_in, kept_context, own_context,
}
use enclavia.UpgradeChain.Walk.Target.{promotion_target-IsTarget}
use enclavia.UpgradeChain.Walk.Lineage.{
  state_of, Ran, IsPromotion, Reached, genesis, promoted, IsReached, IsSound,
}

module _ (v : ChainVerifier) (a : WalkArguments) (OnChain : ChainLink → Type 0) where
  open v use {verifier, boots, hex_encode}
  open verifier use {upgrades}

  -- Where a boot leaves the walk: its state is the one in force, or is reached as it is appended.
  pub record Lands (w : Walk v) (c : LinkContext) (p : BootPayload) (attested : PinIdentity)
      : Type 0 where
    pub same : state_of p ≡ c.state
    pub reached : IsReached v a OnChain c.state
    pub new : c.promotes ≡ true → Reached v a OnChain c.state attested
    pub kept : c.promotes ≡ false → w.in_force ≡ some c.state

  module _ (w : Walk v) (link : ChainLink) (c : LinkContext) (p : BootPayload)
      (attested : PinIdentity) where
    accepted_state : IsBoot v link (context_in v a w c.state) p → state_of p ≡ c.state
    accepted_state b = λ i. record { pcrs = b.pcrs i; image_digest = b.digest i }

    Lands-kept :
        (state : InForce)
        → w.in_force ≡ some state
        → IsReached v a OnChain state
        → c ≡ kept_context v a state
        → state_of p ≡ c.state
        → Lands w c p attested
    Lands-kept state f reached e same = record {
      same = same;
      reached = subst (λ (k : LinkContext). IsReached v a OnChain k.state) (sym e) reached;
      new = λ promotes. ground arith;
      kept = λ stays. ground arith;
    }

    Lands-genesis : Ran v a OnChain link p attested → c ≡ own_context v a p → Lands w c p attested
    Lands-genesis ran e =
        let here =
          subst (λ (k : LinkContext). Reached v a OnChain k.state attested) (sym e)
            (genesis link p attested ran) in
        record {
          same = ap (λ (k : LinkContext). k.state) (sym e);
          reached = (attested, here);
          new = λ promotes. here;
          kept = λ stays. ground arith;
        }

    IsPromotion-checks :
        (t : UpgradePayload)
        → link_attestation v link a.debug_mode ≡ ok attested
        → promotion_context v a link p t ≡ ok c
        → state_of p ≡ c.state
        → IsPromotion v a OnChain t p attested × (c.promotes ≡ true)
    unfolding promotion_context
    IsPromotion-checks t valid h same = (
      record {
        identity = (identity_eq_iff attested t.to).0 (ground arith);
        pcrs = ground arith;
        digest = ground arith;
        started = ground arith;
        unexpired = ground arith;
      },
      ground arith,
    )

    -- What a boot of the chain that was accepted in the context `c` is.
    pub record IsAccepted : Type 0 where
      pub is : IsBoot v link (context_in v a w c.state) p
      pub ran : Ran v a OnChain link p attested

    module _ (s : IsSound v a OnChain w) (k : IsAccepted) where
      kept-Lands :
          (state : InForce)
          → w.in_force ≡ some state
          → c ≡ kept_context v a state
          → Lands w c p attested
      kept-Lands state f e =
          let (identity, _, reached) = s.tip state f in
          Lands-kept state f (identity, reached) e (accepted_state k.is)

      promotion-Lands :
          (t : UpgradePayload)
          → promotion_target v w.prior p.pcrs p.image_digest ≡ some t
          → promotion_context v a link p t ≡ ok c
          → Lands w c p attested
      promotion-Lands t found h =
          let target = promotion_target-IsTarget v w.prior p.pcrs p.image_digest t found in
          let (state, (identity, reached), authorized) =
            s.upgrades_authorized target.before target.link target.after t target.place
              target.is_upgrade target.decodes in
          let same = accepted_state k.is in
          let (promotion, promotes) = IsPromotion-checks t k.ran.valid h same in
          let here =
            subst (λ f. Reached v a OnChain f attested) same
              (promoted state identity target.link t link p attested reached authorized k.ran
                promotion) in
          record {
            same = same;
            reached = (attested, here);
            new = λ _. here;
            kept = λ stays. ground arith;
          }

      later_boot-Lands :
          (state : InForce)
          → w.in_force ≡ some state
          → later_boot_context v a w link state p ≡ ok c
          → Lands w c p attested
      unfolding later_boot_context
      later_boot-Lands state f h = elim (Bool-cases (pcrs_hex_eq p.pcrs state.pcrs)) [
        | inl reboot ↦ kept-Lands state f (ground arith)
        | inr other ↦ elim (Option-cases (promotion_target v w.prior p.pcrs p.image_digest)) [
          | inl unexplained ↦ kept-Lands state f (ground arith)
          | inr (t, found) ↦ promotion-Lands t found (ground arith)
        ]
      ]

      pub boot-Lands : boot_context v a w link ≡ ok c → Lands w c p attested
      unfolding boot_context
      boot-Lands h =
          let d = decode_canonical-Encodes boots link.payload p k.ran.encodes in
          elim (Bool-cases (is_empty w.prior)) [
            | inl first ↦ Lands-genesis k.ran (ground arith)
            | inr later ↦
                let (state, f) = s.started later in later_boot-Lands state f (ground arith)
          ]

      -- The first link is a genesis, which promotes and is appended.
      pub genesis_is_appended :
          (o : Outcome)
          → boot_context v a w link ≡ ok c
          → is_empty w.prior ≡ true
          → validate_boot v link (context_in v a w c.state) ≡ ok o
          → (c.promotes ≡ true) × ((n : ℕ) × (o ≡ append n))
      unfolding boot_context validate_boot find_last
      genesis_is_appended o h first valid =
          let d = decode_canonical-Encodes boots link.payload p k.ran.encodes in
          elim (list_cases w.prior) [
            | inl nothing ↦
                let last : find_last is_boot w.prior ≡ none = ap (find_last is_boot) nothing in
                (ground arith, (0, ground arith))
            | inr something ↦ absurd (ground arith)
          ]
