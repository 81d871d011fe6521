-- ===== src/UpgradeChain/Ingest/AntiRollback.antt =====
-- The anti-rollback setting along a chain that enclavia-protocol/src/chain.rs admitted link by link.
use enclavia.Base.{
  ℕ, ◌≡◌, ◌≢◌, refl, sym, ap, subst, ◌∙◌, Bool, true, false, Option, none, some, List, [], ◌∷◌,
  ◌++◌, ok, arith, inl, inr, ◌⊎◌,
}
use enclavia.Base.Search.{find_last, find_last-append, append_split, split_is_nonempty}
use enclavia.Machine.{ControlPubkey}
use enclavia.Protocol.Signing.{ChainLinkKind, boot, upgrade, revocation}
use enclavia.Protocol.Chain.{ChainLink}
use enclavia.Wire.Links.Signed.{Encodes, decode_canonical-Encodes}
use enclavia.UpgradeChain.Payload.{BootPayload, check_successor-enabled}
use enclavia.UpgradeChain.Link.{
  ChainVerifier, ChainContext, append, is_boot, kind_eq, validate_kind,
}
use enclavia.UpgradeChain.Accepted.Kinds.{accepted_by_kind}
use enclavia.UpgradeChain.Accepted.Boot.{Succeeds, validate_boot-append_checks}
use enclavia.UpgradeChain.Ingest.Links.{first_is_boot}
use enclavia.UpgradeChain.Ingest.{context_of, IsAdmitted, Ingested, empty, appended}

find_last-nonempty :
    (l : ChainLink) (ls : List ChainLink) → l.kind ≡ boot → find_last is_boot (l ∷ ls) ≢ none
unfolding find_last
find_last-nonempty l ls b e = ground arith

kind_cases : (k : ChainLinkKind) → (k ≡ boot) ⊎ (kind_eq k boot ≡ false)
kind_cases boot = inl refl
kind_cases upgrade = inr refl
kind_cases revocation = inr refl

module _ (v : ChainVerifier) where
  open v use {boots}

  -- A boot whose payload has the setting `enabled`.
  abbrev pub BootsWith : Bool → ChainLink → Type 0
  BootsWith enabled l =
      (p : BootPayload) × Encodes boots l.payload p × (p.anti_rollback.enabled ≡ enabled)

  record IsUniform (enabled : Bool) (chain : List ChainLink) : Type 0 where
    each :
        (before : List ChainLink) (m : ChainLink) (after : List ChainLink)
        → chain ≡ before ++ (m ∷ after)
        → m.kind ≡ boot
        → BootsWith enabled m
    last : (prev : ChainLink) → find_last is_boot chain ≡ some prev → BootsWith enabled prev

  extend :
      (enabled : Bool) (chain : List ChainLink) (m : ChainLink)
      → IsUniform enabled chain
      → (m.kind ≡ boot → BootsWith enabled m)
      → IsUniform enabled (chain ++ (m ∷ []))
  extend enabled chain m u new = record {
    each = λ before l after e k. elim (append_split chain m before l after e) [
      | inl (same, is_new) ↦ subst (BootsWith enabled) is_new (new (ap (λ l. l.kind) is_new ∙ k))
      | inr (zs, earlier) ↦ u.each before l zs earlier k
    ];
    last = λ prev e. newest prev (sym (find_last-append is_boot chain m) ∙ e);
  }
    where
      newest :
          (prev : ChainLink)
          → (elim (is_boot m) [ true ↦ some m | false ↦ find_last is_boot chain ]) ≡ some prev
          → BootsWith enabled prev
      newest prev e = elim (kind_cases m.kind) [
        | inl k ↦ let is_last : m ≡ prev = ground arith in subst (BootsWith enabled) is_last (new k)
        | inr other ↦ u.last prev (ground arith)
      ]

  module _ (enclave_id : ℕ) (control_public_key : Option ControlPubkey) (upgradable : Bool) where
    no_boot_yet :
        (enabled : Bool) (chain : List ChainLink)
        → Ingested enclave_id control_public_key upgradable v chain
        → find_last is_boot chain ≡ none
        → IsUniform enabled chain
    unfolding find_last
    no_boot_yet enabled [] h n = record {
      each = λ before m after e k. absurd (split_is_nonempty before m after e);
      last = λ prev e. ground arith;
    }
    no_boot_yet enabled (l ∷ ls) h n = absurd (
        find_last-nonempty l ls (first_is_boot enclave_id control_public_key upgradable v l ls h) n)

    successor_agrees :
        (enabled : Bool) (ctx : ChainContext) (payload : BootPayload) (prev : ChainLink)
        (previous : BootPayload)
        → IsUniform enabled ctx.prior_chain
        → Succeeds v ctx payload prev previous
        → payload.anti_rollback.enabled ≡ enabled
    successor_agrees enabled ctx payload prev previous u s =
        let (p, encodes, agrees) = u.last prev s.last in
        let d = decode_canonical-Encodes boots prev.payload p encodes in
        let e = decode_canonical-Encodes boots prev.payload previous s.encodes in
        let same : p ≡ previous = ground arith in
        let kept =
          check_successor-enabled previous.anti_rollback payload.anti_rollback s.anti_rollback in
        sym kept ∙ (ap (λ (q : BootPayload). q.anti_rollback.enabled) (sym same) ∙ agrees)

    new_boot_agrees :
        (chain : List ChainLink) (m : ChainLink) (enabled : Bool)
        → Ingested enclave_id control_public_key upgradable v chain
        → IsUniform enabled chain
        → IsAdmitted enclave_id control_public_key upgradable v chain m
        → m.kind ≡ boot
        → (kept : Bool) × IsUniform kept chain × BootsWith kept m
    new_boot_agrees chain m enabled h u a k =
        let ctx = context_of enclave_id control_public_key upgradable chain a.pcrs a.digest in
        let (attested, t, accepted) =
          accepted_by_kind v a.link ctx a.now a.debug_mode (append a.sequence) a.accepted in
        let kind : a.link.kind ≡ boot = sym (ap (λ l. l.kind) a.recorded) ∙ k in
        let ((payload, b, new), _) = (validate_boot-append_checks v a.link ctx a.sequence).0 (
          subst (λ x. validate_kind v a.link ctx attested a.now x ≡ ok (append a.sequence)) kind
            accepted) in
        let boots_with : (e : Bool) → payload.anti_rollback.enabled ≡ e → BootsWith e m =
          λ e agrees. subst (BootsWith e) (sym a.recorded) (payload, b.encodes, agrees) in
        elim new [
          | inl first ↦ (
            payload.anti_rollback.enabled,
            no_boot_yet payload.anti_rollback.enabled chain h first,
            boots_with payload.anti_rollback.enabled refl,
          )
          | inr (prev, previous, s) ↦ (
            enabled,
            u,
            boots_with enabled (successor_agrees enabled ctx payload prev previous u s),
          )
        ]

    uniform :
        (chain : List ChainLink)
        → Ingested enclave_id control_public_key upgradable v chain
        → (enabled : Bool) × IsUniform enabled chain
    unfolding find_last
    uniform _ empty = (true, no_boot_yet true [] empty refl)
    uniform _ (appended chain m h a) =
        let (enabled, u) = uniform chain h in
        elim (kind_cases m.kind) [
          | inl k ↦
              let (kept, uniform_so_far, b) = new_boot_agrees chain m enabled h u a k in
              (kept, extend kept chain m uniform_so_far (λ _. b))
          | inr other ↦ (enabled, extend enabled chain m u (λ k. ground arith))
        ]

    -- The attested anti-rollback setting is fixed at creation: on an ingested chain every boot has a
    -- canonical payload, and all of them have anti-rollback on, or all of them off.
    pub anti_rollback_is_fixed :
        (chain : List ChainLink)
        → Ingested enclave_id control_public_key upgradable v chain
        → (enabled : Bool) × ((before : List ChainLink) (m : ChainLink) (after : List ChainLink)
            → chain ≡ before ++ (m ∷ after)
            → m.kind ≡ boot
            → BootsWith enabled m)
    anti_rollback_is_fixed chain h = let (enabled, u) = uniform chain h in (enabled, u.each)
