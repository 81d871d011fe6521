-- ===== src/UpgradeChain/Walk/Lineage/Walks.antt =====
-- The lineage at the end of a walk of enclavia-protocol/src/chain.rs.
use enclavia.Base.{
  ◌≡◌, refl, sym, ap, subst, ◌∙◌, Bool, true, false, not, ◌&&◌, List, [], ◌∷◌, ◌++◌, Result, ok,
  err, arith, Bool-cases, Result-cases, inl, inr,
}
use enclavia.Base.Search.{append_assoc, append_nil}
use enclavia.Protocol.Signing.{boot}
use enclavia.Protocol.Chain.{ChainLink}
use enclavia.UpgradeChain.Link.{
  ChainVerifier, ChainError, Outcome, append, dedup, duplicate_payload, kind_eq,
  signed_payload_seen, validate_chain_link,
}
use enclavia.UpgradeChain.Accepted.Kinds.{accepted_by_kind}
use enclavia.UpgradeChain.Walk.{
  RecordedLink, WalkArguments, LinkContext, Walk, push, conclude, context_in, link_context,
  reference, walk_link, walk_links,
}
use enclavia.UpgradeChain.Walk.Lineage.{IsSound}
use enclavia.UpgradeChain.Walk.Lineage.Growth.{AllOk, AllOk-append}
use enclavia.UpgradeChain.Walk.Lineage.Steps.{kind-IsSound}

unfoldable pub links_of : List RecordedLink → List ChainLink
links_of [] = []
links_of (r ∷ rs) = r.link ∷ links_of rs

module _ (v : ChainVerifier) (a : WalkArguments) (OnChain : ChainLink → Type 0) where
  abbrev pub AllOn : List RecordedLink → Type 0
  AllOn [] = Unit
  AllOn (r ∷ rs) = OnChain r.link × AllOn rs

  conclude_pushes :
      (w : Walk v) (link : ChainLink) (c : LinkContext) (o : Result Outcome (ChainError v))
      → ((conclude v a w link c o).outcomes ≡ w.outcomes ++ (o ∷ []))
        × ((conclude v a w link c o).prior ≡ w.prior ++ (link ∷ []))
  unfolding conclude
  conclude_pushes w link c (err e) = (refl, refl)
  conclude_pushes w link c (ok dedup) = (refl, refl)
  conclude_pushes w link c (ok (append n)) = elim (Bool-cases c.promotes) [
    | inl promotes ↦ (ground arith, ground arith)
    | inr stays ↦ (ground arith, ground arith)
  ]

  refused_last :
      (w : Walk v) (link : ChainLink) (e : ChainError v)
      → AllOk v a OnChain (push v a w link (err e)).outcomes
      → ⊥
  refused_last w link e h = (AllOk-append v a OnChain w.outcomes (err e ∷ []) h).1

  refused_conclude :
      (w : Walk v) (link : ChainLink) (c : LinkContext) (e : ChainError v)
      → AllOk v a OnChain (conclude v a w link c (err e)).outcomes
      → ⊥
  unfolding conclude
  refused_conclude w link c e h = refused_last w link e h

  abbrev duplicates : Walk v → RecordedLink → Bool
  duplicates w r = not (kind_eq r.link.kind boot) && signed_payload_seen r.link w.prior

  duplicate_step :
      (w : Walk v) (r : RecordedLink)
      → duplicates w r ≡ true
      → walk_link v a w r ≡ push v a w r.link (err (duplicate_payload r.link.kind))
  unfolding walk_link
  duplicate_step w r d = ground arith

  refused_step :
      (w : Walk v) (r : RecordedLink) (e : ChainError v)
      → duplicates w r ≡ false
      → link_context v a w r.link r.link.kind ≡ err e
      → walk_link v a w r ≡ push v a w r.link (err e)
  unfolding walk_link
  refused_step w r e d h = ground arith

  checked_step :
      (w : Walk v) (r : RecordedLink) (c : LinkContext)
      → duplicates w r ≡ false
      → link_context v a w r.link r.link.kind ≡ ok c
      → walk_link v a w r
        ≡ conclude v a w r.link c
            (validate_chain_link v r.link (context_in v a w c.state) (reference v a r) a.debug_mode)
  unfolding walk_link
  checked_step w r c d h = ground arith

  -- A link whose outcome is not an error keeps what the walk knows.
  step-IsSound :
      (w : Walk v) (r : RecordedLink)
      → IsSound v a OnChain w
      → OnChain r.link
      → AllOk v a OnChain (walk_link v a w r).outcomes
      → IsSound v a OnChain (walk_link v a w r)
  step-IsSound w r s on h = elim (Bool-cases (duplicates w r)) [
    | inl d ↦
        let e = duplicate_step w r d in
        absurd (
          refused_last w r.link (duplicate_payload r.link.kind)
            (subst (λ (w : Walk v). AllOk v a OnChain w.outcomes) e h))
    | inr n ↦ elim (Result-cases (link_context v a w r.link r.link.kind)) [
      | inr (x, refused) ↦
          let e = refused_step w r x n refused in
          absurd
            (refused_last w r.link x (subst (λ (w : Walk v). AllOk v a OnChain w.outcomes) e h))
      | inl (c, context) ↦
          let e = checked_step w r c n context in
          elim (Result-cases (
            validate_chain_link v r.link (context_in v a w c.state) (reference v a r)
              a.debug_mode)) [
                | inr (x, refused) ↦
                    let e' = e ∙ ap (conclude v a w r.link c) refused in
                    absurd (
                      refused_conclude w r.link c x
                        (subst (λ (w : Walk v). AllOk v a OnChain w.outcomes) e' h))
                | inl (o, valid) ↦
                    let e' = e ∙ ap (conclude v a w r.link c) valid in
                    let (attested, t, k) =
                      accepted_by_kind v r.link (context_in v a w c.state) (reference v a r)
                        a.debug_mode o valid in
                    subst (IsSound v a OnChain) (sym e') (
                      kind-IsSound v a OnChain w r.link s on r.link.kind c attested
                        (reference v a r) o refl context t k)
              ]
    ]
  ]

  step_outcome :
      (w : Walk v) (r : RecordedLink)
      → (o : Result Outcome (ChainError v)) × ((walk_link v a w r).outcomes
          ≡ w.outcomes ++ (o ∷ []))
        × ((walk_link v a w r).prior ≡ w.prior ++ (r.link ∷ []))
  step_outcome w r = elim (Bool-cases (duplicates w r)) [
    | inl d ↦
        let e = duplicate_step w r d in
        (err (duplicate_payload r.link.kind), ap (λ w. w.outcomes) e, ap (λ w. w.prior) e)
    | inr n ↦ elim (Result-cases (link_context v a w r.link r.link.kind)) [
      | inr (x, refused) ↦
          let e = refused_step w r x n refused in
          (err x, ap (λ w. w.outcomes) e, ap (λ w. w.prior) e)
      | inl (c, context) ↦
          let e = checked_step w r c n context in
          let o =
            validate_chain_link v r.link (context_in v a w c.state) (reference v a r)
              a.debug_mode in
          let (p, q) = conclude_pushes w r.link c o in
          (o, ap (λ w. w.outcomes) e ∙ p, ap (λ w. w.prior) e ∙ q)
    ]
  ]

  AllOk-walked :
      (w : Walk v) (rs : List RecordedLink)
      → AllOk v a OnChain (walk_links v a w rs).outcomes
      → AllOk v a OnChain w.outcomes
  unfolding walk_links
  AllOk-walked w [] h = h
  AllOk-walked w (r ∷ rs) h =
      let (o, e, _) = step_outcome w r in
      (AllOk-append v a OnChain w.outcomes (o ∷ [])
        (subst (AllOk v a OnChain) e (AllOk-walked (walk_link v a w r) rs h))).0

  -- A walk without errors ends with what it knows of all its links.
  pub walk-IsSound :
      (w : Walk v) (rs : List RecordedLink)
      → IsSound v a OnChain w
      → AllOn rs
      → AllOk v a OnChain (walk_links v a w rs).outcomes
      → IsSound v a OnChain (walk_links v a w rs)
  unfolding walk_links
  walk-IsSound w [] s on h = s
  walk-IsSound w (r ∷ rs) s on h =
      walk-IsSound (walk_link v a w r) rs
        (step-IsSound w r s on.0 (AllOk-walked (walk_link v a w r) rs h)) on.1 h

  pub walk_links-prior :
      (w : Walk v) (rs : List RecordedLink) → (walk_links v a w rs).prior ≡ w.prior ++ links_of rs
  unfolding walk_links links_of
  walk_links-prior w [] = sym (append_nil w.prior)
  walk_links-prior w (r ∷ rs) =
      let (_, _, e) = step_outcome w r in
      walk_links-prior (walk_link v a w r) rs
      ∙ (ap (λ p. p ++ links_of rs) e ∙ append_assoc w.prior r.link (links_of rs))
