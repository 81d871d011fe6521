-- ===== src/UpgradeChain/Descent/Sound.antt =====
-- What `verify_pcr_descent` of enclavia-protocol/src/chain.rs has verified when it returns a tip.
use enclavia.Base.{
  ℕ, suc, ◌≡◌, refl, ap, ◌∙◌, true, ◌⊎◌, some, List, [], ◌∷◌, ◌++◌, Result, ok, err, arith,
  Bool-cases, Option-cases, Result-cases, inl, inr,
}
use enclavia.Base.Search.{split_is_nonempty}
use enclavia.Protocol.Identity.{PinIdentity}
use enclavia.Protocol.Signing.{boot, decode_canonical}
use enclavia.Protocol.Chain.{ChainLink}
use enclavia.UpgradeChain.Payload.{Pcrs, BootPayload, pcrs_eq, pcrs_eq_iff}
use enclavia.UpgradeChain.Link.{ChainVerifier, ChainError, Outcome, kind_eq, to_pcrs}
use enclavia.UpgradeChain.Walk.{RecordedLink, WalkArguments, InForce, walk_links}
use enclavia.UpgradeChain.Walk.Lineage.{state_of, Reached, IsReached, IsSound}
use enclavia.UpgradeChain.Walk.Lineage.Growth.{AllOk}
use enclavia.UpgradeChain.Walk.Lineage.Walks.{links_of, AllOn, walk-IsSound, walk_links-prior}
use enclavia.UpgradeChain.Descent.{start, all_valid, in_lineage, validate_chain, verify_pcr_descent}

-- A link of the chain.
abbrev pub On : List RecordedLink → ChainLink → Type 0
On [] l = ⊥
On (r ∷ rs) l = (r.link ≡ l) ⊎ On rs l

module _ (v : ChainVerifier) (a : WalkArguments) where
  open v use {boots}

  AllOn-each :
      (P : ChainLink → Type 0) (rs : List RecordedLink)
      → ((l : ChainLink) → On rs l → P l)
      → AllOn v a P rs
  AllOn-each P [] h = tt
  AllOn-each P (r ∷ rs) h = (h r.link (inl refl), AllOn-each P rs (λ l on. h l (inr on)))

  all_valid-AllOk :
      (P : ChainLink → Type 0) (position : ℕ) (outcomes : List (Result Outcome (ChainError v)))
      → all_valid v position outcomes ≡ ok tt
      → AllOk v a P outcomes
  unfolding all_valid
  all_valid-AllOk P position [] h = tt
  all_valid-AllOk P position (ok o ∷ outcomes) h = all_valid-AllOk P (suc position) outcomes h
  all_valid-AllOk P position (err e ∷ outcomes) h = ground arith

  start-IsSound : (P : ChainLink → Type 0) → IsSound v a P (start v)
  start-IsSound P = record {
    tip = λ state e. ground arith;
    started = λ e. ground arith;
    upgrades_authorized = λ before u after t e k d. absurd (split_is_nonempty before u after e);
    boots_reached = λ before l after p e k d. absurd (split_is_nonempty before l after e);
  }

  -- A boot of the chain with the pinned measurements.
  record IsPinned (links : List RecordedLink) (pinned : Pcrs) : Type 0 where
    before : List ChainLink
    link : ChainLink
    after : List ChainLink
    payload : BootPayload
    place : links_of links ≡ before ++ (link ∷ after)
    is_boot : link.kind ≡ boot
    decodes : decode_canonical boots link.payload ≡ ok payload
    measured : to_pcrs v payload.pcrs ≡ ok pinned

  IsPinned-later :
      (r : RecordedLink) (rs : List RecordedLink) (pinned : Pcrs)
      → IsPinned rs pinned
      → IsPinned (r ∷ rs) pinned
  unfolding links_of
  IsPinned-later r rs pinned p = record {
    before = r.link ∷ p.before;
    link = p.link;
    after = p.after;
    payload = p.payload;
    place = ap (λ ls. r.link ∷ ls) p.place;
    is_boot = p.is_boot;
    decodes = p.decodes;
    measured = p.measured;
  }

  in_lineage-IsPinned :
      (pinned : Pcrs) (position : ℕ) (rs : List RecordedLink)
      → in_lineage v pinned position rs ≡ ok true
      → IsPinned rs pinned
  unfolding in_lineage links_of
  in_lineage-IsPinned pinned position [] h = ground arith
  in_lineage-IsPinned pinned position (r ∷ rs) h = elim (Bool-cases (kind_eq r.link.kind boot)) [
    | inr other ↦
        IsPinned-later r rs pinned (in_lineage-IsPinned pinned (suc position) rs (ground arith))
    | inl b ↦ elim (Result-cases (decode_canonical boots r.link.payload)) [
      | inr unreadable ↦ ground arith
      | inl (payload, decodes) ↦ elim (Result-cases (to_pcrs v payload.pcrs)) [
        | inr unreadable ↦ ground arith
        | inl (state, measured) ↦ elim (Bool-cases (pcrs_eq state pinned)) [
          | inl same ↦ record {
            before = [];
            link = r.link;
            after = links_of rs;
            payload = payload;
            place = refl;
            is_boot = ground arith;
            decodes = decodes;
            measured = measured ∙ ap ok ((pcrs_eq_iff state pinned).0 same);
          }
          | inr another ↦ elim (Result-cases (in_lineage v pinned (suc position) rs)) [
            | inr unreadable ↦ ground arith
            | inl (found, rest) ↦
                IsPinned-later r rs pinned
                  (in_lineage-IsPinned pinned (suc position) rs (ground arith))
          ]
        ]
      ]
    ]
  ]

  -- The tip and the pinned measurements are both states of the lineage of the chain: a genesis boot
  -- reaches each of them through promotions.
  pub record Descends (links : List RecordedLink) (pinned tip : Pcrs) : Type 0 where
    pub state : InForce
    pub identity : PinIdentity
    pub reached : Reached v a (On links) state identity
    pub measured : to_pcrs v state.pcrs ≡ ok tip
    pub attested : (validate_chain v a links).final_identity ≡ some identity
    pub origin : InForce
    pub origin_reached : IsReached v a (On links) origin
    pub origin_measured : to_pcrs v origin.pcrs ≡ ok pinned

  walked :
      (links : List RecordedLink)
      → all_valid v 0 (validate_chain v a links).outcomes ≡ ok tt
      → IsSound v a (On links) (walk_links v a (start v) links)
  unfolding validate_chain
  walked links h =
      walk-IsSound v a (On links) (start v) links (start-IsSound (On links))
        (AllOn-each (On links) links (λ l on. on))
        (all_valid-AllOk (On links) 0 (walk_links v a (start v) links).outcomes h)

  -- When the descent of a tip from pinned measurements is verified, the chain's boots are a lineage
  -- whose first state a genesis boot attested, whose later ones attested boots reached by an upgrade
  -- that the control key signed, that an enclave in an earlier state attested as its own identity,
  -- and whose target identity, image and window are the boot's; the tip and the pinned measurements
  -- are states of it, and the identity that the walk ends with is the one attested at the tip.
  pub verify_pcr_descent-Descends :
      (pinned : Pcrs) (links : List RecordedLink) (tip : Pcrs)
      → verify_pcr_descent v pinned a links ≡ ok tip
      → Descends links pinned tip
  unfolding verify_pcr_descent validate_chain
  verify_pcr_descent-Descends pinned links tip h =
      elim (Option-cases (walk_links v a (start v) links).in_force) [
        | inl nothing ↦ ground arith
        | inr (state, f) ↦
            let s = walked links (ground arith) in
            let (identity, known, reached) = s.tip state f in
            let pin = in_lineage-IsPinned pinned 0 links (ground arith) in
            record {
              state = state;
              identity = identity;
              reached = reached;
              measured = ground arith;
              attested = known;
              origin = state_of pin.payload;
              origin_reached =
                  s.boots_reached pin.before pin.link pin.after pin.payload
                    (walk_links-prior v a (On links) (start v) links ∙ pin.place) pin.is_boot
                    pin.decodes;
              origin_measured = pin.measured;
            }
      ]
