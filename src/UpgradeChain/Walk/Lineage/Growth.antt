-- ===== src/UpgradeChain/Walk/Lineage/Growth.antt =====
-- How an accepted link extends what a walk of enclavia-protocol/src/chain.rs knows.
use enclavia.Base.{
  ◌≡◌, ap, subst, ◌∙◌, false, Option, some, List, [], ◌∷◌, ◌++◌, Result, ok, err, inl, inr,
}
use enclavia.Base.Search.{append_split}
use enclavia.Protocol.Identity.{PinIdentity}
use enclavia.Protocol.Signing.{boot, upgrade, decode_canonical}
use enclavia.Protocol.Chain.{ChainLink, UpgradePayload}
use enclavia.UpgradeChain.Payload.{BootPayload, is_empty}
use enclavia.UpgradeChain.Link.{ChainVerifier, ChainError, Outcome}
use enclavia.UpgradeChain.Walk.{WalkArguments, InForce, Walk, push}
use enclavia.UpgradeChain.Walk.Lineage.{state_of, Reached, IsReached, IsAuthorized, IsSound}

module _ (v : ChainVerifier) (a : WalkArguments) (OnChain : ChainLink → Type 0) where
  open v use {verifier, boots}
  open verifier use {upgrades}

  abbrev pub AllOk : List (Result Outcome (ChainError v)) → Type 0
  AllOk [] = Unit
  AllOk (ok o ∷ outcomes) = AllOk outcomes
  AllOk (err e ∷ outcomes) = ⊥

  pub AllOk-append :
      (xs ys : List (Result Outcome (ChainError v))) → AllOk (xs ++ ys) → AllOk xs × AllOk ys
  AllOk-append [] ys h = (tt, h)
  AllOk-append (ok o ∷ xs) ys h = AllOk-append xs ys h
  AllOk-append (err e ∷ xs) ys h = absurd h

  -- One more link, accepted, whose effect on the state in force is given.
  pub grow :
      (w : Walk v) (link : ChainLink) (outcomes : List (Result Outcome (ChainError v)))
      (in_force : Option InForce) (identity : Option PinIdentity)
      → IsSound v a OnChain w
      → ((state : InForce)
          → in_force ≡ some state
          → (i : PinIdentity) × (identity ≡ some i) × Reached v a OnChain state i)
      → ((state : InForce) × (in_force ≡ some state))
      → ((p : BootPayload)
          → link.kind ≡ boot
          → decode_canonical boots link.payload ≡ ok p
          → IsReached v a OnChain (state_of p))
      → ((t : UpgradePayload)
          → link.kind ≡ upgrade
          → decode_canonical upgrades link.payload ≡ ok t
          → IsAuthorized v a OnChain link t)
      → IsSound v a OnChain (record {
        outcomes = outcomes;
        prior = w.prior ++ (link ∷ []);
        in_force = in_force;
        in_force_identity = identity;
      })
  grow w link outcomes in_force identity s tip started boot_reached authorized = record {
    tip = tip;
    started = λ _. started;
    upgrades_authorized = λ before u after t e k d.
        elim (append_split w.prior link before u after e) [
          | inl (_, same) ↦
              subst (λ l. IsAuthorized v a OnChain l t) same
                (authorized t (ap (λ l. l.kind) same ∙ k)
                  (ap (λ (l : ChainLink). decode_canonical upgrades l.payload) same ∙ d))
          | inr (zs, earlier) ↦ s.upgrades_authorized before u zs t earlier k d
        ];
    boots_reached = λ before l after p e k d. elim (append_split w.prior link before l after e) [
      | inl (_, same) ↦
          boot_reached p (ap (λ l. l.kind) same ∙ k)
            (ap (λ (l : ChainLink). decode_canonical boots l.payload) same ∙ d)
      | inr (zs, earlier) ↦ s.boots_reached before l zs p earlier k d
    ];
  }

  pub push-IsSound :
      (w : Walk v) (link : ChainLink) (o : Outcome)
      → IsSound v a OnChain w
      → is_empty w.prior ≡ false
      → ((p : BootPayload)
          → link.kind ≡ boot
          → decode_canonical boots link.payload ≡ ok p
          → IsReached v a OnChain (state_of p))
      → ((t : UpgradePayload)
          → link.kind ≡ upgrade
          → decode_canonical upgrades link.payload ≡ ok t
          → IsAuthorized v a OnChain link t)
      → IsSound v a OnChain (push v a w link (ok o))
  push-IsSound w link o s later boot_reached authorized =
      grow w link (w.outcomes ++ (ok o ∷ [])) w.in_force w.in_force_identity s s.tip
        (s.started later) boot_reached authorized
