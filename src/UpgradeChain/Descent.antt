-- ===== src/UpgradeChain/Descent.antt =====
-- enclavia-protocol/src/chain.rs, `validate_chain` and `verify_pcr_descent`: the result of a walk,
-- and the descent of its tip from pinned measurements.
pub mod Sound
use enclavia.Base.{
  ℕ, suc, Bool, true, false, ◌&&◌, ◌||◌, Option, none, some, List, [], ◌∷◌, Result, ok, err, ◌>>=◌,
  ◌>>◌, guard, ok_or, map_err,
}
use enclavia.Base.Bytes.{Bytes, bytes_eq}
use enclavia.Protocol.Identity.{PinIdentity}
use enclavia.Protocol.Signing.{boot, decode_canonical}
use enclavia.UpgradeChain.Payload.{Pcrs, PcrsHex, pcrs_eq, pcrs_hex_eq}
use enclavia.UpgradeChain.Link.{ChainVerifier, Outcome, ChainError, kind_eq, to_pcrs}
use enclavia.UpgradeChain.Walk.{RecordedLink, WalkArguments, InForce, Walk, walk_links}

pub data PcrDescentError (E : Type 0) : Type 0 where
  no_genesis : PcrDescentError E
  link_invalid : (position : ℕ) → E → PcrDescentError E
  pinned_not_in_lineage : PcrDescentError E
  boot_payload_unreadable : (position : ℕ) → PcrDescentError E

module _ (v : ChainVerifier) where
  open v use {boots}

  pub record ChainWalk : Type 0 where
    pub outcomes : List (Result Outcome (ChainError v))
    pub final_pcrs : Option PcrsHex
    pub final_image_digest : Option Bytes
    pub final_identity : Option PinIdentity
    pub tip_matches_row : Bool

  abbrev pub start : Walk v
  start = record { outcomes = []; prior = []; in_force = none; in_force_identity = none }

  abbrev pub walk_result : WalkArguments → Walk v → ChainWalk
  walk_result a w = record {
    outcomes = w.outcomes;
    final_pcrs = elim w.in_force [ none ↦ none | some s ↦ some s.pcrs ];
    final_image_digest = elim w.in_force [ none ↦ none | some s ↦ some s.image_digest ];
    final_identity = w.in_force_identity;
    tip_matches_row = elim w.in_force [
      | none ↦ false
      | some s ↦ pcrs_hex_eq s.pcrs a.row_pcrs && bytes_eq s.image_digest a.row_image_digest
    ];
  }

  unfoldable pub validate_chain : WalkArguments → List RecordedLink → ChainWalk
  validate_chain a links = walk_result a (walk_links v a start links)

  abbrev pub DescentError : Type 0
  DescentError = PcrDescentError (ChainError v)

  -- Gate 1: the first link that failed.
  unfoldable pub all_valid :
      ℕ → List (Result Outcome (ChainError v)) → Result (Unit {0}) DescentError
  all_valid position [] = ok tt
  all_valid position (ok o ∷ outcomes) = all_valid (suc position) outcomes
  all_valid position (err e ∷ outcomes) = err (link_invalid position e)

  -- Gate 2: whether the pinned PCRs are those of a boot link.
  unfoldable pub in_lineage : Pcrs → ℕ → List RecordedLink → Result Bool DescentError
  in_lineage pinned position [] = ok false
  in_lineage pinned position (r ∷ rs) = elim (kind_eq r.link.kind boot) [
    | false ↦ in_lineage pinned (suc position) rs
    | true ↦ do
      payload ←
          map_err (λ _. boot_payload_unreadable position) (decode_canonical boots r.link.payload)
      state ← map_err (λ _. boot_payload_unreadable position) (to_pcrs v payload.pcrs)
      rest ← in_lineage pinned (suc position) rs
      ok (pcrs_eq state pinned || rest)
  ]

  unfoldable pub verify_pcr_descent :
      Pcrs → WalkArguments → List RecordedLink → Result Pcrs DescentError
  verify_pcr_descent pinned a links = do
    let walk = validate_chain a links
    all_valid 0 walk.outcomes
    final ← ok_or walk.final_pcrs no_genesis
    tip ← map_err (λ _. boot_payload_unreadable 0) (to_pcrs v final)
    pinned_in_lineage ← in_lineage pinned 0 links
    guard pinned_in_lineage pinned_not_in_lineage
    ok tip
