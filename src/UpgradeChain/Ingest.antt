-- ===== src/UpgradeChain/Ingest.antt =====
-- The chains that the documented use of enclavia-protocol/src/chain.rs builds: a link is appended,
-- under a fresh row id, when `validate_chain_link` answers `Outcome::Append`, with the number that
-- the answer names, and no other link is. The recorded PCRs, the pinned digest, the clock and the
-- validation mode are whatever they are at each link; the id, the control key and the upgradable
-- flag of the enclave stay.
pub mod Links
pub mod Revocations
pub mod AntiRollback
use enclavia.Base.{ℕ, ◌≡◌, subst, Bool, Option, some, List, [], ◌∷◌, ◌++◌, ok, arith, inl, inr}
use enclavia.Base.Int.{ℤ}
use enclavia.Base.Bytes.{Bytes}
use enclavia.Base.Search.{append_split, split_is_nonempty}
use enclavia.Machine.{ControlPubkey}
use enclavia.Protocol.Chain.{ChainLink}
use enclavia.UpgradeChain.Payload.{PcrsHex}
use enclavia.UpgradeChain.Link.{ChainVerifier, ChainContext, append, validate_chain_link}

abbrev pub stored : ChainLink → ℕ → ℕ → ChainLink
stored link row_id sequence = record {
  id = some row_id;
  sequence = some sequence;
  kind = link.kind;
  payload = link.payload;
  attestation = link.attestation;
  signature = link.signature;
}

module _ (enclave_id : ℕ) (control_public_key : Option ControlPubkey) (upgradable : Bool) where
  abbrev pub context_of : List ChainLink → PcrsHex → Bytes → ChainContext
  context_of chain pcrs digest = record {
    enclave_id = enclave_id;
    enclave_pcrs = pcrs;
    enclave_image_digest = digest;
    control_public_key = control_public_key;
    upgradable = upgradable;
    prior_chain = chain;
  }

  module _ (v : ChainVerifier) where
    pub record IsAdmitted (chain : List ChainLink) (m : ChainLink) : Type 0 where
      pub link : ChainLink
      pub row_id : ℕ
      pub sequence : ℕ
      pub pcrs : PcrsHex
      pub digest : Bytes
      pub now : ℤ
      pub debug_mode : Bool
      pub accepted :
          validate_chain_link v link (context_of chain pcrs digest) now debug_mode
          ≡ ok (append sequence)
      pub recorded : m ≡ stored link row_id sequence

    pub data Ingested : List ChainLink → Type 0 where
      empty : Ingested []
      appended :
          (chain : List ChainLink) (m : ChainLink)
          → Ingested chain
          → IsAdmitted chain m
          → Ingested (chain ++ (m ∷ []))

    -- Each link of a chain was admitted by the links before it.
    pub ingested_split :
        (chain xs : List ChainLink) (m : ChainLink) (ys : List ChainLink)
        → Ingested chain
        → chain ≡ xs ++ (m ∷ ys)
        → Ingested xs × IsAdmitted xs m
    ingested_split _ xs m ys empty e = absurd (split_is_nonempty xs m ys e)
    ingested_split _ xs m ys (appended chain l before admitted) e =
        elim (append_split chain l xs m ys e) [
          | inl (same, last) ↦ (
            subst Ingested same before,
            subst (λ k. IsAdmitted k m) same (subst (IsAdmitted chain) last admitted),
          )
          | inr (zs, split) ↦ ingested_split chain xs m zs before split
        ]
