-- ===== src/UpgradeChain/Walk/Lineage.antt =====
-- The lineage of a chain that `validate_chain` of enclavia-protocol/src/chain.rs walks: the states
-- that its boots ran, from a genesis on, each next one authorized by a signed upgrade that an
-- enclave in an earlier state attested.
pub mod Boots
pub mod Signed
pub mod Growth
pub mod Steps
pub mod Walks
use enclavia.Base.{◌≡◌, true, false, some, List, ◌∷◌, ◌++◌, ok}
use enclavia.Base.Int.{leb_plus}
use enclavia.Machine.{ControlPubkey}
use enclavia.Protocol.Identity.{PinIdentity}
use enclavia.Protocol.Signing.{boot, upgrade, upgrade_payload, decode_canonical}
use enclavia.Protocol.Chain.{ChainLink, UpgradePayload, upgrade_window_is_valid}
use enclavia.Wire.Links.Signed.{Encodes, IsSigned}
use enclavia.UpgradeChain.Payload.{BootPayload, image_pcrs, image_pcrs_hex, is_empty}
use enclavia.UpgradeChain.Link.{ChainVerifier, to_pcrs, link_attestation}
use enclavia.UpgradeChain.Walk.{WalkArguments, InForce, Walk, clock_skew_tolerance}

abbrev pub state_of : BootPayload → InForce
state_of p = record { pcrs = p.pcrs; image_digest = p.image_digest }

module _ (v : ChainVerifier) (a : WalkArguments) (OnChain : ChainLink → Type 0) where
  open v use {verifier, boots, hex_encode}
  open verifier use {crypto, upgrades}

  -- A boot link of the chain: an enclave with the measurements of the payload attested it.
  pub record Ran (link : ChainLink) (p : BootPayload) (attested : PinIdentity) : Type 0 where
    pub on_chain : OnChain link
    pub is_boot : link.kind ≡ boot
    pub encodes : Encodes boots link.payload p
    pub enclave : p.enclave_id ≡ a.enclave_id
    pub valid : link_attestation v link a.debug_mode ≡ ok attested
    pub measured : to_pcrs v p.pcrs ≡ ok (image_pcrs attested)

  -- An upgrade link of the chain, under the control key's signature, that an enclave in the state
  -- `state` attested, whose full identity is the upgrade's `from`.
  pub record Authorizes (state : InForce) (link : ChainLink) (t : UpgradePayload) : Type 0 where
    pub on_chain : OnChain link
    pub is_upgrade : link.kind ≡ upgrade
    pub encodes : Encodes upgrades link.payload t
    pub enclave : t.enclave_id ≡ a.enclave_id
    pub pk : ControlPubkey
    pub key : a.control_public_key ≡ some pk
    pub signed : IsSigned crypto pk upgrade_payload link.payload link.signature
    pub window : upgrade_window_is_valid t.valid_from t.valid_until ≡ true
    pub valid : link_attestation v link a.debug_mode ≡ ok t.from
    pub measured : to_pcrs v state.pcrs ≡ ok (image_pcrs t.from)

  -- The boot is of the upgrade's target, with its full identity, within its window.
  pub record IsPromotion (t : UpgradePayload) (p : BootPayload) (attested : PinIdentity)
      : Type 0 where
    pub identity : attested ≡ t.to
    pub pcrs : p.pcrs ≡ image_pcrs_hex hex_encode t.to
    pub digest : p.image_digest ≡ t.image_digest
    pub started : leb_plus t.valid_from 0 p.booted_at clock_skew_tolerance ≡ true
    pub unexpired : leb_plus p.booted_at 0 t.valid_until clock_skew_tolerance ≡ true

  pub data Reached : InForce → PinIdentity → Type 0 where
    genesis :
        (link : ChainLink) (p : BootPayload) (attested : PinIdentity)
        → Ran link p attested
        → Reached (state_of p) attested
    promoted :
        (state : InForce) (identity : PinIdentity) (upgrade_link : ChainLink) (t : UpgradePayload)
        (link : ChainLink) (p : BootPayload) (attested : PinIdentity)
        → Reached state identity
        → Authorizes state upgrade_link t
        → Ran link p attested
        → IsPromotion t p attested
        → Reached (state_of p) attested

  abbrev pub IsReached : InForce → Type 0
  IsReached state = (identity : PinIdentity) × Reached state identity

  -- An upgrade that a state of the lineage authorizes.
  abbrev pub IsAuthorized : ChainLink → UpgradePayload → Type 0
  IsAuthorized link t = (state : InForce) × IsReached state × Authorizes state link t

  -- What the walk knows of the links behind it, each of which was accepted.
  pub record IsSound (w : Walk v) : Type 0 where
    pub tip :
        (state : InForce)
        → w.in_force ≡ some state
        → (identity : PinIdentity) × (w.in_force_identity ≡ some identity) × Reached state identity
    pub started : is_empty w.prior ≡ false → (state : InForce) × (w.in_force ≡ some state)
    pub upgrades_authorized :
        (before : List ChainLink) (u : ChainLink) (after : List ChainLink) (t : UpgradePayload)
        → w.prior ≡ before ++ (u ∷ after)
        → u.kind ≡ upgrade
        → decode_canonical upgrades u.payload ≡ ok t
        → IsAuthorized u t
    pub boots_reached :
        (before : List ChainLink) (l : ChainLink) (after : List ChainLink) (p : BootPayload)
        → w.prior ≡ before ++ (l ∷ after)
        → l.kind ≡ boot
        → decode_canonical boots l.payload ≡ ok p
        → IsReached (state_of p)
