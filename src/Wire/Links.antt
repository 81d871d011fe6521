-- ===== src/Wire/Links.antt =====
-- The link verifiers of synchronizer/src/wire.rs. The validation of an attestation document
-- (synchronizer/src/attest.rs, enclavia-protocol/src/attestation.rs) is a parameter: it yields the
-- identity that the document carries.
pub mod Signed
pub mod Authorized
pub mod Structure
use enclavia.Base.{ℕ, Bool, true, not, ◌==◌, Result, ok, err, ◌>>=◌, ◌>>◌, guard, ok_or, map_err}
use enclavia.Base.Int.{ℤ}
use enclavia.Base.Bytes.{Bytes}
use enclavia.Machine.{PcrKey, ControlPubkey, LinkHash}
use enclavia.Protocol.Crypto.{Crypto, Codec}
use enclavia.Protocol.Identity.{PinIdentity, key, identity_eq}
use enclavia.Protocol.Signing.{
  ChainLinkKind, boot, upgrade, revocation, SignedDomain, upgrade_payload, revocation_payload,
  ControlSignatureError, shape, invalid, verify_control_signature, CanonicalDecodeError,
  decode_canonical,
}
use enclavia.Protocol.Chain.{
  ChainLink, UpgradePayload, RevocationPayload, upgrade_window_is_valid, upgrade_link_hash,
  timestamp_millis,
}
use enclavia.Wire.Window.{past_valid_until, before_valid_from}

-- What the verifiers call: the libraries, the codecs of the payloads, and the validation of a chain
-- link's attestation document against its payload.
pub record Verifier : Type 1 where
  pub crypto : Crypto
  pub upgrades : Codec UpgradePayload
  pub revocations : Codec RevocationPayload
  pub AttestationError : Type 0
  pub pcr_mismatch : AttestationError
  pub validate_chain_link : Bytes → Bytes → Bool → Result PinIdentity AttestationError

pub data TransitionLinkError (E : Type 0) : Type 0 where
  not_an_upgrade_link : ChainLinkKind → TransitionLinkError E
  missing_signature signature_shape bad_control_pubkey signature_invalid : TransitionLinkError E
  payload_decode : CanonicalDecodeError → TransitionLinkError E
  attestation : E → TransitionLinkError E
  session_key_mismatch self_transition : TransitionLinkError E
  not_yet_valid : (valid_from_ms : ℤ) (now_ms : ℕ) → TransitionLinkError E
  expired : (valid_until_ms : ℤ) (now_ms : ℕ) → TransitionLinkError E
  window_invalid : TransitionLinkError E

pub data RevocationLinkError : Type 0 where
  not_a_revocation_link : ChainLinkKind → RevocationLinkError
  missing_signature signature_shape bad_control_pubkey signature_invalid : RevocationLinkError
  payload_decode : CanonicalDecodeError → RevocationLinkError

pub record DecodedTransition : Type 0 where
  pub old_key : PcrKey
  pub new_key : PcrKey

pub record VerifiedTransition : Type 0 where
  pub old_key : PcrKey
  pub new_key : PcrKey
  pub link_hash : LinkHash
  pub valid_until_ms : ℤ

pub record VerifiedRevocation : Type 0 where
  pub link_hash : LinkHash

module _ (v : Verifier) where
  open v use {crypto, upgrades, revocations, AttestationError, pcr_mismatch, validate_chain_link}

  abbrev require_upgrade : ChainLinkKind → Result (Unit {0}) (TransitionLinkError AttestationError)
  require_upgrade upgrade = ok tt
  require_upgrade boot = err (not_an_upgrade_link boot)
  require_upgrade revocation = err (not_an_upgrade_link revocation)

  unfoldable pub decode_transition_link :
      ChainLink → Result DecodedTransition (TransitionLinkError AttestationError)
  decode_transition_link link = do
    require_upgrade link.kind
    ok_or link.signature TransitionLinkError.missing_signature
    payload ← map_err TransitionLinkError.payload_decode (decode_canonical upgrades link.payload)
    ok (record { old_key = key crypto payload.from; new_key = key crypto payload.to })

  abbrev transition_signature_error : ControlSignatureError → TransitionLinkError AttestationError
  transition_signature_error shape = TransitionLinkError.signature_shape
  transition_signature_error invalid = TransitionLinkError.signature_invalid

  -- `require_identity`, whose two comparisons are one on all the PCRs.
  require_identity : PinIdentity → PinIdentity → Result (Unit {0}) AttestationError
  require_identity attested expected = guard (identity_eq attested expected) pcr_mismatch

  unfoldable pub verify_transition_link :
      ChainLink
      → DecodedTransition
      → PcrKey
      → ControlPubkey
      → Bool
      → ℕ
      → Result VerifiedTransition (TransitionLinkError AttestationError)
  unfolding require_identity
  verify_transition_link link decoded session_key old_control_pubkey debug_mode now_ms = do
    guard (decoded.new_key == session_key) session_key_mismatch
    guard (not (decoded.new_key == decoded.old_key)) self_transition
    sig_bytes ← ok_or link.signature TransitionLinkError.missing_signature
    verifying ←
        ok_or (crypto.from_sec1_bytes old_control_pubkey) TransitionLinkError.bad_control_pubkey
    map_err transition_signature_error
        (verify_control_signature crypto verifying upgrade_payload link.payload sig_bytes)
    payload ← map_err TransitionLinkError.payload_decode (decode_canonical upgrades link.payload)
    guard (upgrade_window_is_valid payload.valid_from payload.valid_until) window_invalid
    let valid_from_ms = timestamp_millis payload.valid_from
    guard (not (before_valid_from now_ms valid_from_ms)) (not_yet_valid valid_from_ms now_ms)
    let valid_until_ms = timestamp_millis payload.valid_until
    guard (not (past_valid_until now_ms valid_until_ms)) (expired valid_until_ms now_ms)
    attested ← map_err attestation (validate_chain_link link.attestation link.payload debug_mode)
    map_err attestation (require_identity attested payload.from)
    ok (record {
      old_key = decoded.old_key;
      new_key = decoded.new_key;
      link_hash = upgrade_link_hash crypto link.payload;
      valid_until_ms = valid_until_ms;
    })

  abbrev revocation_signature_error : ControlSignatureError → RevocationLinkError
  revocation_signature_error shape = RevocationLinkError.signature_shape
  revocation_signature_error invalid = RevocationLinkError.signature_invalid

  abbrev require_revocation : ChainLinkKind → Result (Unit {0}) RevocationLinkError
  require_revocation revocation = ok tt
  require_revocation boot = err (not_a_revocation_link boot)
  require_revocation upgrade = err (not_a_revocation_link upgrade)

  unfoldable pub verify_revocation_link :
      ChainLink → ControlPubkey → Result VerifiedRevocation RevocationLinkError
  verify_revocation_link link control_pubkey = do
    require_revocation link.kind
    sig_bytes ← ok_or link.signature RevocationLinkError.missing_signature
    verifying ← ok_or (crypto.from_sec1_bytes control_pubkey) RevocationLinkError.bad_control_pubkey
    map_err revocation_signature_error
        (verify_control_signature crypto verifying revocation_payload link.payload sig_bytes)
    payload ← map_err RevocationLinkError.payload_decode (decode_canonical revocations link.payload)
    ok (record { link_hash = payload.revokes_link })
