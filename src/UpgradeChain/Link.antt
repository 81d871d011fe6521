-- ===== src/UpgradeChain/Link.antt =====
-- enclavia-protocol/src/chain.rs, `validate_chain_link`: one link against the chain so far. The hex
-- codec, the codecs of the payloads and the validation of an attestation document are parameters.
use enclavia.Base.{
  ℕ, Bool, true, false, not, ◌&&◌, ◌==◌, if◌then◌else◌, Option, none, some, List, [], ◌∷◌, length,
  Result, ok, ◌>>=◌, ◌>>◌, guard, ok_or, map_err,
}
use enclavia.Base.Int.{ℤ, leb_plus}
use enclavia.Base.Bytes.{Bytes, bytes_eq}
use enclavia.Base.Search.{any, find, find_last}
use enclavia.Machine.{ControlPubkey}
use enclavia.Protocol.Crypto.{Codec}
use enclavia.Protocol.Identity.{PinIdentity, identity_eq}
use enclavia.Protocol.Signing.{
  ChainLinkKind, boot, upgrade, revocation, upgrade_payload, revocation_payload, SignedDomain,
  ControlSignatureError, shape, invalid, verify_control_signature, CanonicalDecodeError,
  decode_canonical,
}
use enclavia.Protocol.Chain.{ChainLink, upgrade_window_is_valid, upgrade_link_hash}
use enclavia.Wire.Links.{Verifier}
use enclavia.UpgradeChain.Payload.{
  Pcrs, PcrsHex, BootPayload, AntiRollbackChange, check_successor, pcrs_eq, pcrs_hex_eq, image_pcrs,
  is_empty,
}

pub record ChainVerifier : Type 1 where
  pub verifier : Verifier
  pub boots : Codec BootPayload
  pub hex_decode : Bytes → Option Bytes
  pub hex_encode : Bytes → Bytes

pub record ChainContext : Type 0 where
  pub enclave_id : ℕ
  pub enclave_pcrs : PcrsHex
  pub enclave_image_digest : Bytes
  pub control_public_key : Option ControlPubkey
  pub upgradable : Bool
  pub prior_chain : List ChainLink

pub data Outcome : Type 0 where
  append : (sequence : ℕ) → Outcome
  dedup : Outcome

pub data ChainValidationError (E : Type 0) : Type 0 where
  attestation : E → ChainValidationError E
  empty_attestation : ChainValidationError E
  payload_decode : ChainLinkKind → CanonicalDecodeError → ChainValidationError E
  enclave_id_mismatch pcr_mismatch upgrade_from_mismatch : ChainValidationError E
  upgrade_window_invalid image_digest_mismatch boot_has_signature : ChainValidationError E
  signature_missing : ChainLinkKind → ChainValidationError E
  bad_control_pubkey signature_shape signature_invalid : ChainValidationError E
  non_upgradable_signed : ChainLinkKind → ChainValidationError E
  non_upgradable_second_boot : ChainValidationError E
  anti_rollback_changed : AntiRollbackChange → ChainValidationError E
  no_genesis_yet revoke_target_missing : ChainValidationError E
  revoke_target_wrong_kind : ChainLinkKind → ChainValidationError E
  revoke_past_activation already_revoked revoke_link_hash_mismatch : ChainValidationError E
  duplicate_payload : ChainLinkKind → ChainValidationError E
  upgrade_not_yet_active upgrade_expired promotion_identity_mismatch : ChainValidationError E
  corrupt_stored_payload : ChainLinkKind → CanonicalDecodeError → ChainValidationError E
  corrupt_stored_pcr_hex : ℕ → ChainValidationError E

-- The derived equality of the link kinds.
abbrev pub kind_eq : ChainLinkKind → ChainLinkKind → Bool
kind_eq boot boot = true
kind_eq upgrade upgrade = true
kind_eq revocation revocation = true
kind_eq _ _ = false

abbrev pub is_boot : ChainLink → Bool
is_boot l = kind_eq l.kind boot

abbrev pub id_is : ℕ → ChainLink → Bool
id_is i link = elim link.id [ none ↦ false | some j ↦ j == i ]

abbrev pub same_payload : ChainLink → ChainLink → Bool
same_payload link l = kind_eq l.kind link.kind && bytes_eq l.payload link.payload

unfoldable pub signed_payload_seen : ChainLink → List ChainLink → Bool
unfolding any
signed_payload_seen link prior = any (same_payload link) prior

abbrev pub absent {ℓ} : {A : Type ℓ} → Option A → Bool
absent none = true
absent (some a) = false

module _ (v : ChainVerifier) where
  open v use {verifier, boots, hex_decode}
  open verifier use {crypto, upgrades, revocations, AttestationError}

  abbrev pub ChainError : Type 0
  ChainError = ChainValidationError AttestationError

  unfoldable pub to_pcrs : PcrsHex → Result Pcrs ChainError
  to_pcrs p = do
    pcr0 ← ok_or (hex_decode p.pcr0) (corrupt_stored_pcr_hex 0)
    pcr1 ← ok_or (hex_decode p.pcr1) (corrupt_stored_pcr_hex 1)
    pcr2 ← ok_or (hex_decode p.pcr2) (corrupt_stored_pcr_hex 2)
    ok (record { pcr0 = pcr0; pcr1 = pcr1; pcr2 = pcr2 })

  unfoldable pub link_attestation : ChainLink → Bool → Result PinIdentity AttestationError
  link_attestation link debug_mode =
      verifier.validate_chain_link link.attestation link.payload debug_mode

  unfoldable pub require_pcrs : PinIdentity → Pcrs → Result (Unit {0}) AttestationError
  require_pcrs attested expected =
      guard (pcrs_eq (image_pcrs attested) expected) verifier.pcr_mismatch

  next_sequence : ChainContext → Outcome
  next_sequence ctx = append (length ctx.prior_chain)

  after_boot : ChainContext → BootPayload → ChainLink → Result Outcome ChainError
  unfolding next_sequence
  after_boot ctx parsed prev = do
    prev_payload ← map_err (corrupt_stored_payload boot) (decode_canonical boots prev.payload)
    if bytes_eq prev_payload.image_digest parsed.image_digest then ok dedup else do
      guard ctx.upgradable non_upgradable_second_boot
      map_err anti_rollback_changed
          (check_successor prev_payload.anti_rollback parsed.anti_rollback)
      ok (next_sequence ctx)

  unfoldable pub validate_boot : ChainLink → ChainContext → Result Outcome ChainError
  unfolding after_boot next_sequence
  validate_boot link ctx = do
    guard (absent link.signature) boot_has_signature
    parsed ← map_err (payload_decode boot) (decode_canonical boots link.payload)
    guard (parsed.enclave_id == ctx.enclave_id) enclave_id_mismatch
    guard (pcrs_hex_eq parsed.pcrs ctx.enclave_pcrs) pcr_mismatch
    guard (bytes_eq parsed.image_digest ctx.enclave_image_digest) image_digest_mismatch
    elim (find_last is_boot ctx.prior_chain) [
      | none ↦ ok (next_sequence ctx)
      | some prev ↦ after_boot ctx parsed prev
    ]

  -- The last steps of `validate_signed`: the first entry of a chain is a boot.
  append_signed : ChainContext → Result Outcome ChainError
  unfolding next_sequence
  append_signed ctx = do
    guard (not (is_empty ctx.prior_chain)) no_genesis_yet
    ok (next_sequence ctx)

  abbrev signature_error : ControlSignatureError → ChainError
  signature_error shape = signature_shape
  signature_error invalid = signature_invalid

  unfoldable pub signed_by_control_key :
      ChainLink → ChainContext → SignedDomain → Result (Unit {0}) ChainError
  signed_by_control_key link ctx domain = do
    guard ctx.upgradable (non_upgradable_signed link.kind)
    sig_bytes ← ok_or link.signature (signature_missing link.kind)
    pubkey_bytes ← ok_or ctx.control_public_key bad_control_pubkey
    verifying ← ok_or (crypto.from_sec1_bytes pubkey_bytes) bad_control_pubkey
    map_err signature_error
        (verify_control_signature crypto verifying domain link.payload sig_bytes)

  unfoldable pub validate_upgrade :
      ChainLink → ChainContext → PinIdentity → Result Outcome ChainError
  unfolding append_signed next_sequence
  validate_upgrade link ctx attested = do
    signed_by_control_key link ctx upgrade_payload
    parsed ← map_err (payload_decode upgrade) (decode_canonical upgrades link.payload)
    guard (parsed.enclave_id == ctx.enclave_id) enclave_id_mismatch
    guard (upgrade_window_is_valid parsed.valid_from parsed.valid_until) upgrade_window_invalid
    guard (identity_eq parsed.from attested) upgrade_from_mismatch
    if signed_payload_seen link ctx.prior_chain then ok dedup else append_signed ctx

  unfoldable pub check_not_revoked : ℕ → List ChainLink → Result (Unit {0}) ChainError
  check_not_revoked revokes [] = ok tt
  check_not_revoked revokes (existing ∷ prior) = elim (kind_eq existing.kind revocation) [
    | false ↦ check_not_revoked revokes prior
    | true ↦ do
      payload ←
          map_err (corrupt_stored_payload revocation)
            (decode_canonical revocations existing.payload)
      guard (not (payload.revokes == revokes)) already_revoked
      check_not_revoked revokes prior
  ]

  unfoldable pub validate_revocation : ChainLink → ChainContext → ℤ → Result Outcome ChainError
  unfolding append_signed next_sequence
  validate_revocation link ctx now = do
    signed_by_control_key link ctx revocation_payload
    revoke ← map_err (payload_decode revocation) (decode_canonical revocations link.payload)
    guard (revoke.enclave_id == ctx.enclave_id) enclave_id_mismatch
    if signed_payload_seen link ctx.prior_chain then ok dedup else do
      target ← ok_or (find (id_is revoke.revokes) ctx.prior_chain) revoke_target_missing
      guard (kind_eq target.kind upgrade) (revoke_target_wrong_kind target.kind)
      guard (revoke.revokes_link == upgrade_link_hash crypto target.payload)
          revoke_link_hash_mismatch
      target_upgrade ←
          map_err (corrupt_stored_payload upgrade) (decode_canonical upgrades target.payload)
      guard (not (leb_plus target_upgrade.valid_from 0 now 0)) revoke_past_activation
      check_not_revoked revoke.revokes ctx.prior_chain
      append_signed ctx

  -- The `match` on the kind of the link.
  abbrev pub validate_kind :
      ChainLink → ChainContext → PinIdentity → ℤ → ChainLinkKind → Result Outcome ChainError
  validate_kind link ctx doc now boot = validate_boot link ctx
  validate_kind link ctx doc now upgrade = validate_upgrade link ctx doc
  validate_kind link ctx doc now revocation = validate_revocation link ctx now

  unfoldable pub validate_chain_link :
      ChainLink → ChainContext → ℤ → Bool → Result Outcome ChainError
  validate_chain_link link ctx now debug_mode = do
    guard (not (is_empty link.attestation)) empty_attestation
    recorded_pcrs ← to_pcrs ctx.enclave_pcrs
    doc ← map_err attestation (link_attestation link debug_mode)
    map_err attestation (require_pcrs doc recorded_pcrs)
    validate_kind link ctx doc now link.kind
