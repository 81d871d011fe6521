-- ===== src/UpgradeChain/Fixtures.antt =====
-- A concrete chain: an enclave `old` boots, its owner, whose control key is 10, signs upgrades to
-- `next` and revocations of them, and `next` boots.
use enclavia.Base.{ℕ, true, false, Option, none, some, List, [], ◌∷◌, ok}
use enclavia.Base.Int.{ℤ, pos, negsuc}
use enclavia.Base.Bytes.{Bytes}
use enclavia.Protocol.Identity.{PinIdentity}
use enclavia.Protocol.Signing.{
  boot, upgrade, revocation, upgrade_payload, revocation_payload, signed_message,
}
use enclavia.Protocol.Chain.{ChainLink, UpgradePayload, RevocationPayload}
use enclavia.Wire.Fixtures.{crypto, old, next}
use enclavia.UpgradeChain.Payload.{PcrsHex, AntiRollbackSetting, BootPayload, Pcrs}
use enclavia.UpgradeChain.Link.{ChainVerifier}
use enclavia.UpgradeChain.Walk.{RecordedLink, WalkArguments}

abbrev disabled : AntiRollbackSetting
disabled = record {
  enabled = false;
  upgrade_target = false;
  debug_attestation = false;
  synchronizer_pcrs = [];
}

-- The measurements of an enclave are its number, twice left empty.
abbrev pub pcrs_of : ℕ → PcrsHex
pcrs_of n = record { pcr0 = n ∷ []; pcr1 = []; pcr2 = [] }

abbrev pub boot_payload : ℕ → BootPayload
boot_payload n = record {
  enclave_id = 1;
  image_digest = n ∷ [];
  pcrs = pcrs_of n;
  booted_at = pos 1000;
  nonce = [];
  anti_rollback = disabled;
}

-- From the epoch on, for one day.
abbrev pub upgrade_of : Bytes → UpgradePayload
upgrade_of nonce = record {
  enclave_id = 1;
  from = old;
  to = next;
  image_digest = 2 ∷ [];
  valid_from = pos 0;
  valid_until = pos 86400000000000;
  issued_at = pos 0;
  nonce = nonce;
}

abbrev pub revocation_of : ℕ → RevocationPayload
revocation_of id = record {
  enclave_id = 1;
  revokes = id;
  issued_at = pos 0;
  nonce = [];
  revokes_link = crypto.sha256 (11 ∷ id ∷ []);
}

read_boot : Bytes → Option BootPayload
read_boot (n ∷ []) = some (boot_payload n)
read_boot _ = none

read_upgrade : Bytes → Option UpgradePayload
read_upgrade (tag ∷ nonce) = some (upgrade_of nonce)
read_upgrade _ = none

read_revocation : Bytes → Option RevocationPayload
read_revocation (tag ∷ n ∷ []) = some (revocation_of n)
read_revocation _ = none

-- A document names the enclave, 1 for `old` and 2 for `next`, before the payload.
attested_by : Bytes → PinIdentity
attested_by (n ∷ document) = record { image = (n ∷ []) ∷ []; user = [] }
attested_by [] = old

unfoldable pub verifier : ChainVerifier
unfolding read_boot read_upgrade read_revocation attested_by
verifier = record {
  verifier = record {
    crypto = crypto;
    upgrades = record { from_reader = read_upgrade; into_writer = λ p. 11 ∷ p.nonce };
    revocations = record { from_reader = read_revocation; into_writer = λ p. 21 ∷ p.revokes ∷ [] };
    AttestationError = Unit;
    pcr_mismatch = tt;
    validate_chain_link = λ document payload debug_mode. ok (attested_by document);
  };
  boots = record { from_reader = read_boot; into_writer = λ p. p.image_digest };
  hex_decode = some;
  hex_encode = λ bytes. bytes;
}

abbrev pub boot_link : ℕ → ChainLink
boot_link n = record {
  id = none;
  sequence = none;
  kind = boot;
  payload = n ∷ [];
  attestation = n ∷ [];
  signature = none;
}

abbrev pub upgrade_link : ℕ → ChainLink
upgrade_link n = record {
  id = none;
  sequence = none;
  kind = upgrade;
  payload = 11 ∷ n ∷ [];
  attestation = 1 ∷ [];
  signature = some (10 ∷ signed_message upgrade_payload (11 ∷ n ∷ []));
}

abbrev pub revocation_link : ℕ → ChainLink
revocation_link n = record {
  id = none;
  sequence = none;
  kind = revocation;
  payload = 21 ∷ n ∷ [];
  attestation = 1 ∷ [];
  signature = some (10 ∷ signed_message revocation_payload (21 ∷ n ∷ []));
}

abbrev pub before_activation : ℤ
before_activation = negsuc 0

abbrev pub arguments : WalkArguments
arguments = record {
  enclave_id = 1;
  row_pcrs = pcrs_of 2;
  row_image_digest = 2 ∷ [];
  control_public_key = some 10;
  upgradable = true;
  now = before_activation;
  debug_mode = false;
}

abbrev pub recorded : ChainLink → RecordedLink
recorded link = record { link = link; recorded_at = none }

-- `old` boots, an upgrade to `next` is signed, `next` boots.
abbrev pub upgraded : List RecordedLink
upgraded = recorded (boot_link 1) ∷ recorded (upgrade_link 1) ∷ recorded (boot_link 2) ∷ []

abbrev pub measured : ℕ → Pcrs
measured n = record { pcr0 = n ∷ []; pcr1 = []; pcr2 = [] }

abbrev pub pcr_mismatch : verifier.verifier.AttestationError
pcr_mismatch = verifier.verifier.pcr_mismatch
