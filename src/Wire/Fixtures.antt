-- ===== src/Wire/Fixtures.antt =====
-- Concrete libraries and links for the tests of the verifiers and of the node: an enclave (`old`)
-- whose control key is 10 signs an upgrade to `next`, and a revocation of that upgrade.
use enclavia.Base.{ℕ, ◌+◌, ◌*◌, ◌%◌, Bool, true, false, if◌then◌else◌, none, some, [], ◌∷◌, ok, err}
use enclavia.Base.Int.{pos}
use enclavia.Base.Bytes.{Bytes, bytes_eq}
use enclavia.Protocol.Crypto.{Crypto, Codec}
use enclavia.Protocol.Identity.{PinIdentity, key}
use enclavia.Protocol.Signing.{
  upgrade, revocation, upgrade_payload, revocation_payload, signed_message,
}
use enclavia.Protocol.Chain.{ChainLink, UpgradePayload, RevocationPayload}
use enclavia.Wire.Links.{Verifier}

unfoldable pub weigh : Bytes → ℕ
weigh [] = 7
weigh (b ∷ bs) = (b + 31 * weigh bs) % 1000003

-- A signature is the public key before the signed message.
abbrev pub crypto : Crypto
crypto = record {
  sha256 = weigh;
  VerifyingKey = ℕ;
  Signature = Bytes;
  from_sec1_bytes = some;
  signature_from_slice = some;
  verify = λ pk message sig. bytes_eq sig (pk ∷ message);
}

abbrev pub old : PinIdentity
old = record { image = (1 ∷ []) ∷ []; user = [] }

abbrev pub next : PinIdentity
next = record { image = (2 ∷ []) ∷ []; user = [] }

-- From the epoch on, for one day.
abbrev pub upgrade_to_next : UpgradePayload
upgrade_to_next = record {
  enclave_id = 1;
  from = old;
  to = next;
  image_digest = [];
  valid_from = pos 0;
  valid_until = pos 86400000000000;
  issued_at = pos 0;
  nonce = [];
}

abbrev pub old_key : ℕ
old_key = key crypto old

abbrev pub next_key : ℕ
next_key = key crypto next

abbrev pub upgrade_bytes : Bytes
upgrade_bytes = 11 ∷ 12 ∷ []

abbrev pub revocation_bytes : Bytes
revocation_bytes = 21 ∷ 22 ∷ []

abbrev pub revoke_upgrade : RevocationPayload
revoke_upgrade = record {
  enclave_id = 1;
  revokes = 1;
  issued_at = pos 0;
  nonce = [];
  revokes_link = crypto.sha256 upgrade_bytes;
}

-- A codec of one payload.
abbrev pub codec_of : {T : Type 0} → T → Bytes → Codec T
codec_of value bytes = record {
  from_reader = λ bs. if bytes_eq bs bytes then some value else none;
  into_writer = λ _. bytes;
}

abbrev pub verifier : Verifier
verifier = record {
  crypto = crypto;
  upgrades = codec_of upgrade_to_next upgrade_bytes;
  revocations = codec_of revoke_upgrade revocation_bytes;
  AttestationError = Bool;
  pcr_mismatch = false;
  validate_chain_link =
      λ document payload debug_mode. if bytes_eq document (1 ∷ payload) then ok old else err true;
}

abbrev pub upgrade_link : ChainLink
upgrade_link = record {
  id = none;
  sequence = none;
  kind = upgrade;
  payload = upgrade_bytes;
  attestation = 1 ∷ upgrade_bytes;
  signature = some (10 ∷ signed_message upgrade_payload upgrade_bytes);
}

abbrev pub revocation_link : ChainLink
revocation_link = record {
  id = none;
  sequence = none;
  kind = revocation;
  payload = revocation_bytes;
  attestation = [];
  signature = some (10 ∷ signed_message revocation_payload revocation_bytes);
}
