-- ===== src/Protocol/Signing.antt =====
-- enclavia-protocol/src/signing.rs: domain-separated control signatures, canonical decoding.
use enclavia.Base.{◌≡◌, if◌then◌else◌, Option, none, some, [], ◌∷◌, ◌++◌, Result, ok, err, arith}
use enclavia.Base.Bytes.{Bytes, ascii, bytes_eq, bytes_eq_iff}
use enclavia.Protocol.Crypto.{Crypto, Codec}

pub data ChainLinkKind : Type 0 where
  boot upgrade revocation : ChainLinkKind

pub data SignedDomain : Type 0 where
  upgrade_payload revocation_payload control_command : SignedDomain

abbrev pub context : SignedDomain → Bytes
context upgrade_payload = ascii "enclavia/upgrade-payload/v1" ++ (0 ∷ [])
context revocation_payload = ascii "enclavia/revocation-payload/v1" ++ (0 ∷ [])
context control_command = ascii "enclavia/control-command/v1" ++ (0 ∷ [])

abbrev pub for_link : ChainLinkKind → Option SignedDomain
for_link upgrade = some upgrade_payload
for_link revocation = some revocation_payload
for_link boot = none

unfoldable pub signed_message : SignedDomain → Bytes → Bytes
signed_message domain bytes = context domain ++ bytes

-- A signed message names its domain and its payload: a signature made in one domain is over a
-- message that no payload has in another domain, and in one domain over a single payload.
pub signed_message-injective :
    (d e : SignedDomain) (bs cs : Bytes)
    → signed_message d bs ≡ signed_message e cs
    → (d ≡ e) × (bs ≡ cs)
unfolding signed_message
signed_message-injective upgrade_payload upgrade_payload bs cs h = ground arith
signed_message-injective upgrade_payload revocation_payload bs cs h = ground arith
signed_message-injective upgrade_payload control_command bs cs h = ground arith
signed_message-injective revocation_payload upgrade_payload bs cs h = ground arith
signed_message-injective revocation_payload revocation_payload bs cs h = ground arith
signed_message-injective revocation_payload control_command bs cs h = ground arith
signed_message-injective control_command upgrade_payload bs cs h = ground arith
signed_message-injective control_command revocation_payload bs cs h = ground arith
signed_message-injective control_command control_command bs cs h = ground arith

pub data ControlSignatureError : Type 0 where
  shape invalid : ControlSignatureError

module _ (c : Crypto) where
  open c use {VerifyingKey, signature_from_slice, verify}

  unfoldable pub verify_control_signature :
      VerifyingKey → SignedDomain → Bytes → Bytes → Result (Unit {0}) ControlSignatureError
  verify_control_signature verifying_key domain bytes signature =
      elim (signature_from_slice signature) [
        | none ↦ err shape
        | some sig ↦
            if verify verifying_key (signed_message domain bytes) sig then ok tt else err invalid
      ]

pub data CanonicalDecodeError : Type 0 where
  decode not_canonical : CanonicalDecodeError

module _ {T : Type 0} (codec : Codec T) where
  unfoldable pub decode_canonical : Bytes → Result T CanonicalDecodeError
  decode_canonical bytes = elim (codec.from_reader bytes) [
    | none ↦ err decode
    | some value ↦ if bytes_eq (codec.into_writer value) bytes then ok value else err not_canonical
  ]

  -- A value has one accepted encoding, its own: what decodes is what the encoder writes for the
  -- decoded value, so two accepted byte strings of one value are the same bytes.
  pub decode_canonical_unique :
      (bs cs : Bytes) (v : T)
      → decode_canonical bs ≡ ok v
      → decode_canonical cs ≡ ok v
      → (bs ≡ codec.into_writer v) × (bs ≡ cs)
  unfolding decode_canonical
  decode_canonical_unique bs cs v p q =
      ground (arith, bytes_eq_iff (codec.into_writer v) bs, bytes_eq_iff (codec.into_writer v) cs)
