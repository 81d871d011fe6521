-- ===== src/Wire/Links/Signed.antt =====
-- Canonically encoded payloads, and the control signature of a key over them, as
-- enclavia-protocol/src/signing.rs checks them.
use enclavia.Base.{◌≡◌, true, Option, some, ok, arith, Option-cases, inl, inr}
use enclavia.Base.Bytes.{Bytes, bytes_eq_iff}
use enclavia.Machine.{ControlPubkey}
use enclavia.Protocol.Crypto.{Crypto, Codec}
use enclavia.Protocol.Signing.{
  SignedDomain, signed_message, verify_control_signature, decode_canonical,
}

-- `bytes` decode to `value`, which encodes back to them.
pub record Encodes {T : Type 0} (codec : Codec T) (bytes : Bytes) (value : T) : Type 0 where
  pub decodes : codec.from_reader bytes ≡ some value
  pub canonical : codec.into_writer value ≡ bytes

-- The control signature of a public key over `payload`, in a domain.
pub record IsSigned (c : Crypto) (pk : ControlPubkey) (domain : SignedDomain) (payload : Bytes)
    (signature : Option Bytes) : Type 0 where
  pub sig_bytes : Bytes
  pub verifying : c.VerifyingKey
  pub sig : c.Signature
  pub present : signature ≡ some sig_bytes
  pub pubkey : c.from_sec1_bytes pk ≡ some verifying
  pub shape : c.signature_from_slice sig_bytes ≡ some sig
  pub verified : c.verify verifying (signed_message domain payload) sig ≡ true

pub decode_canonical-Encodes :
    {T : Type 0} (codec : Codec T) (bytes : Bytes) (value : T)
    → Encodes codec bytes value
    → decode_canonical codec bytes ≡ ok value
unfolding decode_canonical
decode_canonical-Encodes codec bytes value e =
    ground (arith, e.decodes, (bytes_eq_iff (codec.into_writer value) bytes).1 e.canonical)

pub Encodes-decode_canonical :
    {T : Type 0} (codec : Codec T) (bytes : Bytes) (value : T)
    → decode_canonical codec bytes ≡ ok value
    → Encodes codec bytes value
unfolding decode_canonical
Encodes-decode_canonical codec bytes value h =
    let d : codec.from_reader bytes ≡ some value = ground arith in
    record {
      decodes = d;
      canonical = (bytes_eq_iff (codec.into_writer value) bytes).0 (ground arith);
    }

module _ (crypto : Crypto) where
  pub verify_control_signature-IsSigned :
      (pk : ControlPubkey) (domain : SignedDomain) (payload sig_bytes : Bytes)
      (signature : Option Bytes) (verifying : crypto.VerifyingKey)
      → signature ≡ some sig_bytes
      → crypto.from_sec1_bytes pk ≡ some verifying
      → verify_control_signature crypto verifying domain payload sig_bytes ≡ ok tt
      → IsSigned crypto pk domain payload signature
  unfolding verify_control_signature
  verify_control_signature-IsSigned pk domain payload sig_bytes signature verifying p q r =
      elim (Option-cases (crypto.signature_from_slice sig_bytes)) [
        | inl absent ↦ ground arith
        | inr (sig, found) ↦ record {
          sig_bytes = sig_bytes;
          verifying = verifying;
          sig = sig;
          present = p;
          pubkey = q;
          shape = found;
          verified = ground arith;
        }
      ]
