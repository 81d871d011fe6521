-- ===== src/Protocol/Crypto.antt =====
-- The libraries that the protocol calls: SHA-256, ECDSA P-256 and the CBOR codec of a payload type.
use enclavia.Base.{ℕ, Bool, Option}
use enclavia.Base.Bytes.{Bytes}

pub record Crypto : Type 1 where
  pub sha256 : Bytes → ℕ
  pub VerifyingKey : Type 0
  pub Signature : Type 0
  pub from_sec1_bytes : ℕ → Option VerifyingKey
  pub signature_from_slice : Bytes → Option Signature
  pub verify : VerifyingKey → Bytes → Signature → Bool

-- `ciborium::from_reader` and `ciborium::into_writer` at one type.
pub record Codec (T : Type 0) : Type 0 where
  pub from_reader : Bytes → Option T
  pub into_writer : T → Bytes
