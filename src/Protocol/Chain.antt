-- ===== src/Protocol/Chain.antt =====
-- enclavia-protocol/src/chain.rs: chain links, their payloads and the window of an upgrade. A time
-- (chrono's `DateTime<Utc>`) is its nanoseconds since the epoch; ids and texts are opaque.
use enclavia.Base.{ℕ, ◌*◌, ◌^◌, Bool, Option}
use enclavia.Base.Int.{ℤ, leb_plus, div_floor}
use enclavia.Base.Bytes.{Bytes}
use enclavia.Protocol.Crypto.{Crypto}
use enclavia.Protocol.Identity.{PinIdentity}
use enclavia.Protocol.Signing.{ChainLinkKind}

pub record ChainLink : Type 0 where
  pub id : Option ℕ
  pub sequence : Option ℕ
  pub kind : ChainLinkKind
  pub payload : Bytes
  pub attestation : Bytes
  pub signature : Option Bytes

pub record UpgradePayload : Type 0 where
  pub enclave_id : ℕ
  pub from : PinIdentity
  pub to : PinIdentity
  pub image_digest : Bytes
  pub valid_from : ℤ
  pub valid_until : ℤ
  pub issued_at : ℤ
  pub nonce : Bytes

pub record RevocationPayload : Type 0 where
  pub enclave_id : ℕ
  pub revokes : ℕ
  pub issued_at : ℤ
  pub nonce : Bytes
  pub revokes_link : ℕ

-- `Duration::hours(1)`
abbrev pub upgrade_window_min : ℕ
upgrade_window_min = 3600 * 10 ^ 9

-- valid_until - valid_from >= UPGRADE_WINDOW_MIN
unfoldable pub upgrade_window_is_valid : ℤ → ℤ → Bool
upgrade_window_is_valid valid_from valid_until =
    leb_plus valid_from upgrade_window_min valid_until 0

unfoldable pub upgrade_link_hash : Crypto → Bytes → ℕ
upgrade_link_hash c payload = c.sha256 payload

-- `DateTime::timestamp_millis`
abbrev pub timestamp_millis : ℤ → ℤ
timestamp_millis t = div_floor t (10 ^ 6)
