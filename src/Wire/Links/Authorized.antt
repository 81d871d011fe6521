-- ===== src/Wire/Links/Authorized.antt =====
-- What the link verifiers of synchronizer/src/wire.rs accept, described without their order of
-- checks.
use enclavia.Base.{
  Result-cases, ap, sym, ◌∙◌, ℕ, ◌*◌, ◌^◌, ◌≡◌, ◌≢◌, ◌↔◌, refl, Bool, ok, arith, Option-cases, inl,
  inr,
}
use enclavia.Base.Int.{pos, LePlus, div_floor}
use enclavia.Machine.{PcrKey, ControlPubkey}
use enclavia.Protocol.Identity.{key, identity_eq_iff}
use enclavia.Protocol.Signing.{upgrade_payload, verify_control_signature, decode_canonical}
use enclavia.Protocol.Chain.{
  ChainLink, UpgradePayload, upgrade_window_is_valid, upgrade_link_hash, timestamp_millis,
}
use enclavia.Wire.Window.{past_valid_until, before_valid_from}
use enclavia.Wire.Links.{Verifier, DecodedTransition, VerifiedTransition, verify_transition_link}
use enclavia.Wire.Links.Signed.{
  Encodes, IsSigned, decode_canonical-Encodes, verify_control_signature-IsSigned,
}

module _ (v : Verifier) where
  open v use {crypto, upgrades, revocations, validate_chain_link}

  -- An upgrade link that the owner of the key of `payload.from` signed, for the submitting session,
  -- attested by the enclave it moves away from. Its window, in nanoseconds, is an hour or longer, and
  -- at `now_ms` it is neither more than a minute before its start nor more than a minute past its
  -- end, both rounded down to milliseconds.
  pub record IsAuthorized (link : ChainLink) (payload : UpgradePayload) (session_key : PcrKey)
      (pk : ControlPubkey) (debug_mode : Bool) (now_ms : ℕ) : Type 0 where
    pub signed : IsSigned crypto pk upgrade_payload link.payload link.signature
    pub submitter : key crypto payload.to ≡ session_key
    pub moves : key crypto payload.to ≢ key crypto payload.from
    pub window : LePlus payload.valid_from (3600 * 10 ^ 9) payload.valid_until 0
    pub started : LePlus (div_floor payload.valid_from (10 ^ 6)) 0 (pos now_ms) 60000
    pub unexpired : LePlus (pos now_ms) 0 (div_floor payload.valid_until (10 ^ 6)) 60000
    pub attested : validate_chain_link link.attestation link.payload debug_mode ≡ ok payload.from

  abbrev pub decoded_of : UpgradePayload → DecodedTransition
  decoded_of payload = record { old_key = key crypto payload.from; new_key = key crypto payload.to }

  abbrev pub verified_of : ChainLink → UpgradePayload → VerifiedTransition
  verified_of link payload = record {
    old_key = key crypto payload.from;
    new_key = key crypto payload.to;
    link_hash = crypto.sha256 link.payload;
    valid_until_ms = timestamp_millis payload.valid_until;
  }

  pub IsAuthorized-verified :
      (link : ChainLink) (payload : UpgradePayload) (session_key : PcrKey) (pk : ControlPubkey)
      (debug_mode : Bool) (now_ms : ℕ)
      → Encodes upgrades link.payload payload
      → IsAuthorized link payload session_key pk debug_mode now_ms
      → verify_transition_link v link (decoded_of payload) session_key pk debug_mode now_ms
        ≡ ok (verified_of link payload)
  unfolding verify_transition_link verify_control_signature past_valid_until before_valid_from
      upgrade_window_is_valid upgrade_link_hash
  IsAuthorized-verified link payload session_key pk debug_mode now_ms e a =
      let d = decode_canonical-Encodes upgrades link.payload payload e in
      let same = (identity_eq_iff payload.from payload.from).1 refl in
      ground (arith, d, same, a, a.signed)

  verified-IsSigned :
      (link : ChainLink) (decoded : DecodedTransition) (session_key : PcrKey) (pk : ControlPubkey)
      (debug_mode : Bool) (now_ms : ℕ) (r : VerifiedTransition)
      → verify_transition_link v link decoded session_key pk debug_mode now_ms ≡ ok r
      → IsSigned crypto pk upgrade_payload link.payload link.signature
  unfolding verify_transition_link
  verified-IsSigned link decoded session_key pk debug_mode now_ms r h =
      elim (Option-cases link.signature) [
        | inl absent ↦ ground arith
        | inr (sig_bytes, present) ↦ elim (Option-cases (crypto.from_sec1_bytes pk)) [
          | inl absent ↦ ground arith
          | inr (verifying, pubkey) ↦
              verify_control_signature-IsSigned crypto pk upgrade_payload link.payload sig_bytes
                link.signature verifying present pubkey (ground arith)
        ]
      ]

  attested_from :
      (link : ChainLink) (payload : UpgradePayload) (session_key : PcrKey) (pk : ControlPubkey)
      (debug_mode : Bool) (now_ms : ℕ) (r : VerifiedTransition)
      → decode_canonical upgrades link.payload ≡ ok payload
      → verify_transition_link v link (decoded_of payload) session_key pk debug_mode now_ms ≡ ok r
      → validate_chain_link link.attestation link.payload debug_mode ≡ ok payload.from
  unfolding verify_transition_link
  attested_from link payload session_key pk debug_mode now_ms r d h =
      elim (Result-cases (validate_chain_link link.attestation link.payload debug_mode)) [
        | inl (attested, p) ↦ p ∙ ap ok ((identity_eq_iff attested payload.from).0 (ground arith))
        | inr refused ↦ ground arith
      ]

  pub verified-IsAuthorized :
      (link : ChainLink) (payload : UpgradePayload) (session_key : PcrKey) (pk : ControlPubkey)
      (debug_mode : Bool) (now_ms : ℕ) (r : VerifiedTransition)
      → Encodes upgrades link.payload payload
      → verify_transition_link v link (decoded_of payload) session_key pk debug_mode now_ms ≡ ok r
      → IsAuthorized link payload session_key pk debug_mode now_ms × (r ≡ verified_of link payload)
  unfolding verify_transition_link past_valid_until before_valid_from upgrade_window_is_valid
      upgrade_link_hash
  verified-IsAuthorized link payload session_key pk debug_mode now_ms r e h =
      let d = decode_canonical-Encodes upgrades link.payload payload e in
      (
        record {
          signed = verified-IsSigned link (decoded_of payload) session_key pk debug_mode now_ms r h;
          submitter = ground arith;
          moves = ground arith;
          window = ground arith;
          started = ground arith;
          unexpired = ground arith;
          attested = attested_from link payload session_key pk debug_mode now_ms r d h;
        },
        ground arith,
      )

  -- A link whose payload is the encoding of `payload` passes the verification exactly when it is
  -- authorized: signed by the control key under the upgrade domain, submitted by the session of
  -- the new key, to another key than the old one, with a window of an hour or longer that contains
  -- the trusted time, up to a minute before its start and a minute past its end, and attested by
  -- `payload.from`. What passes
  -- is the pair of keys, the link hash and the deadline of that payload.
  pub verify_transition_link_iff :
      (link : ChainLink) (payload : UpgradePayload) (session_key : PcrKey) (pk : ControlPubkey)
      (debug_mode : Bool) (now_ms : ℕ) (r : VerifiedTransition)
      → Encodes upgrades link.payload payload
      → (verify_transition_link v link (decoded_of payload) session_key pk debug_mode now_ms ≡ ok r)
        ↔ (IsAuthorized link payload session_key pk debug_mode now_ms
            × (r ≡ verified_of link payload))
  verify_transition_link_iff link payload session_key pk debug_mode now_ms r e = (
    verified-IsAuthorized link payload session_key pk debug_mode now_ms r e,
    λ (a, p).
        IsAuthorized-verified link payload session_key pk debug_mode now_ms e a ∙ ap ok (sym p),
  )

  -- What passes has the keys that were decoded, the new one being the session's.
  pub verified-keys :
      (link : ChainLink) (d : DecodedTransition) (session_key : PcrKey) (pk : ControlPubkey)
      (debug_mode : Bool) (now_ms : ℕ) (r : VerifiedTransition)
      → verify_transition_link v link d session_key pk debug_mode now_ms ≡ ok r
      → (r.old_key ≡ d.old_key) × (r.new_key ≡ session_key)
  unfolding verify_transition_link
  verified-keys link d session_key pk debug_mode now_ms r h = (ground arith, ground arith)
