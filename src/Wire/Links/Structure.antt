-- ===== src/Wire/Links/Structure.antt =====
-- The structural phase of a transition link, and the verification of a revocation link, as
-- synchronizer/src/wire.rs performs them.
use enclavia.Base.{Result-cases, ◌≡◌, ◌↔◌, some, ok, arith, Option-cases, inl, inr}
use enclavia.Base.Bytes.{Bytes}
use enclavia.Machine.{ControlPubkey}
use enclavia.Protocol.Signing.{
  upgrade, revocation, revocation_payload, verify_control_signature, decode_canonical,
}
use enclavia.Protocol.Chain.{ChainLink, UpgradePayload, RevocationPayload}
use enclavia.Wire.Links.{
  Verifier, DecodedTransition, VerifiedRevocation, decode_transition_link, verify_revocation_link,
}
use enclavia.Wire.Links.Signed.{
  Encodes, IsSigned, decode_canonical-Encodes, Encodes-decode_canonical,
  verify_control_signature-IsSigned,
}
use enclavia.Wire.Links.Authorized.{decoded_of}

module _ (v : Verifier) where
  open v use {crypto, upgrades, revocations}

  -- A signed upgrade link with a canonical payload.
  pub record IsStructured (link : ChainLink) (payload : UpgradePayload) : Type 0 where
    pub kind : link.kind ≡ upgrade
    pub sig_bytes : Bytes
    pub present : link.signature ≡ some sig_bytes
    pub encodes : Encodes upgrades link.payload payload

  structure_of :
      (link : ChainLink) (d : DecodedTransition)
      → decode_transition_link v link ≡ ok d
      → (payload : UpgradePayload) × IsStructured link payload × (d ≡ decoded_of v payload)
  unfolding decode_transition_link
  structure_of link d h = elim (Option-cases link.signature) [
    | inl absent ↦ ground arith
    | inr (sig_bytes, present) ↦ elim (Result-cases (decode_canonical upgrades link.payload)) [
      | inl (payload, decodes) ↦ (
        payload,
        record {
          kind = ground arith;
          sig_bytes = sig_bytes;
          present = present;
          encodes = Encodes-decode_canonical upgrades link.payload payload decodes;
        },
        ground arith,
      )
      | inr refused ↦ ground arith
    ]
  ]

  -- The structural phase passes exactly the upgrade links that carry a signature and the canonical
  -- encoding of a payload, with the keys of its two identities.
  pub decode_transition_link_iff :
      (link : ChainLink) (d : DecodedTransition)
      → (decode_transition_link v link ≡ ok d)
        ↔ ((payload : UpgradePayload) × IsStructured link payload × (d ≡ decoded_of v payload))
  unfolding decode_transition_link
  decode_transition_link_iff link d = (
    structure_of link d,
    λ (payload, s, same).
        let p = decode_canonical-Encodes upgrades link.payload payload s.encodes in
        ground (arith, s),
  )

  -- A revocation link that the owner of the control key signed, whose payload names the link.
  pub record IsRevocation (link : ChainLink) (pk : ControlPubkey) (payload : RevocationPayload)
      : Type 0 where
    pub kind : link.kind ≡ revocation
    pub signed : IsSigned crypto pk revocation_payload link.payload link.signature
    pub encodes : Encodes revocations link.payload payload

  revocation-IsSigned :
      (link : ChainLink) (pk : ControlPubkey) (r : VerifiedRevocation)
      → verify_revocation_link v link pk ≡ ok r
      → IsSigned crypto pk revocation_payload link.payload link.signature
  unfolding verify_revocation_link
  revocation-IsSigned link pk r h = elim (Option-cases link.signature) [
    | inl absent ↦ ground arith
    | inr (sig_bytes, present) ↦ elim (Option-cases (crypto.from_sec1_bytes pk)) [
      | inl absent ↦ ground arith
      | inr (verifying, pubkey) ↦
          verify_control_signature-IsSigned crypto pk revocation_payload link.payload sig_bytes
            link.signature verifying present pubkey (ground arith)
    ]
  ]

  verify_revocation_link-IsRevocation :
      (link : ChainLink) (pk : ControlPubkey) (r : VerifiedRevocation)
      → verify_revocation_link v link pk ≡ ok r
      → (payload : RevocationPayload) × IsRevocation link pk payload
        × (r ≡ record { link_hash = payload.revokes_link })
  unfolding verify_revocation_link
  verify_revocation_link-IsRevocation link pk r h =
      elim (Result-cases (decode_canonical revocations link.payload)) [
        | inl (payload, decodes) ↦ (
          payload,
          record {
            kind = ground arith;
            signed = revocation-IsSigned link pk r h;
            encodes = Encodes-decode_canonical revocations link.payload payload decodes;
          },
          ground arith,
        )
        | inr refused ↦ ground arith
      ]

  -- A revocation link passes exactly when it is of its kind, signed by the control key under the
  -- revocation domain, and canonically encoded; what passes is the link hash that its payload names.
  pub verify_revocation_link_iff :
      (link : ChainLink) (pk : ControlPubkey) (r : VerifiedRevocation)
      → (verify_revocation_link v link pk ≡ ok r) ↔ (
          (payload : RevocationPayload) × IsRevocation link pk payload
          × (r ≡ record { link_hash = payload.revokes_link }))
  unfolding verify_revocation_link verify_control_signature
  verify_revocation_link_iff link pk r = (
    verify_revocation_link-IsRevocation link pk r,
    λ (payload, s, same).
        let p = decode_canonical-Encodes revocations link.payload payload s.encodes in
        ground (arith, s, s.signed),
  )
