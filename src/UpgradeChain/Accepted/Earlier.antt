-- ===== src/UpgradeChain/Accepted/Earlier.antt =====
-- What the checks of enclavia-protocol/src/chain.rs on the links of a chain mean, without the loops
-- that make them.
use enclavia.Base.{
  ℕ, ◌≡◌, ◌≢◌, ◌↔◌, refl, true, false, none, some, List, [], ◌∷◌, ok, arith, Bool-cases,
  Result-cases, inl, inr,
}
use enclavia.Base.Bytes.{bytes_eq_iff}
use enclavia.Base.Search.{Every, Every-map, Fails, any-Every}
use enclavia.Base.Key.{nat_beq_iff}
use enclavia.Protocol.Signing.{ChainLinkKind, boot, upgrade, revocation, decode_canonical}
use enclavia.Protocol.Chain.{ChainLink, RevocationPayload}
use enclavia.Wire.Links.Signed.{Encodes, decode_canonical-Encodes, Encodes-decode_canonical}
use enclavia.UpgradeChain.Link.{
  ChainVerifier, kind_eq, is_boot, id_is, same_payload, signed_payload_seen, check_not_revoked,
}

-- No link of the chain has the kind and the payload of this one.
abbrev pub IsOriginal : ChainLink → List ChainLink → Type 0
IsOriginal link = Every (λ l. l.kind ≡ link.kind → l.payload ≢ link.payload)

pub kind_eq_iff : (a b : ChainLinkKind) → (kind_eq a b ≡ true) ↔ (a ≡ b)
kind_eq_iff boot b = ground arith
kind_eq_iff upgrade b = ground arith
kind_eq_iff revocation b = ground arith

other_kind : (a b : ChainLinkKind) → (kind_eq a b ≡ false) ↔ (a ≢ b)
other_kind a b = ground (arith, kind_eq_iff a b)

pub not_a_boot : (l : ChainLink) → (is_boot l ≡ false) ↔ (l.kind ≢ boot)
not_a_boot l = other_kind l.kind boot

pub id_is_iff : (i : ℕ) (l : ChainLink) → (id_is i l ≡ true) ↔ (l.id ≡ some i)
id_is_iff i l = elim l.id [ none ↦ ground arith | some j ↦ ground (arith, nat_beq_iff j i) ]

pub other_id : (i : ℕ) (l : ChainLink) → (id_is i l ≡ false) ↔ (l.id ≢ some i)
other_id i l = ground (arith, id_is_iff i l)

other_payload :
    (link l : ChainLink)
    → (same_payload link l ≡ false) ↔ (l.kind ≡ link.kind → l.payload ≢ link.payload)
other_payload link l =
    ground (arith, kind_eq_iff l.kind link.kind, bytes_eq_iff l.payload link.payload)

pub signed_payload_seen-IsOriginal :
    (link : ChainLink) (prior : List ChainLink)
    → (signed_payload_seen link prior ≡ false) ↔ IsOriginal link prior
unfolding signed_payload_seen
signed_payload_seen-IsOriginal link prior = (
  λ h.
      Every-map (Fails (same_payload link)) (λ l. l.kind ≡ link.kind → l.payload ≢ link.payload)
        (λ l. (other_payload link l).0) prior ((any-Every (same_payload link) prior).0 h),
  λ h. (any-Every (same_payload link) prior).1 (
      Every-map (λ l. l.kind ≡ link.kind → l.payload ≢ link.payload) (Fails (same_payload link))
        (λ l. (other_payload link l).1) prior h),
)

module _ (v : ChainVerifier) where
  open v use {verifier}
  open verifier use {revocations}

  -- A link that is not a revocation of the id: one that is has a canonical payload, of another id.
  abbrev pub RevokesOther : ℕ → ChainLink → Type 0
  RevokesOther revokes l =
      l.kind ≡ revocation
      → (payload : RevocationPayload) × Encodes revocations l.payload payload
        × (payload.revokes ≢ revokes)

  pub not_revoked-Every :
      (revokes : ℕ) (prior : List ChainLink)
      → check_not_revoked v revokes prior ≡ ok tt
      → Every (RevokesOther revokes) prior
  unfolding check_not_revoked
  not_revoked-Every revokes [] h = tt
  not_revoked-Every revokes (l ∷ prior) h = elim (Bool-cases (kind_eq l.kind revocation)) [
    | inr other ↦ (
      λ k. absurd ((other_kind l.kind revocation).0 other k),
      not_revoked-Every revokes prior (ground arith),
    )
    | inl signed ↦ elim (Result-cases (decode_canonical revocations l.payload)) [
      | inr corrupt ↦ ground arith
      | inl (payload, decodes) ↦ (
        λ k. (
          payload,
          Encodes-decode_canonical revocations l.payload payload decodes,
          λ same. ground (arith, nat_beq_iff payload.revokes revokes),
        ),
        not_revoked-Every revokes prior (ground arith),
      )
    ]
  ]

  pub Every-not_revoked :
      (revokes : ℕ) (prior : List ChainLink)
      → Every (RevokesOther revokes) prior
      → check_not_revoked v revokes prior ≡ ok tt
  unfolding check_not_revoked
  Every-not_revoked revokes [] h = refl
  Every-not_revoked revokes (l ∷ prior) h =
      let rest = Every-not_revoked revokes prior h.1 in
      elim (Bool-cases (kind_eq l.kind revocation)) [
        | inr other ↦ ground arith
        | inl signed ↦
            let (payload, e, n) = h.0 ((kind_eq_iff l.kind revocation).0 signed) in
            let d = decode_canonical-Encodes revocations l.payload payload e in
            ground (arith, nat_beq_iff payload.revokes revokes)
      ]
