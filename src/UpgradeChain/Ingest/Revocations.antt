-- ===== src/UpgradeChain/Ingest/Revocations.antt =====
-- The revocations of a chain that `validate_chain_link` of enclavia-protocol/src/chain.rs admitted
-- link by link.
use enclavia.Base.{
  ℕ, ◌≡◌, ◌≢◌, sym, ap, subst, ◌∙◌, Bool, Option, some, List, [], ◌∷◌, ◌++◌, ok, arith, Bool-cases,
  Result-cases, inl, inr,
}
use enclavia.Base.Search.{find}
use enclavia.Machine.{ControlPubkey}
use enclavia.Protocol.Signing.{upgrade, revocation, revocation_payload, decode_canonical}
use enclavia.Protocol.Chain.{ChainLink, RevocationPayload, upgrade_link_hash}
use enclavia.Wire.Links.Signed.{Encodes, IsSigned, decode_canonical-Encodes}
use enclavia.UpgradeChain.Link.{
  ChainVerifier, append, id_is, validate_kind, kind_eq, check_not_revoked,
}
use enclavia.UpgradeChain.Accepted.Kinds.{accepted_by_kind}
use enclavia.UpgradeChain.Accepted.Signed.{validate_revocation-append_checks}
use enclavia.UpgradeChain.Ingest.{context_of, Ingested, ingested_split}

module _ (v : ChainVerifier) where
  open v use {verifier}
  open verifier use {crypto, upgrades, revocations}

  earlier_names_another :
      (revokes : ℕ) (before : List ChainLink) (s : ChainLink) (between : List ChainLink)
      (earlier : RevocationPayload)
      → check_not_revoked v revokes (before ++ (s ∷ between)) ≡ ok tt
      → s.kind ≡ revocation
      → decode_canonical revocations s.payload ≡ ok earlier
      → earlier.revokes ≢ revokes
  unfolding check_not_revoked
  earlier_names_another revokes [] s between earlier h k d e = ground arith
  earlier_names_another revokes (l ∷ before) s between earlier h k d e =
      elim (Bool-cases (kind_eq l.kind revocation)) [
        | inl other ↦ elim (Result-cases (decode_canonical revocations l.payload)) [
          | inl (p, decodes) ↦
              earlier_names_another revokes before s between earlier (ground arith) k d e
          | inr corrupt ↦ ground arith
        ]
        | inr signed ↦ earlier_names_another revokes before s between earlier (ground arith) k d e
      ]

  module _ (enclave_id : ℕ) (control_public_key : Option ControlPubkey) (upgradable : Bool) where
    -- What a revocation of a chain cancels: the signed payload names the id and the hash of an
    -- upgrade before it.
    pub record Cancels (before : List ChainLink) (m : ChainLink) (payload : RevocationPayload)
        : Type 0 where
      pub encodes : Encodes revocations m.payload payload
      pub pk : ControlPubkey
      pub key : control_public_key ≡ some pk
      pub signed : IsSigned crypto pk revocation_payload m.payload m.signature
      pub target : ChainLink
      pub found : find (id_is payload.revokes) before ≡ some target
      pub is_upgrade : target.kind ≡ upgrade
      pub hash : payload.revokes_link ≡ upgrade_link_hash crypto target.payload
      pub fresh : check_not_revoked v payload.revokes before ≡ ok tt

    -- In an ingested chain, a revocation carries the control key's signature over a canonical
    -- payload that names, by id and by hash, an upgrade that precedes it.
    pub ingested_revocation-Cancels :
        (chain before : List ChainLink) (m : ChainLink) (after : List ChainLink)
        → Ingested enclave_id control_public_key upgradable v chain
        → chain ≡ before ++ (m ∷ after)
        → m.kind ≡ revocation
        → (payload : RevocationPayload) × Cancels before m payload
    ingested_revocation-Cancels chain before m after h e k =
        let (_, a) =
          ingested_split enclave_id control_public_key upgradable v chain before m after h e in
        let ctx = context_of enclave_id control_public_key upgradable before a.pcrs a.digest in
        let (attested, t, accepted) =
          accepted_by_kind v a.link ctx a.now a.debug_mode (append a.sequence) a.accepted in
        let kind : a.link.kind ≡ revocation = sym (ap (λ l. l.kind) a.recorded) ∙ k in
        let ((payload, r, (target, cancelled, c)), new, same) =
          (validate_revocation-append_checks v a.link ctx a.now a.sequence).0 (
            subst (λ x. validate_kind v a.link ctx attested a.now x ≡ ok (append a.sequence)) kind
              accepted) in
        (
          payload,
          subst (λ l. Cancels before l payload) (sym a.recorded)
              (record {
                encodes = r.encodes;
                pk = r.signature.pk;
                key = r.signature.key;
                signed = r.signature.signed;
                target = target;
                found = c.found;
                is_upgrade = c.is_upgrade;
                hash = c.hash;
                fresh = c.fresh;
              }),
        )

    -- No two revocations of an ingested chain name the same upgrade.
    pub revoked_at_most_once :
        (chain before : List ChainLink) (s : ChainLink) (between : List ChainLink) (m : ChainLink)
        (after : List ChainLink) (earlier later : RevocationPayload)
        → Ingested enclave_id control_public_key upgradable v chain
        → chain ≡ (before ++ (s ∷ between)) ++ (m ∷ after)
        → s.kind ≡ revocation
        → m.kind ≡ revocation
        → decode_canonical revocations s.payload ≡ ok earlier
        → decode_canonical revocations m.payload ≡ ok later
        → earlier.revokes ≢ later.revokes
    revoked_at_most_once chain before s between m after earlier later h e ks km ds dm =
        let (payload, c) =
          ingested_revocation-Cancels chain (before ++ (s ∷ between)) m after h e km in
        let d = decode_canonical-Encodes revocations m.payload payload c.encodes in
        let same : payload ≡ later = ground arith in
        earlier_names_another later.revokes before s between earlier
          (subst (λ p. check_not_revoked v p.revokes (before ++ (s ∷ between)) ≡ ok tt) same
            c.fresh)
          ks ds
