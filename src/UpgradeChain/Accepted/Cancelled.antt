-- ===== src/UpgradeChain/Accepted/Cancelled.antt =====
-- The revocations that `validate_chain_link` of enclavia-protocol/src/chain.rs appends, described
-- without the tests that it makes.
use enclavia.Base.{ℕ, ◌≡◌, ◌≢◌, ◌↔◌, false, some, List, ◌∷◌, ◌++◌, length, ok, arith}
use enclavia.Base.Int.{ℤ, LePlus, leb_plus}
use enclavia.Base.Search.{Every, Every-map, Fails, find-IsFirst, IsFirst-find}
use enclavia.Protocol.Signing.{upgrade, revocation_payload}
use enclavia.Protocol.Chain.{ChainLink, UpgradePayload, RevocationPayload, upgrade_link_hash}
use enclavia.Wire.Links.Signed.{Encodes}
use enclavia.UpgradeChain.Link.{ChainVerifier, ChainContext, append, id_is, validate_revocation}
use enclavia.UpgradeChain.Accepted.{IsSignedLink, Revokes}
use enclavia.UpgradeChain.Accepted.Signed.{validate_revocation-append_checks}
use enclavia.UpgradeChain.Accepted.Earlier.{
  IsOriginal, RevokesOther, id_is_iff, other_id, signed_payload_seen-IsOriginal, not_revoked-Every,
  Every-not_revoked,
}

past_iff : (a b : ℤ) → (leb_plus a 0 b 0 ≡ false) ↔ LePlus b 1 a 0
past_iff a b = ground arith

module _ (v : ChainVerifier) where
  open v use {verifier}
  open verifier use {crypto, upgrades, revocations}

  -- The upgrade that a revocation cancels: the first link with the revoked id, not active at `now`.
  pub record Cancels (ctx : ChainContext) (now : ℤ) (payload : RevocationPayload)
      (target : ChainLink) (cancelled : UpgradePayload) : Type 0 where
    pub before : List ChainLink
    pub after : List ChainLink
    pub place : ctx.prior_chain ≡ before ++ (target ∷ after)
    pub named : target.id ≡ some payload.revokes
    pub first : Every (λ l. l.id ≢ some payload.revokes) before
    pub is_upgrade : target.kind ≡ upgrade
    pub hash : payload.revokes_link ≡ crypto.sha256 target.payload
    pub encodes : Encodes upgrades target.payload cancelled
    pub pending : LePlus now 1 cancelled.valid_from 0
    pub unrevoked : Every (RevokesOther v payload.revokes) ctx.prior_chain

  Revokes-Cancels :
      (ctx : ChainContext) (now : ℤ) (payload : RevocationPayload) (target : ChainLink)
      (cancelled : UpgradePayload)
      → Revokes v ctx now payload target cancelled ↔ Cancels ctx now payload target cancelled
  unfolding upgrade_link_hash
  Revokes-Cancels ctx now payload target cancelled =
      let other = λ (l : ChainLink). l.id ≢ some payload.revokes in
      (
        λ c.
            let r = find-IsFirst (id_is payload.revokes) ctx.prior_chain target c.found in
            record {
              before = r.before;
              after = r.after;
              place = r.place;
              named = (id_is_iff payload.revokes target).0 r.passes;
              first =
                  Every-map (Fails (id_is payload.revokes)) other
                    (λ l. (other_id payload.revokes l).0) r.before r.first;
              is_upgrade = c.is_upgrade;
              hash = c.hash;
              encodes = c.encodes;
              pending = (past_iff cancelled.valid_from now).0 c.pending;
              unrevoked = not_revoked-Every v payload.revokes ctx.prior_chain c.fresh;
            },
        λ c. record {
          found = IsFirst-find (id_is payload.revokes) ctx.prior_chain target (record {
            before = c.before;
            after = c.after;
            place = c.place;
            passes = (id_is_iff payload.revokes target).1 c.named;
            first =
                Every-map other (Fails (id_is payload.revokes))
                  (λ l. (other_id payload.revokes l).1) c.before c.first;
          });
          is_upgrade = c.is_upgrade;
          hash = c.hash;
          encodes = c.encodes;
          pending = (past_iff cancelled.valid_from now).1 c.pending;
          fresh = Every-not_revoked v payload.revokes ctx.prior_chain c.unrevoked;
        },
      )

  -- A revocation of the enclave that the chain does not hold, and the upgrade that it cancels.
  pub record IsNewRevocation (link : ChainLink) (ctx : ChainContext) (now : ℤ)
      (payload : RevocationPayload) : Type 0 where
    pub signature : IsSignedLink v link ctx revocation_payload
    pub encodes : Encodes revocations link.payload payload
    pub enclave : payload.enclave_id ≡ ctx.enclave_id
    pub original : IsOriginal link ctx.prior_chain
    pub target : ChainLink
    pub cancelled : UpgradePayload
    pub cancels : Cancels ctx now payload target cancelled

  -- A revocation is appended exactly when the control key signed its canonical payload as a
  -- revocation in this upgradable enclave, no revocation of the chain has the same payload, the
  -- first link with the revoked id is an upgrade whose payload has the revoked hash and that starts
  -- after `now`, and every revocation of the chain has a canonical payload that names another id;
  -- its number is the length of the chain.
  pub validate_revocation-append_iff :
      (link : ChainLink) (ctx : ChainContext) (now : ℤ) (n : ℕ)
      → (validate_revocation v link ctx now ≡ ok (append n)) ↔ (
          ((payload : RevocationPayload) × IsNewRevocation link ctx now payload)
          × (n ≡ length ctx.prior_chain))
  validate_revocation-append_iff link ctx now n = (
    λ h.
        let ((payload, r, (target, cancelled, c)), new, same) =
          (validate_revocation-append_checks v link ctx now n).0 h in
        (
          (
            payload,
            record {
              signature = r.signature;
              encodes = r.encodes;
              enclave = r.enclave;
              original = (signed_payload_seen-IsOriginal link ctx.prior_chain).0 new;
              target = target;
              cancelled = cancelled;
              cancels = (Revokes-Cancels ctx now payload target cancelled).0 c;
            },
          ),
          same,
        ),
    λ ((payload, r), same). (validate_revocation-append_checks v link ctx now n).1 (
      (
        payload,
        record { signature = r.signature; encodes = r.encodes; enclave = r.enclave },
        (r.target, r.cancelled, (Revokes-Cancels ctx now payload r.target r.cancelled).1 r.cancels),
      ),
      (signed_payload_seen-IsOriginal link ctx.prior_chain).1 r.original,
      same,
    ),
  )
