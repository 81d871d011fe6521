-- ===== src/UpgradeChain/Ingest/Links.antt =====
-- What holds of every link of a chain that `validate_chain_link` of enclavia-protocol/src/chain.rs
-- admitted link by link.
use enclavia.Base.{
  ℕ, ◌≡◌, ◌≢◌, refl, sym, subst, ◌∙◌, Bool, false, Option, none, some, List, [], ◌∷◌, ◌++◌, length,
  ok, arith, inl, inr,
}
use enclavia.Base.Int.{ℤ}
use enclavia.Base.Search.{find, find_last}
use enclavia.Machine.{ControlPubkey}
use enclavia.Protocol.Identity.{PinIdentity}
use enclavia.Protocol.Signing.{ChainLinkKind, boot, upgrade, revocation}
use enclavia.Protocol.Chain.{ChainLink}
use enclavia.UpgradeChain.Link.{
  ChainVerifier, ChainContext, append, id_is, is_boot, signed_payload_seen, validate_kind,
}
use enclavia.UpgradeChain.Accepted.Kinds.{accepted_by_kind}
use enclavia.UpgradeChain.Accepted.Earlier.{IsOriginal, signed_payload_seen-IsOriginal}
use enclavia.UpgradeChain.Accepted.Boot.{validate_boot-append_checks}
use enclavia.UpgradeChain.Accepted.Signed.{
  validate_upgrade-append_checks, validate_revocation-append_checks,
}
use enclavia.UpgradeChain.Ingest.{stored, context_of, Ingested, ingested_split}

find_last-first :
    (l : ChainLink) (ls : List ChainLink) → l.kind ≡ boot → find_last is_boot (l ∷ ls) ≢ none
unfolding find_last
find_last-first l ls b e = ground arith

-- The number of a link, and what its kind needs of the links before it.
pub record IsPlaced (upgradable : Bool) (before : List ChainLink) (m : ChainLink) : Type 0 where
  pub numbered : m.sequence ≡ some (length before)
  pub genesis : before ≡ [] → m.kind ≡ boot
  pub once : m.kind ≢ boot → signed_payload_seen m before ≡ false
  pub fixed : upgradable ≡ false → (m.kind ≡ boot) × (find_last is_boot before ≡ none)

module _ (enclave_id : ℕ) (control_public_key : Option ControlPubkey) (upgradable : Bool)
    (v : ChainVerifier) where
  open v use {verifier}
  open verifier use {crypto, revocations}

  abbrev IsIngested : List ChainLink → Type 0
  IsIngested = Ingested enclave_id control_public_key upgradable v

  IsPlaced-link :
      (before : List ChainLink) (link : ChainLink) (row_id : ℕ) (ctx : ChainContext) (now : ℤ)
      (n : ℕ) (attested : PinIdentity) (kind : ChainLinkKind)
      → ctx.prior_chain ≡ before
      → ctx.upgradable ≡ upgradable
      → link.kind ≡ kind
      → validate_kind v link ctx attested now kind ≡ ok (append n)
      → IsPlaced upgradable before (stored link row_id n)
  unfolding signed_payload_seen find
  IsPlaced-link before link row_id ctx now n attested boot p u k h =
      let ((payload, b, new), same) = (validate_boot-append_checks v link ctx n).0 h in
      record {
        numbered = ground arith;
        genesis = λ _. k;
        once = λ other. absurd (other k);
        fixed = λ closed. (
          k,
          elim new [
            | inl first ↦ subst (λ c. find_last is_boot c ≡ none) p first
            | inr (prev, previous, t) ↦ ground (arith, t.upgradable)
          ],
        );
      }
  IsPlaced-link before link row_id ctx now n attested upgrade p u k h =
      let ((payload, r), new, nonempty, same) =
        (validate_upgrade-append_checks v link ctx attested n).0 h in
      record {
        numbered = ground arith;
        genesis = λ first. absurd (nonempty (p ∙ first));
        once = λ _. subst (λ c. signed_payload_seen link c ≡ false) p new;
        fixed = λ closed. ground (arith, r.signature.upgradable);
      }
  IsPlaced-link before link row_id ctx now n attested revocation p u k h =
      let ((payload, r, (target, cancelled, c)), new, same) =
        (validate_revocation-append_checks v link ctx now n).0 h in
      let found : before ≡ [] → find (id_is payload.revokes) [] ≡ some target =
        λ first. subst (λ c. find (id_is payload.revokes) c ≡ some target) (p ∙ first) c.found in
      record {
        numbered = ground arith;
        genesis = λ first. absurd (ground (arith, found first));
        once = λ _. subst (λ c. signed_payload_seen link c ≡ false) p new;
        fixed = λ closed. ground (arith, r.signature.upgradable);
      }

  IsIngested-IsPlaced :
      (chain before : List ChainLink) (m : ChainLink) (after : List ChainLink)
      → IsIngested chain
      → chain ≡ before ++ (m ∷ after)
      → IsPlaced upgradable before m
  IsIngested-IsPlaced chain before m after h e =
      let (_, a) =
        ingested_split enclave_id control_public_key upgradable v chain before m after h e in
      let ctx = context_of enclave_id control_public_key upgradable before a.pcrs a.digest in
      let (attested, t, k) =
        accepted_by_kind v a.link ctx a.now a.debug_mode (append a.sequence) a.accepted in
      subst (IsPlaced upgradable before) (sym a.recorded) (
        IsPlaced-link before a.link a.row_id ctx a.now a.sequence attested a.link.kind refl refl
          refl k)

  pub first_is_boot : (l : ChainLink) (ls : List ChainLink) → IsIngested (l ∷ ls) → l.kind ≡ boot
  first_is_boot l ls h = (IsIngested-IsPlaced (l ∷ ls) [] l ls h refl).genesis refl

  alone :
      (chain before : List ChainLink) (m : ChainLink) (after : List ChainLink)
      → IsIngested chain
      → chain ≡ before ++ (m ∷ after)
      → upgradable ≡ false
      → before ≡ []
  alone chain [] m after h e closed = refl
  alone chain (l ∷ ls) m after h e closed =
      let (earlier, _) =
        ingested_split enclave_id control_public_key upgradable v chain (l ∷ ls) m after h e in
      absurd (
        find_last-first l ls (first_is_boot l ls earlier)
          ((IsIngested-IsPlaced chain (l ∷ ls) m after h e).fixed closed).1)

  -- Every link of an ingested chain is numbered by its position; the first is a boot; an upgrade or
  -- a revocation has a payload that no earlier link of its kind has; and if the enclave is not
  -- upgradable, no link precedes it: the chain is a single boot.
  pub ingested_link_is_placed :
      (chain before : List ChainLink) (m : ChainLink) (after : List ChainLink)
      → IsIngested chain
      → chain ≡ before ++ (m ∷ after)
      → (m.sequence ≡ some (length before))
        × (before ≡ [] → m.kind ≡ boot)
        × (m.kind ≢ boot → IsOriginal m before)
        × (upgradable ≡ false → (m.kind ≡ boot) × (before ≡ []))
  ingested_link_is_placed chain before m after h e =
      let p = IsIngested-IsPlaced chain before m after h e in
      (
        p.numbered,
        p.genesis,
        λ signed. (signed_payload_seen-IsOriginal m before).0 (p.once signed),
        λ closed. ((p.fixed closed).0, alone chain before m after h e closed),
      )
