-- ===== src/UpgradeChain/Accepted/Described.antt =====
-- The links that `validate_chain_link` of enclavia-protocol/src/chain.rs appends, described without
-- the tests that it makes.
use enclavia.Base.{
  ℕ, ◌*◌, ◌^◌, ◌≡◌, ◌≢◌, ◌↔◌, true, ◌⊎◌, List, [], ◌∷◌, ◌++◌, length, ok, arith, inl, inr,
}
use enclavia.Base.Int.{ℤ, LePlus, leb_plus}
use enclavia.Base.Bytes.{bytes_eq_iff}
use enclavia.Base.Search.{
  Every, Every-map, Fails, find_last-none, find_last-IsLast, IsLast-find_last,
}
use enclavia.Protocol.Identity.{PinIdentity}
use enclavia.Protocol.Signing.{boot, upgrade_payload}
use enclavia.Protocol.Chain.{ChainLink, UpgradePayload, upgrade_window_is_valid}
use enclavia.Wire.Links.Signed.{Encodes}
use enclavia.UpgradeChain.Payload.{
  BootPayload, IsSuccessor, check_successor-IsSuccessor, IsSuccessor-check_successor,
}
use enclavia.UpgradeChain.Link.{
  ChainVerifier, ChainContext, append, is_boot, validate_boot, validate_upgrade,
}
use enclavia.UpgradeChain.Accepted.{IsSignedLink, IsBoot}
use enclavia.UpgradeChain.Accepted.Boot.{Succeeds, IsNewBoot, validate_boot-append_checks}
use enclavia.UpgradeChain.Accepted.Signed.{validate_upgrade-append_checks}
use enclavia.UpgradeChain.Accepted.Earlier.{
  IsOriginal, kind_eq_iff, not_a_boot, signed_payload_seen-IsOriginal,
}

abbrev NotBoot : ChainLink → Type 0
NotBoot l = l.kind ≢ boot

leb_plus_iff : (a : ℤ) (n : ℕ) (b : ℤ) (m : ℕ) → (leb_plus a n b m ≡ true) ↔ LePlus a n b m
leb_plus_iff a n b m = ground arith

window_iff : (a b : ℤ) → (upgrade_window_is_valid a b ≡ true) ↔ LePlus a (3600 * 10 ^ 9) b 0
unfolding upgrade_window_is_valid
window_iff a b = leb_plus_iff a (3600 * 10 ^ 9) b 0

module _ (v : ChainVerifier) where
  open v use {verifier, boots}
  open verifier use {crypto, upgrades, revocations}

  -- The boot that a boot of another image follows: the last of the chain.
  pub record Follows (ctx : ChainContext) (payload : BootPayload) (prev : ChainLink)
      (previous : BootPayload) : Type 0 where
    pub before : List ChainLink
    pub after : List ChainLink
    pub place : ctx.prior_chain ≡ before ++ (prev ∷ after)
    pub is_boot : prev.kind ≡ boot
    pub last : Every NotBoot after
    pub encodes : Encodes boots prev.payload previous
    pub upgradable : ctx.upgradable ≡ true
    pub other_image : previous.image_digest ≢ payload.image_digest
    pub successor : IsSuccessor previous.anti_rollback payload.anti_rollback

  abbrev pub IsNextBoot : ChainContext → BootPayload → Type 0
  IsNextBoot ctx payload =
      Every NotBoot ctx.prior_chain
      ⊎ ((prev : ChainLink) × (previous : BootPayload) × Follows ctx payload prev previous)

  Every-NotBoot : (ls : List ChainLink) → Every (Fails is_boot) ls → Every NotBoot ls
  Every-NotBoot = Every-map (Fails is_boot) NotBoot (λ l. (not_a_boot l).0)

  NotBoot-Every : (ls : List ChainLink) → Every NotBoot ls → Every (Fails is_boot) ls
  NotBoot-Every = Every-map NotBoot (Fails is_boot) (λ l. (not_a_boot l).1)

  Succeeds-Follows :
      (ctx : ChainContext) (payload : BootPayload) (prev : ChainLink) (previous : BootPayload)
      → Succeeds v ctx payload prev previous ↔ Follows ctx payload prev previous
  Succeeds-Follows ctx payload prev previous = (
    λ s.
        let r = find_last-IsLast is_boot ctx.prior_chain prev s.last in
        record {
          before = r.before;
          after = r.after;
          place = r.place;
          is_boot = (kind_eq_iff prev.kind boot).0 r.passes;
          last = Every-NotBoot r.after r.last;
          encodes = s.encodes;
          upgradable = s.upgradable;
          other_image = λ e.
              ground (
                arith,
                s.other_image,
                (bytes_eq_iff previous.image_digest payload.image_digest).1 e,
              );
          successor =
              check_successor-IsSuccessor previous.anti_rollback payload.anti_rollback
                s.anti_rollback;
        },
    λ s. record {
      last = IsLast-find_last is_boot ctx.prior_chain prev (record {
        before = s.before;
        after = s.after;
        place = s.place;
        passes = (kind_eq_iff prev.kind boot).1 s.is_boot;
        last = NotBoot-Every s.after s.last;
      });
      encodes = s.encodes;
      upgradable = s.upgradable;
      other_image =
          ground (arith, s.other_image, bytes_eq_iff previous.image_digest payload.image_digest);
      anti_rollback =
          IsSuccessor-check_successor previous.anti_rollback payload.anti_rollback s.successor;
    },
  )

  IsNewBoot-IsNextBoot :
      (ctx : ChainContext) (payload : BootPayload)
      → IsNewBoot v ctx payload ↔ IsNextBoot ctx payload
  IsNewBoot-IsNextBoot ctx payload = (
    λ n. elim n [
      | inl first ↦
          inl (Every-NotBoot ctx.prior_chain ((find_last-none is_boot ctx.prior_chain).0 first))
      | inr (prev, previous, s) ↦
          inr (prev, previous, (Succeeds-Follows ctx payload prev previous).0 s)
    ],
    λ n. elim n [
      | inl first ↦
          inl ((find_last-none is_boot ctx.prior_chain).1 (NotBoot-Every ctx.prior_chain first))
      | inr (prev, previous, s) ↦
          inr (prev, previous, (Succeeds-Follows ctx payload prev previous).1 s)
    ],
  )

  -- A boot is appended exactly when it carries no signature, its payload is canonical and names the
  -- enclave, its recorded PCRs and its image digest, and either no boot precedes it, or the enclave
  -- is upgradable, the last boot before it is of another image, and anti-rollback is as enabled as
  -- it was there, and if it is enabled, the new image is an upgrade target with the same debug flag
  -- that trusts a synchronizer; its number is the length of the chain.
  pub validate_boot-append_iff :
      (link : ChainLink) (ctx : ChainContext) (n : ℕ)
      → (validate_boot v link ctx ≡ ok (append n)) ↔ (
          ((payload : BootPayload) × IsBoot v link ctx payload × IsNextBoot ctx payload)
          × (n ≡ length ctx.prior_chain))
  validate_boot-append_iff link ctx n = (
    λ h.
        let ((payload, b, new), same) = (validate_boot-append_checks v link ctx n).0 h in
        ((payload, b, (IsNewBoot-IsNextBoot ctx payload).0 new), same),
    λ ((payload, b, new), same).
        (validate_boot-append_checks v link ctx n).1
          ((payload, b, (IsNewBoot-IsNextBoot ctx payload).1 new), same),
  )

  -- A signed upgrade of the enclave, in nanoseconds, that the chain does not hold.
  pub record IsNewUpgrade (link : ChainLink) (ctx : ChainContext) (attested : PinIdentity)
      (payload : UpgradePayload) : Type 0 where
    pub signature : IsSignedLink v link ctx upgrade_payload
    pub encodes : Encodes upgrades link.payload payload
    pub enclave : payload.enclave_id ≡ ctx.enclave_id
    pub window : LePlus payload.valid_from (3600 * 10 ^ 9) payload.valid_until 0
    pub from : payload.from ≡ attested
    pub original : IsOriginal link ctx.prior_chain
    pub nonempty : ctx.prior_chain ≢ []

  -- An upgrade is appended exactly when the control key signed its canonical payload as an upgrade
  -- of this upgradable enclave, that ends an hour or more after it starts, from the identity that
  -- the link's document attests, the chain is not empty and no upgrade in it has the same payload;
  -- its number is the length of the chain.
  pub validate_upgrade-append_iff :
      (link : ChainLink) (ctx : ChainContext) (attested : PinIdentity) (n : ℕ)
      → (validate_upgrade v link ctx attested ≡ ok (append n)) ↔ (
          ((payload : UpgradePayload) × IsNewUpgrade link ctx attested payload)
          × (n ≡ length ctx.prior_chain))
  validate_upgrade-append_iff link ctx attested n = (
    λ h.
        let ((payload, u), new, nonempty, same) =
          (validate_upgrade-append_checks v link ctx attested n).0 h in
        (
          (
            payload,
            record {
              signature = u.signature;
              encodes = u.encodes;
              enclave = u.enclave;
              window = (window_iff payload.valid_from payload.valid_until).0 u.window;
              from = u.from;
              original = (signed_payload_seen-IsOriginal link ctx.prior_chain).0 new;
              nonempty = nonempty;
            },
          ),
          same,
        ),
    λ ((payload, u), same). (validate_upgrade-append_checks v link ctx attested n).1 (
      (
        payload,
        record {
          signature = u.signature;
          encodes = u.encodes;
          enclave = u.enclave;
          window = (window_iff payload.valid_from payload.valid_until).1 u.window;
          from = u.from;
        },
      ),
      (signed_payload_seen-IsOriginal link ctx.prior_chain).1 u.original,
      u.nonempty,
      same,
    ),
  )
