-- ===== src/UpgradeChain/Walk.antt =====
-- enclavia-protocol/src/chain.rs, `validate_chain` and `verify_pcr_descent`: a stored chain walked
-- from its first link, and the descent of its tip from pinned measurements.
pub mod Target
pub mod Lineage
use enclavia.Base.{
  ℕ, suc, ◌*◌, ◌^◌, Bool, true, false, not, ◌&&◌, ◌||◌, ◌==◌, if◌then◌else◌, Option, none, some,
  List, [], ◌∷◌, ◌++◌, Result, ok, err, ◌>>=◌, ◌>>◌, guard, ok_or, map_err,
}
use enclavia.Base.Int.{ℤ, leb_plus}
use enclavia.Base.Bytes.{Bytes, bytes_eq}
use enclavia.Base.Search.{any}
use enclavia.Machine.{ControlPubkey}
use enclavia.Protocol.Identity.{PinIdentity, identity_eq}
use enclavia.Protocol.Signing.{ChainLinkKind, boot, upgrade, revocation, decode_canonical}
use enclavia.Protocol.Chain.{ChainLink, UpgradePayload}
use enclavia.UpgradeChain.Payload.{
  Pcrs, PcrsHex, BootPayload, pcrs_eq, pcrs_hex_eq, image_pcrs_hex, is_empty,
}
use enclavia.UpgradeChain.Link.{
  ChainVerifier, ChainContext, Outcome, append, dedup, ChainError, duplicate_payload,
  upgrade_not_yet_active, upgrade_expired, promotion_identity_mismatch, kind_eq, absent,
  signed_payload_seen, to_pcrs, link_attestation, validate_chain_link,
}

pub record RecordedLink : Type 0 where
  pub link : ChainLink
  pub recorded_at : Option ℤ

-- The arguments of `validate_chain` besides the links.
pub record WalkArguments : Type 0 where
  pub enclave_id : ℕ
  pub row_pcrs : PcrsHex
  pub row_image_digest : Bytes
  pub control_public_key : Option ControlPubkey
  pub upgradable : Bool
  pub now : ℤ
  pub debug_mode : Bool

pub record InForce : Type 0 where
  pub pcrs : PcrsHex
  pub image_digest : Bytes

-- What a link is validated against, and whether it advances the state in force.
pub record LinkContext : Type 0 where
  pub state : InForce
  pub promotes : Bool

-- `CLOCK_SKEW_TOLERANCE_SECS`, in nanoseconds.
abbrev pub clock_skew_tolerance : ℕ
clock_skew_tolerance = 60 * 10 ^ 9

module _ (v : ChainVerifier) where
  open v use {verifier, boots, hex_encode}
  open verifier use {upgrades, revocations}

  -- The state of the loop of `validate_chain`.
  pub record Walk : Type 0 where
    pub outcomes : List (Result Outcome (ChainError v))
    pub prior : List ChainLink
    pub in_force : Option InForce
    pub in_force_identity : Option PinIdentity

  unfoldable pub revoked_ids : List ChainLink → List ℕ
  revoked_ids [] = []
  revoked_ids (l ∷ ls) = elim (kind_eq l.kind revocation) [
    | false ↦ revoked_ids ls
    | true ↦ elim (decode_canonical revocations l.payload) [
      | ok p ↦ p.revokes ∷ revoked_ids ls
      | err e ↦ revoked_ids ls
    ]
  ]

  abbrev pub names_revoked : List ℕ → ChainLink → Bool
  names_revoked revoked l = elim l.id [ none ↦ false | some i ↦ any (λ j. j == i) revoked ]

  -- The body of the loop of `promotion_target`: whether `l`, after the links `before`, explains a
  -- boot.
  unfoldable pub explains :
      List ℕ → PcrsHex → Bytes → List ChainLink → ChainLink → Option UpgradePayload
  explains revoked boot_pcrs boot_image_digest before l =
      if not (kind_eq l.kind upgrade) || (names_revoked revoked l || signed_payload_seen l before)
      then none
      else elim (decode_canonical upgrades l.payload) [
        | err e ↦ none
        | ok p ↦
            if pcrs_hex_eq (image_pcrs_hex hex_encode p.to) boot_pcrs
              && bytes_eq p.image_digest boot_image_digest
            then some p
            else none
      ]

  -- The loop of `promotion_target`, from the last link on.
  unfoldable pub last_explaining :
      List ℕ → PcrsHex → Bytes → List ChainLink → List ChainLink → Option UpgradePayload
  last_explaining revoked boot_pcrs boot_image_digest before [] = none
  last_explaining revoked boot_pcrs boot_image_digest before (l ∷ ls) =
      elim (last_explaining revoked boot_pcrs boot_image_digest (before ++ (l ∷ [])) ls) [
        | some p ↦ some p
        | none ↦ explains revoked boot_pcrs boot_image_digest before l
      ]

  unfoldable pub promotion_target : List ChainLink → PcrsHex → Bytes → Option UpgradePayload
  promotion_target prior boot_pcrs boot_image_digest =
      last_explaining (revoked_ids prior) boot_pcrs boot_image_digest [] prior

  module _ (a : WalkArguments) where
    -- The checks on a boot that the upgrade `target` explains.
    unfoldable pub promotion_context :
        ChainLink → BootPayload → UpgradePayload → Result LinkContext (ChainError v)
    promotion_context link p target = do
      guard (leb_plus target.valid_from 0 p.booted_at clock_skew_tolerance) upgrade_not_yet_active
      guard (leb_plus p.booted_at 0 target.valid_until clock_skew_tolerance) upgrade_expired
      guard
          (elim (link_attestation v link a.debug_mode) [
            | ok identity ↦ identity_eq identity target.to
            | err e ↦ true
          ])
          promotion_identity_mismatch
      ok (record {
        state = record {
          pcrs = image_pcrs_hex hex_encode target.to;
          image_digest = target.image_digest;
        };
        promotes = true;
      })

    abbrev pub row_context : LinkContext
    row_context = record {
      state = record { pcrs = a.row_pcrs; image_digest = a.row_image_digest };
      promotes = false;
    }

    abbrev pub kept_context : InForce → LinkContext
    kept_context state = record { state = state; promotes = false }

    abbrev pub own_context : BootPayload → LinkContext
    own_context p = record {
      state = record { pcrs = p.pcrs; image_digest = p.image_digest };
      promotes = true;
    }

    unfoldable pub later_boot_context :
        Walk → ChainLink → InForce → BootPayload → Result LinkContext (ChainError v)
    later_boot_context w link state p = elim (pcrs_hex_eq p.pcrs state.pcrs) [
      | true ↦ ok (kept_context state)
      | false ↦ elim (promotion_target w.prior p.pcrs p.image_digest) [
        | none ↦ ok (kept_context state)
        | some target ↦ promotion_context link p target
      ]
    ]

    unfoldable pub signed_context : Walk → LinkContext
    signed_context w = elim w.in_force [ some state ↦ kept_context state | none ↦ row_context ]

    unfoldable pub boot_context : Walk → ChainLink → Result LinkContext (ChainError v)
    boot_context w link = elim (is_empty w.prior) [
      | true ↦ elim (decode_canonical boots link.payload) [
        | ok p ↦ ok (own_context p)
        | err e ↦ ok row_context
      ]
      | false ↦ elim w.in_force [
        | none ↦ ok row_context
        | some state ↦ elim (decode_canonical boots link.payload) [
          | err e ↦ ok (kept_context state)
          | ok p ↦ later_boot_context w link state p
        ]
      ]
    ]

    abbrev pub link_context : Walk → ChainLink → ChainLinkKind → Result LinkContext (ChainError v)
    link_context w link boot = boot_context w link
    link_context w link upgrade = ok (signed_context w)
    link_context w link revocation = ok (signed_context w)

    abbrev pub push : Walk → ChainLink → Result Outcome (ChainError v) → Walk
    push w link outcome = record {
      outcomes = w.outcomes ++ (outcome ∷ []);
      prior = w.prior ++ (link ∷ []);
      in_force = w.in_force;
      in_force_identity = w.in_force_identity;
    }

    abbrev pub context_in : Walk → InForce → ChainContext
    context_in w state = record {
      enclave_id = a.enclave_id;
      enclave_pcrs = state.pcrs;
      enclave_image_digest = state.image_digest;
      control_public_key = a.control_public_key;
      upgradable = a.upgradable;
      prior_chain = w.prior;
    }

    abbrev pub attested_identity : ChainLink → Option PinIdentity
    attested_identity link = elim (link_attestation v link a.debug_mode) [
      | ok identity ↦ some identity
      | err e ↦ none
    ]

    -- The state in force moves when a link that promotes is appended.
    unfoldable pub conclude : Walk → ChainLink → LinkContext → Result Outcome (ChainError v) → Walk
    conclude w link c (ok (append n)) = elim c.promotes [
      | false ↦ push w link (ok (append n))
      | true ↦ record {
        outcomes = w.outcomes ++ (ok (append n) ∷ []);
        prior = w.prior ++ (link ∷ []);
        in_force = some c.state;
        in_force_identity = attested_identity link;
      }
    ]
    conclude w link c (ok dedup) = push w link (ok dedup)
    conclude w link c (err e) = push w link (err e)

    abbrev pub reference : RecordedLink → ℤ
    reference r = elim r.recorded_at [ none ↦ a.now | some t ↦ t ]

    unfoldable pub walk_link : Walk → RecordedLink → Walk
    walk_link w r = elim (not (kind_eq r.link.kind boot) && signed_payload_seen r.link w.prior) [
      | true ↦ push w r.link (err (duplicate_payload r.link.kind))
      | false ↦ elim (link_context w r.link r.link.kind) [
        | err e ↦ push w r.link (err e)
        | ok c ↦
            conclude w r.link c
              (validate_chain_link v r.link (context_in w c.state) (reference r) a.debug_mode)
      ]
    ]

    unfoldable pub walk_links : Walk → List RecordedLink → Walk
    walk_links w [] = w
    walk_links w (r ∷ rs) = walk_links (walk_link w r) rs
