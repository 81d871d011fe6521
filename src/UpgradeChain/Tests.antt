-- ===== src/UpgradeChain/Tests.antt =====
-- Upgrade chains at concrete links.
use enclavia.UpgradeChain.Accepted.Cancelled.{IsNewRevocation, validate_revocation-append_iff}
use enclavia.UpgradeChain.Accepted.Described.{
  IsNewUpgrade, IsNextBoot, validate_boot-append_iff, validate_upgrade-append_iff,
}
use enclavia.UpgradeChain.Accepted.Earlier.{IsOriginal}
use enclavia.UpgradeChain.Payload.{BootPayload}
use enclavia.UpgradeChain.Ingest.AntiRollback.{BootsWith, anti_rollback_is_fixed}
use enclavia.UpgradeChain.Link.{
  ChainContext, append, attestation, check_not_revoked, validate_revocation,
}
use enclavia.Protocol.Chain.{ChainLink, RevocationPayload, UpgradePayload, upgrade_link_hash}
use enclavia.UpgradeChain.Ingest.{Ingested, appended, context_of, empty, stored}
use enclavia.UpgradeChain.Accepted.{IsBoot}
use enclavia.UpgradeChain.Walk.{RecordedLink}
use enclavia.UpgradeChain.Fixtures.{
  before_activation, pcr_mismatch, pcrs_of, revocation_link, revocation_of,
}
use enclavia.Protocol.Signing.{boot, upgrade}
use enclavia.Base.Search.{find}
use enclavia.UpgradeChain.Ingest.Links.{ingested_link_is_placed}
use enclavia.UpgradeChain.Descent.{link_invalid}
use enclavia.UpgradeChain.Ingest.Revocations.{revoked_at_most_once}
use enclavia.Base.{ℕ, ◌≡◌, ◌≢◌, ◌↔◌, refl, Bool, true, false, some, List, [], ◌∷◌, ◌++◌, ok, err}
use enclavia.Wire.Fixtures.{old, weigh}
use enclavia.UpgradeChain.Fixtures.{
  verifier, upgraded, arguments, measured, boot_link, upgrade_link, recorded,
}
use enclavia.UpgradeChain.Descent.{all_valid}
use enclavia.Base.Search.{any}
use enclavia.UpgradeChain.Walk.{boot_context}
use enclavia.Base.Bytes.{bytes_eq}
use enclavia.UpgradeChain.Payload.{check_successor}
use enclavia.UpgradeChain.Walk.{conclude}
use enclavia.Protocol.Signing.{decode_canonical}
use enclavia.UpgradeChain.Walk.{explains}
use enclavia.Base.Search.{find_last}
use enclavia.Protocol.Identity.{identity_eq}
use enclavia.UpgradeChain.Payload.{image_pcrs}
use enclavia.UpgradeChain.Payload.{image_pcrs_hex}
use enclavia.UpgradeChain.Descent.{in_lineage}
use enclavia.UpgradeChain.Walk.{last_explaining}
use enclavia.UpgradeChain.Walk.{later_boot_context}
use enclavia.UpgradeChain.Link.{link_attestation}
use enclavia.UpgradeChain.Payload.{pcrs_eq}
use enclavia.UpgradeChain.Payload.{pcrs_hex_eq}
use enclavia.UpgradeChain.Walk.{promotion_context}
use enclavia.UpgradeChain.Walk.{promotion_target}
use enclavia.UpgradeChain.Link.{require_pcrs}
use enclavia.UpgradeChain.Walk.{revoked_ids}
use enclavia.UpgradeChain.Link.{signed_by_control_key}
use enclavia.UpgradeChain.Walk.{signed_context}
use enclavia.Protocol.Signing.{signed_message}
use enclavia.UpgradeChain.Link.{signed_payload_seen}
use enclavia.UpgradeChain.Link.{to_pcrs}
use enclavia.Protocol.Chain.{upgrade_window_is_valid}
use enclavia.UpgradeChain.Link.{validate_boot}
use enclavia.UpgradeChain.Link.{validate_chain_link}
use enclavia.UpgradeChain.Link.{validate_upgrade}
use enclavia.Protocol.Signing.{verify_control_signature}
use enclavia.UpgradeChain.Walk.{walk_link}
use enclavia.UpgradeChain.Walk.{walk_links}
use enclavia.UpgradeChain.Descent.{verify_pcr_descent, validate_chain}
use enclavia.UpgradeChain.Descent.Sound.{Descends, verify_pcr_descent-Descends}

descends : verify_pcr_descent verifier (measured 1) arguments upgraded ≡ ok (measured 2)
unfolding verify_pcr_descent validate_chain walk_links walk_link conclude boot_context
    later_boot_context signed_context promotion_context promotion_target last_explaining explains
    revoked_ids all_valid in_lineage validate_chain_link require_pcrs link_attestation to_pcrs
    validate_boot validate_upgrade signed_by_control_key verify_control_signature decode_canonical
    bytes_eq find_last any signed_payload_seen check_successor pcrs_eq pcrs_hex_eq image_pcrs
    image_pcrs_hex identity_eq upgrade_window_is_valid signed_message verifier
descends = refl

verify_pcr_descent-Descends_example : Descends verifier arguments upgraded (measured 1) (measured 2)
verify_pcr_descent-Descends_example =
    verify_pcr_descent-Descends verifier arguments (measured 1) upgraded (measured 2) descends

-- A promotion that no upgrade explains is refused.
abbrev unexplained : List RecordedLink
unexplained = recorded (boot_link 1) ∷ recorded (boot_link 2) ∷ []

unexplained-refused :
    verify_pcr_descent verifier (measured 1) arguments unexplained
    ≡ err (link_invalid 1 (attestation pcr_mismatch))
unfolding verify_pcr_descent validate_chain walk_links walk_link conclude boot_context
    later_boot_context signed_context promotion_target last_explaining revoked_ids all_valid
    validate_chain_link require_pcrs link_attestation to_pcrs validate_boot decode_canonical
    bytes_eq find_last pcrs_eq pcrs_hex_eq image_pcrs verifier explains
unexplained-refused = refl

-- The chain as `ingest` builds it: the rows 0 to 4, two upgrades and their revocations.
abbrev row : ℕ → ChainLink → ChainLink
row n link = stored link n n

abbrev genesis_chain : List ChainLink
genesis_chain = row 0 (boot_link 1) ∷ []

abbrev two_upgrades : List ChainLink
two_upgrades = row 0 (boot_link 1) ∷ row 1 (upgrade_link 1) ∷ row 2 (upgrade_link 2) ∷ []

abbrev one_revoked : List ChainLink
one_revoked = two_upgrades ++ (row 3 (revocation_link 1) ∷ [])

abbrev all_revoked : List ChainLink
all_revoked = one_revoked ++ (row 4 (revocation_link 2) ∷ [])

abbrev Chain : List ChainLink → Type 0
Chain = Ingested 1 (some 10) true verifier

admitted :
    (chain : List ChainLink) (link : ChainLink) (n : ℕ)
    → validate_chain_link verifier link
        (context_of 1 (some 10) true chain (pcrs_of 1) (1 ∷ []))
        before_activation
        false
      ≡ ok (append n)
    → Chain chain
    → Chain (chain ++ (row n link ∷ []))
admitted chain link n accepted h = appended chain (row n link) h (record {
  link = link;
  row_id = n;
  sequence = n;
  pcrs = pcrs_of 1;
  digest = 1 ∷ [];
  now = before_activation;
  debug_mode = false;
  accepted = accepted;
  recorded = refl;
})

genesis-ingested : Chain genesis_chain
unfolding validate_chain_link require_pcrs link_attestation to_pcrs validate_boot decode_canonical
    bytes_eq find_last pcrs_eq pcrs_hex_eq image_pcrs verifier
genesis-ingested = admitted [] (boot_link 1) 0 refl empty

two_upgrades-ingested : Chain two_upgrades
unfolding validate_chain_link require_pcrs link_attestation to_pcrs validate_upgrade
    signed_by_control_key verify_control_signature decode_canonical bytes_eq any signed_payload_seen
    pcrs_eq image_pcrs identity_eq upgrade_window_is_valid signed_message verifier
two_upgrades-ingested =
    admitted (genesis_chain ++ (row 1 (upgrade_link 1) ∷ [])) (upgrade_link 2) 2 refl
      (admitted genesis_chain (upgrade_link 1) 1 refl genesis-ingested)

all_revoked-ingested : Chain all_revoked
unfolding validate_chain_link require_pcrs link_attestation to_pcrs validate_revocation
    signed_by_control_key verify_control_signature decode_canonical bytes_eq any find
    signed_payload_seen check_not_revoked pcrs_eq image_pcrs upgrade_link_hash signed_message
    verifier weigh
all_revoked-ingested =
    admitted one_revoked (revocation_link 2) 4 refl
      (admitted two_upgrades (revocation_link 1) 3 refl two_upgrades-ingested)

ingested_link_is_placed_example :
    (row 1 (upgrade_link 1)).sequence ≡ some 1
    × (genesis_chain ≡ [] → upgrade ≡ boot)
    × (upgrade ≢ boot → IsOriginal (row 1 (upgrade_link 1)) genesis_chain)
    × (true ≡ false → (upgrade ≡ boot) × (genesis_chain ≡ []))
ingested_link_is_placed_example =
    ingested_link_is_placed 1 (some 10) true verifier all_revoked genesis_chain
      (row 1 (upgrade_link 1))
      (row 2 (upgrade_link 2) ∷ row 3 (revocation_link 1) ∷ row 4 (revocation_link 2) ∷ [])
      all_revoked-ingested refl

revoked_at_most_once_example : ◌≢◌ {A = ℕ} 1 2
unfolding decode_canonical bytes_eq verifier
revoked_at_most_once_example =
    revoked_at_most_once verifier 1 (some 10) true all_revoked two_upgrades
      (row 3 (revocation_link 1)) [] (row 4 (revocation_link 2)) [] (revocation_of 1)
      (revocation_of 2) all_revoked-ingested refl refl refl refl refl

anti_rollback_is_fixed_example :
    (enabled : Bool) × ((before : List ChainLink) (m : ChainLink) (after : List ChainLink)
      → all_revoked ≡ before ++ (m ∷ after)
      → m.kind ≡ boot
      → BootsWith verifier enabled m)
anti_rollback_is_fixed_example =
    anti_rollback_is_fixed verifier 1 (some 10) true all_revoked all_revoked-ingested

abbrev genesis_context : ChainContext
genesis_context = context_of 1 (some 10) true [] (pcrs_of 1) (1 ∷ [])

validate_boot-append_iff_example :
    (validate_boot verifier (boot_link 1) genesis_context ≡ ok (append 0)) ↔ (
      ((payload : BootPayload) × IsBoot verifier (boot_link 1) genesis_context payload
        × IsNextBoot verifier genesis_context payload)
      × (◌≡◌ {A = ℕ} 0 0))
validate_boot-append_iff_example = validate_boot-append_iff verifier (boot_link 1) genesis_context 0

abbrev later_context : ChainContext
later_context = context_of 1 (some 10) true genesis_chain (pcrs_of 1) (1 ∷ [])

validate_upgrade-append_iff_example :
    (validate_upgrade verifier (upgrade_link 1) later_context old ≡ ok (append 1)) ↔ (
      ((payload : UpgradePayload) × IsNewUpgrade verifier
          (upgrade_link 1)
          later_context
          old
          payload)
      × (◌≡◌ {A = ℕ} 1 1))
validate_upgrade-append_iff_example =
    validate_upgrade-append_iff verifier (upgrade_link 1) later_context old 1

abbrev revoking_context : ChainContext
revoking_context = context_of 1 (some 10) true two_upgrades (pcrs_of 1) (1 ∷ [])

validate_revocation-append_iff_example :
    (validate_revocation verifier (revocation_link 1) revoking_context before_activation
      ≡ ok (append 3))
    ↔ (((payload : RevocationPayload) × IsNewRevocation verifier
            (revocation_link 1)
            revoking_context
            before_activation
            payload)
        × (◌≡◌ {A = ℕ} 3 3))
validate_revocation-append_iff_example =
    validate_revocation-append_iff verifier (revocation_link 1) revoking_context before_activation 3

-- The upgrade 1 is appended after the boot, and its revocation after both upgrades.
upgrade_appended : validate_upgrade verifier (upgrade_link 1) later_context old ≡ ok (append 1)
unfolding validate_upgrade signed_by_control_key verify_control_signature decode_canonical bytes_eq
    any signed_payload_seen identity_eq upgrade_window_is_valid signed_message verifier
upgrade_appended = refl

revocation_appended :
    validate_revocation verifier (revocation_link 1) revoking_context before_activation
    ≡ ok (append 3)
unfolding validate_revocation signed_by_control_key verify_control_signature decode_canonical
    bytes_eq any find signed_payload_seen check_not_revoked upgrade_link_hash signed_message
    verifier weigh
revocation_appended = refl
