-- ===== src/Wire/Tests.antt =====
-- The link verifiers at concrete links.
use enclavia.Base.{◌≡◌, refl, ◌↔◌, true, ok, err}
use enclavia.Base.Bytes.{bytes_eq}
use enclavia.Protocol.Identity.{identity_eq, key, canonical_bytes}
use enclavia.Protocol.Chain.{RevocationPayload, upgrade_link_hash, upgrade_window_is_valid}
use enclavia.Protocol.Signing.{verify_control_signature, decode_canonical, signed_message}
use enclavia.Wire.Window.{before_valid_from, past_valid_until}
use enclavia.Base.Int.{pos}
use enclavia.Wire.Fixtures.{
  verifier, upgrade_to_next, upgrade_link, upgrade_bytes, revocation_link, next_key, crypto, weigh,
}
use enclavia.Wire.Links.{
  verify_transition_link, verify_revocation_link, VerifiedRevocation, expired,
}
use enclavia.Wire.Links.Signed.{Encodes}
use enclavia.Wire.Links.Authorized.{
  IsAuthorized, decoded_of, verified_of, verify_transition_link_iff,
}
use enclavia.Wire.Links.Structure.{IsRevocation, verify_revocation_link_iff}

upgrade-Encodes : Encodes verifier.upgrades upgrade_bytes upgrade_to_next
unfolding bytes_eq
upgrade-Encodes = record { decodes = refl; canonical = refl }

verify_transition_link_iff_example :
    (verify_transition_link verifier upgrade_link
        (decoded_of verifier upgrade_to_next)
        next_key
        10
        true
        1000
      ≡ ok (verified_of verifier upgrade_link upgrade_to_next))
    ↔ (IsAuthorized verifier upgrade_link upgrade_to_next next_key 10 true 1000
        × (verified_of verifier upgrade_link upgrade_to_next
            ≡ verified_of verifier upgrade_link upgrade_to_next))
verify_transition_link_iff_example =
    verify_transition_link_iff verifier upgrade_link upgrade_to_next next_key 10 true 1000
      (verified_of verifier upgrade_link upgrade_to_next) upgrade-Encodes

-- The hypotheses of `IsAuthorized` hold of the link.
upgrade-accepted :
    verify_transition_link verifier upgrade_link
      (decoded_of verifier upgrade_to_next)
      next_key
      10
      true
      1000
    ≡ ok (verified_of verifier upgrade_link upgrade_to_next)
unfolding verify_transition_link verify_control_signature decode_canonical bytes_eq key
    canonical_bytes weigh signed_message upgrade_link_hash upgrade_window_is_valid before_valid_from
    past_valid_until identity_eq
upgrade-accepted = refl

-- Outside the window it is refused.
upgrade-expired :
    verify_transition_link verifier upgrade_link
      (decoded_of verifier upgrade_to_next)
      next_key
      10
      true
      90000000
    ≡ err (expired (pos 86400000) 90000000)
unfolding verify_transition_link verify_control_signature decode_canonical bytes_eq key
    canonical_bytes weigh signed_message upgrade_link_hash upgrade_window_is_valid before_valid_from
    past_valid_until identity_eq
upgrade-expired = refl

abbrev revoked : VerifiedRevocation
revoked = record { link_hash = crypto.sha256 upgrade_bytes }

verify_revocation_link_iff_example :
    (verify_revocation_link verifier revocation_link 10 ≡ ok revoked) ↔ (
      (payload : RevocationPayload) × IsRevocation verifier revocation_link 10 payload
      × (revoked ≡ record { link_hash = payload.revokes_link }))
verify_revocation_link_iff_example = verify_revocation_link_iff verifier revocation_link 10 revoked
