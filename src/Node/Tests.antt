-- ===== src/Node/Tests.antt =====
-- The node at concrete sessions: an enclave registers and pins, and its successor takes over, or
-- the upgrade is revoked.
use enclavia.Base.{ℕ, ◌≡◌, ◌≢◌, ◌⊎◌, refl, true, Option, none, some, List, [], ◌∷◌, arith}
use enclavia.Base.Bytes.{bytes_eq}
use enclavia.Base.BTreeMap
use enclavia.Base.BTreeSet
use enclavia.Base.Key.{nat_key}
use enclavia.Machine.{PcrKey, KeyState, apply, is_revoked}
use enclavia.Machine
use enclavia.Machine.Finality.{Retired}
use enclavia.Protocol.Identity.{key, canonical_bytes, identity_eq}
use enclavia.Protocol.Signing.{verify_control_signature, decode_canonical, signed_message}
use enclavia.Protocol.Chain.{UpgradePayload, upgrade_link_hash, upgrade_window_is_valid}
use enclavia.Wire.{
  Request, get, register, pin, transition, revoke, get_ok, transition_ok, revoke_ok, error,
  not_found, version_conflict,
}
use enclavia.Wire.Window.{before_valid_from, past_valid_until}
use enclavia.Wire.Links.{decode_transition_link, verify_transition_link, verify_revocation_link}
use enclavia.Wire.Links.Signed.{Encodes}
use enclavia.Wire.Links.Structure.{IsStructured}
use enclavia.Wire.Fixtures.{
  verifier, crypto, weigh, upgrade_to_next, upgrade_link, upgrade_bytes, revocation_link,
  revocation_bytes, revoke_upgrade, next_key, old_key,
}
use enclavia.Node.{
  Node, with_debug_mode, observe_attestation, observe_transition, handle_decoded, handle_transition,
  handle_revoke, handle_request,
}
use enclavia.Node.Sessions.{Event, connect, request, serve_all, serve_all-IsValid}
use enclavia.Node.Isolation.{state_after, TakesOver, session_isolation}
use enclavia.Node.Answers.{SamePins, error_changes_nothing}
use enclavia.Node.ReadBack.{Reads, read_your_writes}
use enclavia.Node.Cutover.{cutover_is_final}
use enclavia.Node.Revocation.{revoked_link_is_dead}

abbrev earlier : List Event
earlier =
    connect old_key 10
    ∷ request old_key none (register old_key 100)
    ∷ request old_key none (pin old_key 0 101)
    ∷ connect next_key 20
    ∷ []

abbrev node : Node
node = serve_all verifier (with_debug_mode true) earlier

abbrev cutover : Request
cutover = transition upgrade_link 101

-- The successor takes over, and reads what the enclave pinned.
node-cutover : (handle_request verifier node next_key (some 1000) cutover).1 ≡ transition_ok 1
unfolding serve_all handle_request handle_transition handle_decoded observe_attestation
    observe_transition apply is_revoked Machine.observe_attestation Machine.observe_transition
    BTreeMap.get BTreeMap.insert BTreeMap.remove BTreeSet.contains BTreeSet.insert
    decode_transition_link verify_transition_link verify_control_signature decode_canonical bytes_eq
    key canonical_bytes weigh signed_message upgrade_link_hash upgrade_window_is_valid
    before_valid_from past_valid_until identity_eq
node-cutover = refl

keys-differ : old_key ≢ next_key
unfolding key canonical_bytes weigh
keys-differ = ground arith

session_isolation_example :
    (state_after verifier node next_key (some 1000) cutover old_key
      ≡ BTreeMap.get node.inner.state old_key)
    ⊎ TakesOver verifier node next_key old_key (some 1000) cutover
session_isolation_example =
    session_isolation verifier node next_key old_key (some 1000) cutover keys-differ

error_changes_nothing_example :
    SamePins (handle_request verifier node old_key none (pin old_key 0 102)).0.inner node.inner
unfolding serve_all handle_request observe_attestation apply Machine.observe_attestation
    BTreeMap.get BTreeMap.insert BTreeSet.contains key canonical_bytes weigh
error_changes_nothing_example =
    error_changes_nothing verifier node old_key none (pin old_key 0 102) version_conflict refl

read_your_writes_example :
    Reads verifier
      (handle_request verifier node old_key none (pin old_key 1 102)).0
      old_key
      (get_ok 102 2)
unfolding serve_all handle_request observe_attestation apply Machine.observe_attestation
    BTreeMap.get BTreeMap.insert BTreeSet.contains key canonical_bytes weigh
read_your_writes_example =
    read_your_writes verifier node old_key none (pin old_key 1 102) (get_ok 102 2) refl

cutover_is_final_example :
    (payload : UpgradePayload) × IsStructured verifier upgrade_link payload
    × ((es : List Event) (now' : Option ℕ)
        → Retired
            (key crypto payload.from)
            (serve_all verifier
              (handle_request verifier node next_key (some 1000) cutover).0
              es).inner
          × ((handle_request verifier
                (serve_all verifier
                  (handle_request verifier node next_key (some 1000) cutover).0
                  es)
                (key crypto payload.from)
                now'
                (get (key crypto payload.from))).1
              ≡ error not_found))
cutover_is_final_example =
    cutover_is_final verifier node next_key (some 1000) upgrade_link 101 1
      (serve_all-IsValid verifier true earlier) node-cutover

node-revoke : (handle_request verifier node old_key none (revoke revocation_link)).1 ≡ revoke_ok
unfolding serve_all handle_request handle_revoke observe_attestation apply
    Machine.observe_attestation BTreeMap.get BTreeMap.insert BTreeSet.contains BTreeSet.insert
    verify_revocation_link verify_control_signature decode_canonical bytes_eq key canonical_bytes
    weigh signed_message
node-revoke = refl

upgrade-Encodes : Encodes verifier.upgrades upgrade_bytes upgrade_to_next
unfolding bytes_eq
upgrade-Encodes = record { decodes = refl; canonical = refl }

revocation-Encodes : Encodes verifier.revocations revocation_bytes revoke_upgrade
unfolding bytes_eq
revocation-Encodes = record { decodes = refl; canonical = refl }

revoked_link_is_dead_example :
    (handle_request verifier
      (serve_all verifier
        (handle_request verifier node old_key none (revoke revocation_link)).0
        earlier)
      next_key
      (some 1000)
      cutover).1
    ≢ transition_ok 1
unfolding upgrade_link_hash
revoked_link_is_dead_example =
    revoked_link_is_dead verifier node old_key none revocation_link revoke_upgrade
      revocation-Encodes node-revoke earlier next_key (some 1000) upgrade_link 101 upgrade_to_next 1
      upgrade-Encodes refl refl
