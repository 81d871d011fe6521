-- ===== src/Machine.antt =====
-- synchronizer/src/lib.rs: the synchronizer's state machine, a map from PCR keys to their pinned
-- states beside what was observed, retired and revoked. A method on `&mut self` returns the new
-- state beside its result. Byte arrays (keys, commitments, public keys, link hashes) are the
-- numbers that their bytes spell; a `u64` version keeps its wrap-around.
pub mod Spec
pub mod Refinement
pub mod Run
pub mod Invariant
pub mod Finality
pub mod History
pub mod Snapshot
pub mod Counts
mod Tests
use enclavia.Base.{
  ℕ, ◌+◌, ◌%◌, ◌^◌, Bool, false, not, ◌==◌, if◌then◌else◌, Option, none, some, List, [], Result, ok,
  err,
}
use enclavia.Base.BTreeMap
use enclavia.Base.BTreeMap.{BTreeMap}
use enclavia.Base.BTreeSet
use enclavia.Base.BTreeSet.{BTreeSet}
use enclavia.Base.Key.{nat_key, pair_key}

abbrev pub PcrKey : Type 0
PcrKey = ℕ

abbrev pub Commitment : Type 0
Commitment = ℕ

abbrev pub Version : Type 0
Version = ℕ

abbrev pub ControlPubkey : Type 0
ControlPubkey = ℕ

abbrev pub LinkHash : Type 0
LinkHash = ℕ

abbrev pub u64_mod : ℕ
u64_mod = 2 ^ 64

pub data Op : Type 0 where
  register : (key : PcrKey) (commitment : Commitment) → Op
  pin : (key : PcrKey) (expected_version : Version) (commitment : Commitment) → Op
  transition : (old_key new_key : PcrKey) (link_hash : LinkHash) (commitment : Commitment) → Op
  revoke : (key : PcrKey) (link_hash : LinkHash) → Op

pub record KeyState : Type 0 where
  pub commitment : Commitment
  pub version : Version
  pub control_pubkey : ControlPubkey

pub data ValidationError : Type 0 where
  not_attested already_registered key_retired key_not_current : ValidationError
  stale_pin : (expected current : Version) → ValidationError
  new_key_already_exists new_key_not_attested no_transition_authorization : ValidationError
  old_key_equals_new transition_revoked commitment_mismatch : ValidationError

pub record StateMachine : Type 0 where
  pub state : BTreeMap PcrKey KeyState
  pub attested : BTreeMap PcrKey ControlPubkey
  pub transition_authorizations : BTreeSet (PcrKey × PcrKey)
  pub retired : BTreeSet PcrKey
  pub revoked_links : BTreeMap PcrKey (BTreeSet LinkHash)

abbrev pub init : StateMachine
init = record {
  state = [];
  attested = [];
  transition_authorizations = [];
  retired = [];
  revoked_links = [];
}

abbrev pub Outcome : Type 0
Outcome = StateMachine × Result KeyState ValidationError

unfoldable pub observe_attestation : StateMachine → PcrKey → ControlPubkey → StateMachine
observe_attestation sm key control_pubkey = record sm {
  attested = BTreeMap.insert sm.attested key control_pubkey;
}

unfoldable pub observe_transition : StateMachine → PcrKey → PcrKey → StateMachine
observe_transition sm old_key new_key = record sm {
  transition_authorizations = BTreeSet.insert sm.transition_authorizations (old_key, new_key);
}

-- `revoked_links.entry(key).or_default()`
abbrev pub hashes_of : Option (BTreeSet LinkHash) → BTreeSet LinkHash
hashes_of none = []
hashes_of (some hashes) = hashes

-- `is_some_and(|hashes| hashes.contains(link_hash))`
abbrev pub covers : Option (BTreeSet LinkHash) → LinkHash → Bool
covers none link_hash = false
covers (some hashes) link_hash = BTreeSet.contains hashes link_hash

unfoldable pub is_revoked : StateMachine → PcrKey → LinkHash → Bool
is_revoked sm key link_hash = covers (BTreeMap.get sm.revoked_links key) link_hash

apply_register : StateMachine → PcrKey → Commitment → Outcome
apply_register sm key commitment = elim (BTreeMap.get sm.attested key) [
  | none ↦ (sm, err not_attested)
  | some control_pubkey ↦
      if BTreeMap.contains_key sm.state key
      then (sm, err already_registered)
      else if BTreeSet.contains sm.retired key
      then (sm, err key_retired)
      else let entry : KeyState = record {
        commitment = commitment;
        version = 0;
        control_pubkey = control_pubkey;
      } in
        (record sm { state = BTreeMap.insert sm.state key entry }, ok entry)
]

-- `entry.version.0 + 1` on a `u64`, as a release build computes it
abbrev pub next_version : Version → Version
next_version v = (v + 1) % u64_mod

apply_pin : StateMachine → PcrKey → Version → Commitment → Outcome
apply_pin sm key expected_version commitment = elim (BTreeMap.get sm.state key) [
  | none ↦ (sm, err key_not_current)
  | some entry ↦
      if not (entry.version == expected_version)
      then (sm, err (stale_pin expected_version entry.version))
      else let entry' : KeyState = record entry {
        commitment = commitment;
        version = next_version entry.version;
      } in
        (record sm { state = BTreeMap.insert sm.state key entry' }, ok entry')
]

-- The checks on the new key, the authorization and the commitment, once the old key is known to
-- hold `carried`; then the move.
transition_from : StateMachine → KeyState → PcrKey → PcrKey → LinkHash → Commitment → Outcome
unfolding is_revoked
transition_from sm carried old_key new_key link_hash commitment =
    if is_revoked sm old_key link_hash
    then (sm, err transition_revoked)
    else if BTreeMap.contains_key sm.state new_key
    then (sm, err new_key_already_exists)
    else if BTreeSet.contains sm.retired new_key
    then (sm, err key_retired)
    else elim (BTreeMap.get sm.attested new_key) [
      | none ↦ (sm, err new_key_not_attested)
      | some new_pubkey ↦
          if not (BTreeSet.contains sm.transition_authorizations (old_key, new_key))
          then (sm, err no_transition_authorization)
          else if not (carried.commitment == commitment)
          then (sm, err commitment_mismatch)
          else let carried' : KeyState = record carried { control_pubkey = new_pubkey } in
            (
              record sm {
                state = BTreeMap.insert (BTreeMap.remove sm.state old_key) new_key carried';
                retired = BTreeSet.insert sm.retired old_key;
              },
              ok carried',
            )
    ]

apply_transition : StateMachine → PcrKey → PcrKey → LinkHash → Commitment → Outcome
unfolding transition_from
apply_transition sm old_key new_key link_hash commitment =
    if old_key == new_key
    then (sm, err old_key_equals_new)
    else elim (BTreeMap.get sm.state old_key) [
      | none ↦ (sm, err key_not_current)
      | some carried ↦ transition_from sm carried old_key new_key link_hash commitment
    ]

apply_revoke : StateMachine → PcrKey → LinkHash → Outcome
apply_revoke sm key link_hash =
    if BTreeSet.contains sm.retired key
    then (sm, err key_retired)
    else elim (BTreeMap.get sm.state key) [
      | none ↦ (sm, err key_not_current)
      | some state ↦
          let hashes = BTreeSet.insert (hashes_of (BTreeMap.get sm.revoked_links key)) link_hash in
          (record sm { revoked_links = BTreeMap.insert sm.revoked_links key hashes }, ok state)
    ]

unfoldable pub apply : StateMachine → Op → Outcome
unfolding apply_register apply_pin apply_transition apply_revoke
apply sm (register key commitment) = apply_register sm key commitment
apply sm (pin key expected_version commitment) = apply_pin sm key expected_version commitment
apply sm (transition old_key new_key link_hash commitment) =
    apply_transition sm old_key new_key link_hash commitment
apply sm (revoke key link_hash) = apply_revoke sm key link_hash
