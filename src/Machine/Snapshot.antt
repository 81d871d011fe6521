-- ===== src/Machine/Snapshot.antt =====
-- The queries and the snapshots of the state machine.
use enclavia.Base.{ℕ, ◌≡◌, refl, ap}
use enclavia.Base.BTreeMap.{BTreeMap}
use enclavia.Base.BTreeMap.Collect.{
  map_values, collect, collect_lem, map_values-map_values, map_values-IsSorted,
}
use enclavia.Base.BTreeMap.Sorted
use enclavia.Base.BTreeSet.{BTreeSet}
use enclavia.Base.BTreeSet.Sorted as SortedSet
use enclavia.Base.Key.{nat_key, pair_key}
use enclavia.Machine.{PcrKey, ControlPubkey, LinkHash, KeyState, StateMachine}
use enclavia.Machine.Invariant.{IsOrdered}

pub record ControlPubkeyBytes : Type 0 where
  pub bytes : ControlPubkey

pub record StateMachineSnapshot : Type 0 where
  pub state : BTreeMap PcrKey KeyState
  pub attested : BTreeMap PcrKey ControlPubkeyBytes
  pub transition_authorizations : BTreeSet (PcrKey × PcrKey)
  pub retired : BTreeSet PcrKey
  pub revoked_links : BTreeMap PcrKey (BTreeSet LinkHash)

unfoldable pub head_len : StateMachine → ℕ
head_len sm = Sorted.len sm.state

unfoldable pub retired_len : StateMachine → ℕ
retired_len sm = SortedSet.len sm.retired

unfoldable pub snapshot : StateMachine → StateMachineSnapshot
snapshot sm = record {
  state = sm.state;
  attested = collect (map_values (λ pk. record { bytes = pk }) sm.attested);
  transition_authorizations = sm.transition_authorizations;
  retired = sm.retired;
  revoked_links = sm.revoked_links;
}

pub restore_from_snapshot : StateMachine → StateMachineSnapshot → StateMachine
restore_from_snapshot _ snap = record {
  state = snap.state;
  attested = collect (map_values (λ (pk : ControlPubkeyBytes). pk.bytes) snap.attested);
  transition_authorizations = snap.transition_authorizations;
  retired = snap.retired;
  revoked_links = snap.revoked_links;
}

abbrev to_bytes : ControlPubkey → ControlPubkeyBytes
to_bytes pk = record { bytes = pk }

abbrev from_bytes : ControlPubkeyBytes → ControlPubkey
from_bytes pk = pk.bytes

attested_back :
    (m : BTreeMap PcrKey ControlPubkey)
    → Sorted.IsSorted m
    → collect (map_values from_bytes (collect (map_values to_bytes m))) ≡ m
attested_back m s =
    rw (collect_lem (map_values to_bytes m) (map_values-IsSorted to_bytes m s))
      (rw (map_values-map_values to_bytes from_bytes (λ pk. refl) m) (collect_lem m s))

-- A machine restored from the snapshot of a machine whose containers are in order, whatever it
-- held before, is that machine: observations, retirements and revocations included.
pub restore-snapshot :
    (old sm : StateMachine) → IsOrdered sm → restore_from_snapshot old (snapshot sm) ≡ sm
unfolding restore_from_snapshot snapshot
restore-snapshot old sm v =
    ap (λ (m : BTreeMap PcrKey ControlPubkey). record sm { attested = m })
      (attested_back sm.attested v.attested)
