-- ===== src/Store/Tests.antt =====
-- The replicated store at concrete inputs: a log that registers an enclave, pins, and cuts over.
mod Codec
use enclavia.Base.{true, ℕ, ◌≡◌, refl, ◌+◌, Option, none, some, List, [], ◌∷◌, ◌++◌, arith, length}
use enclavia.Base.BTreeMap
use enclavia.Base.BTreeSet
use enclavia.Base.BTreeMap.Collect.{collect, map_values}
use enclavia.Base.Key.{nat_key, pair_key}
use enclavia.Base.Int.{pos}
use enclavia.Machine.{
  Op, init, is_revoked, apply, observe_attestation, observe_transition, key_not_current,
}
use enclavia.Machine.Snapshot.{StateMachineSnapshot, snapshot, head_len, retired_len}
use enclavia.Machine.Run.{Input, attest, authorize, submit, run}
use enclavia.Machine.Invariant.{IsValid, run-IsValid}
use enclavia.Store.{
  register, pin, transition, revoke, applied, rejected, normal, blank, membership, Entry,
  StateMachineStore, StoredSnapshot, apply_one, apply_entries, build_snapshot, install_snapshot,
  stats,
}
use enclavia.Store.Entries.{LacksObservation, apply_one_self_contained}
use enclavia.Store.Replicas.{
  Agree, apply_entries-append, apply_entries-IsValid, hydrated_replica_agrees,
}
use enclavia.Store.Tests.Codec.{into_writer, from_reader, from_reader-into_writer}

-- Log ids are numbers and a membership is a list of node ids.
abbrev new_membership : Option ℕ → List ℕ → List ℕ
new_membership _ members = members

abbrev empty : StateMachineStore ℕ (List ℕ)
empty = record {
  machine = init;
  applied = record { last_applied_log = none; last_membership = [] };
  snapshot_idx = 0;
  current_snapshot = none;
  live_keys = 0;
  retired_keys = 0;
  snapshot_bytes = 0;
}

abbrev older : List (Entry ℕ (List ℕ))
older =
    record { log_id = 1; payload = membership (1 ∷ 2 ∷ 3 ∷ []) }
    ∷ record { log_id = 2; payload = normal (register 1 100 10) }
    ∷ record { log_id = 3; payload = blank }
    ∷ []

abbrev newer : List (Entry ℕ (List ℕ))
newer =
    record { log_id = 4; payload = normal (pin 1 0 101) }
    ∷ record { log_id = 5; payload = normal (transition 1 2 20 7 (pos 5000) 101) }
    ∷ []

apply_entries-IsValid_example :
    IsValid (apply_entries new_membership empty older).store.machine
    × (length (apply_entries new_membership empty older).results ≡ length older)
    × ((stats (apply_entries new_membership empty older).store).live_keys
        ≡ head_len (apply_entries new_membership empty older).store.machine)
    × ((stats (apply_entries new_membership empty older).store).retired_keys
        ≡ retired_len (apply_entries new_membership empty older).store.machine)
apply_entries-IsValid_example = apply_entries-IsValid new_membership empty older (run-IsValid [])

-- A replica whose machine has served: an attestation, a registration, an authorization, a cutover.
abbrev inputs : List Input
inputs =
    attest 1 10
    ∷ submit (Op.register 1 100)
    ∷ attest 2 20
    ∷ authorize 1 2
    ∷ submit (Op.transition 1 2 7 100)
    ∷ []

abbrev replica : StateMachineStore ℕ (List ℕ)
replica = record empty {
  machine = run init inputs;
  applied = record { last_applied_log = some 5; last_membership = 1 ∷ 2 ∷ 3 ∷ [] };
}

abbrev snapshot_name : Option ℕ → ℕ → List ℕ
snapshot_name none idx = idx ∷ []
snapshot_name (some log_id) idx = log_id ∷ idx ∷ []

abbrev built : StoredSnapshot ℕ (List ℕ)
built = record {
  meta = record {
    last_log_id = some 5;
    last_membership = 1 ∷ 2 ∷ 3 ∷ [];
    snapshot_id = 5 ∷ 1 ∷ [];
  };
  bytes = 1 ∷ 2 ∷ 100 ∷ 0 ∷ 20 ∷ 0 ∷ 1 ∷ 1 ∷ 10 ∷ 1 ∷ 2 ∷ 20 ∷ 0 ∷ 1 ∷ 1 ∷ 2 ∷ 0 ∷ 1 ∷ [];
}

hydrated_replica_agrees_example :
    let installed =
      install_snapshot into_writer from_reader snapshot_name empty built.meta built.bytes in
    (installed.1 ≡ true)
    × ((es : List (Entry ℕ (List ℕ)))
        → Agree
            (apply_entries new_membership installed.0 es)
            (apply_entries new_membership replica es))
unfolding build_snapshot snapshot into_writer apply is_revoked observe_attestation
    observe_transition BTreeMap.get BTreeMap.insert BTreeMap.remove BTreeSet.contains
    BTreeSet.insert collect map_values
hydrated_replica_agrees_example =
    hydrated_replica_agrees new_membership into_writer from_reader snapshot_name
      from_reader-into_writer replica empty built (run-IsValid inputs) refl
