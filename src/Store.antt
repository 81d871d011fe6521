-- ===== src/Store.antt =====
-- synchronizer/src/raft/store.rs, the state machine store of one replica: committed log entries are
-- replayed into the pure state machine, and snapshots carry it to other replicas. The types of
-- openraft (log ids and memberships) are parameters; `ReplicatedOp` is raft/mod.rs.
pub mod Entries
pub mod Replicas
mod Tests
use enclavia.Base.{
  ℕ, ◌+◌, ◌%◌, ◌==◌, if◌then◌else◌, Bool, true, false, not, Option, none, some, List, [], ◌∷◌, ◌++◌,
  Result, ok, err, length,
}
use enclavia.Base.Int.{ℤ}
use enclavia.Machine.{
  PcrKey, Commitment, Version, ControlPubkey, LinkHash, KeyState, Op, StateMachine, ValidationError,
  observe_attestation, observe_transition, apply, u64_mod,
}
use enclavia.Machine.Snapshot.{
  StateMachineSnapshot, snapshot, restore_from_snapshot, head_len, retired_len,
}
use enclavia.Wire.Window.{past_valid_until}

pub data ReplicatedOp : Type 0 where
  register :
      (key : PcrKey) (commitment : Commitment) (control_pubkey : ControlPubkey) → ReplicatedOp
  pin : (key : PcrKey) (expected_version : Version) (commitment : Commitment) → ReplicatedOp
  transition :
      (old_key new_key : PcrKey) (new_control_pubkey : ControlPubkey) (link_hash : LinkHash)
      (valid_until_ms : ℤ) (commitment : Commitment)
      → ReplicatedOp
  revoke : (key : PcrKey) (link_hash : LinkHash) → ReplicatedOp

pub data ReplicatedOpResult : Type 0 where
  applied : KeyState → ReplicatedOpResult
  rejected : ValidationError → ReplicatedOpResult

abbrev pub to_result : Result KeyState ValidationError → ReplicatedOpResult
to_result (ok state) = applied state
to_result (err e) = rejected e

-- The calls of one entry: what it embeds is observed first.
abbrev pub observed : StateMachine → ReplicatedOp → StateMachine
observed sm (register key _ control_pubkey) = observe_attestation sm key control_pubkey
observed sm (pin _ _ _) = sm
observed sm (transition old_key new_key new_control_pubkey _ _ _) =
    observe_transition (observe_attestation sm new_key new_control_pubkey) old_key new_key
observed sm (revoke _ _) = sm

abbrev pub op_of : ReplicatedOp → Op
op_of (register key commitment _) = Op.register key commitment
op_of (pin key expected_version commitment) = Op.pin key expected_version commitment
op_of (transition old_key new_key _ link_hash _ commitment) =
    Op.transition old_key new_key link_hash commitment
op_of (revoke key link_hash) = Op.revoke key link_hash

unfoldable pub apply_one : StateMachine → ReplicatedOp → StateMachine × ReplicatedOpResult
apply_one sm op = let (sm', result) = apply (observed sm op) (op_of op) in (sm', to_result result)

pub data EntryPayload (M : Type 0) : Type 0 where
  blank : EntryPayload M
  normal : ReplicatedOp → EntryPayload M
  membership : M → EntryPayload M

pub record Entry (L M : Type 0) : Type 0 where
  pub log_id : L
  pub payload : EntryPayload M

pub record AppliedState (L S : Type 0) : Type 0 where
  pub last_applied_log : Option L
  pub last_membership : S

pub record SnapshotMeta (L S : Type 0) : Type 0 where
  pub last_log_id : Option L
  pub last_membership : S
  pub snapshot_id : List ℕ

pub record StoredSnapshot (L S : Type 0) : Type 0 where
  pub meta : SnapshotMeta L S
  pub bytes : List ℕ

pub record StateMachineStore (L S : Type 0) : Type 0 where
  pub machine : StateMachine
  pub applied : AppliedState L S
  pub snapshot_idx : ℕ
  pub current_snapshot : Option (StoredSnapshot L S)
  pub live_keys : ℕ
  pub retired_keys : ℕ
  pub snapshot_bytes : ℕ

-- The placeholder result of an entry that does not touch the state machine.
abbrev pub no_op : ReplicatedOpResult
no_op = applied (record { commitment = 0; version = 0; control_pubkey = 0 })

-- What a transition that applied leaves for the check of its deadline.
abbrev pub Deadline : Type 0
Deadline = PcrKey × PcrKey × ℤ

abbrev pub deadline_of : ReplicatedOp → ReplicatedOpResult → List Deadline
deadline_of (transition old_key new_key _ _ valid_until_ms _) (applied _) =
    (old_key, new_key, valid_until_ms) ∷ []
deadline_of _ _ = []

-- What the loop of `apply` changes and collects.
pub record Batch (L S : Type 0) : Type 0 where
  pub machine : StateMachine
  pub applied : AppliedState L S
  pub results : List ReplicatedOpResult
  pub transitions : List Deadline

-- What `apply` returns: the store, the result of each entry, and the transitions whose deadlines
-- it hands to `check_transition_deadlines`.
pub record Response (L S : Type 0) : Type 0 where
  pub store : StateMachineStore L S
  pub results : List ReplicatedOpResult
  pub transitions : List Deadline

abbrev pub started : {L S : Type 0} → StateMachineStore L S → Batch L S
started s = record { machine = s.machine; applied = s.applied; results = []; transitions = [] }

abbrev pub finish : {L S : Type 0} → StateMachineStore L S → Batch L S → Response L S
finish s b = record {
  store = record s {
    machine = b.machine;
    applied = b.applied;
    live_keys = head_len b.machine;
    retired_keys = retired_len b.machine;
  };
  results = b.results;
  transitions = b.transitions;
}

-- `StoredMembership::new` is openraft's.
module _ {L M S : Type 0} (new_membership : Option L → M → S) where
  pub apply_payload : Batch L S → L → EntryPayload M → Batch L S
  apply_payload b log_id blank = record b { results = b.results ++ (no_op ∷ []) }
  apply_payload b log_id (normal op) =
      let (machine', result) = apply_one b.machine op in
      record b {
        machine = machine';
        results = b.results ++ (result ∷ []);
        transitions = b.transitions ++ deadline_of op result;
      }
  apply_payload b log_id (membership m) = record b {
    applied = record b.applied { last_membership = new_membership (some log_id) m };
    results = b.results ++ (no_op ∷ []);
  }

  pub apply_entry : Batch L S → Entry L M → Batch L S
  apply_entry b entry =
      apply_payload
        (record b { applied = record b.applied { last_applied_log = some entry.log_id } })
        entry.log_id entry.payload

  pub apply_loop : Batch L S → List (Entry L M) → Batch L S
  apply_loop b [] = b
  apply_loop b (entry ∷ entries) = apply_loop (apply_entry b entry) entries

  -- The loop, then `record_sizes`.
  pub apply_entries : StateMachineStore L S → List (Entry L M) → Response L S
  apply_entries s entries = finish s (apply_loop (started s) entries)

-- The CBOR encoder and decoder of ciborium, and the text of a snapshot's id.
module _ {L S : Type 0} (into_writer : StateMachineSnapshot → Option (List ℕ))
    (from_reader : List ℕ → Option StateMachineSnapshot)
    (snapshot_name : Option L → ℕ → List ℕ) where
  pub build_snapshot : StateMachineStore L S → StateMachineStore L S × Option (StoredSnapshot L S)
  build_snapshot s = elim (into_writer (snapshot s.machine)) [
    | none ↦ (s, none)
    | some buf ↦
        let stored : StoredSnapshot L S = record {
          meta = record {
            last_log_id = s.applied.last_applied_log;
            last_membership = s.applied.last_membership;
            snapshot_id = snapshot_name s.applied.last_applied_log ((s.snapshot_idx + 1) % u64_mod);
          };
          bytes = buf;
        } in
        (
          record s {
            snapshot_idx = (s.snapshot_idx + 1) % u64_mod;
            snapshot_bytes = length buf;
            current_snapshot = some stored;
          },
          some stored,
        )
  ]

  -- `false` is a blob that does not decode.
  pub install_snapshot :
      StateMachineStore L S → SnapshotMeta L S → List ℕ → StateMachineStore L S × Bool
  install_snapshot s meta blob = elim (from_reader blob) [
    | none ↦ (s, false)
    | some restored ↦
        let machine' = restore_from_snapshot s.machine restored in
        (
          record s {
            machine = machine';
            live_keys = head_len machine';
            retired_keys = retired_len machine';
            applied = record {
              last_applied_log = meta.last_log_id;
              last_membership = meta.last_membership;
            };
            snapshot_bytes = length blob;
            current_snapshot = some (record { meta = meta; bytes = blob });
          },
          true,
        )
  ]

pub record StoreStats : Type 0 where
  pub live_keys : ℕ
  pub retired_keys : ℕ
  pub snapshot_bytes : Option ℕ

pub stats : {L S : Type 0} → StateMachineStore L S → StoreStats
stats s = record {
  live_keys = s.live_keys;
  retired_keys = s.retired_keys;
  snapshot_bytes = if not (s.snapshot_bytes == 0) then some s.snapshot_bytes else none;
}

-- The transitions that `check_transition_deadlines` counts and logs: none unless this node is the
-- leader and reads its trusted time.
pub late_transitions : Bool → Option ℕ → List Deadline → List Deadline
late_transitions false now transitions = []
late_transitions true none transitions = []
late_transitions true (some now_ms) [] = []
late_transitions true (some now_ms) ((old_key, new_key, valid_until_ms) ∷ rest) =
    let later = late_transitions true (some now_ms) rest in
    if past_valid_until now_ms valid_until_ms
    then (old_key, new_key, valid_until_ms) ∷ later
    else later
