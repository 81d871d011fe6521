-- ===== src/LogStore.antt =====
-- The in-memory Raft log of synchronizer/src/raft/store.rs, `LogStore`. openraft's log ids and
-- votes are parameters: a log id has an index, and `leq` is the order of optional log ids. An
-- asynchronous method under the lock is one step; a range of indexes is its membership test.
pub mod Contents
pub mod Last
mod Tests
use enclavia.Base.{
  ℕ, Bool, true, false, ◌==◌, if◌then◌else◌, leb, Option, none, some, List, [], ◌∷◌,
}
use enclavia.Base.Key.{nat_key}
use enclavia.Base.BTreeMap
use enclavia.Base.BTreeMap.{BTreeMap}
use enclavia.Store.{Entry}

pub record LogStoreInner (L M Vote : Type 0) : Type 0 where
  pub last_purged_log_id : Option L
  pub log : BTreeMap ℕ (Entry L M)
  pub committed : Option L
  pub vote : Option Vote

abbrev pub default : {L M Vote : Type 0} → LogStoreInner L M Vote
default = record { last_purged_log_id = none; log = []; committed = none; vote = none }

pub record LogState (L : Type 0) : Type 0 where
  pub last_purged_log_id : Option L
  pub last_log_id : Option L

-- The keys, and the values, that a range of the map yields.
pub keys_in : {V : Type 0} → (ℕ → Bool) → BTreeMap ℕ V → List ℕ
keys_in range [] = []
keys_in range ((k, _) ∷ m) = let rest = keys_in range m in if range k then k ∷ rest else rest

pub values_in : {V : Type 0} → (ℕ → Bool) → BTreeMap ℕ V → List V
values_in range [] = []
values_in range ((k, v) ∷ m) = let rest = values_in range m in if range k then v ∷ rest else rest

pub remove_all : {V : Type 0} → BTreeMap ℕ V → List ℕ → BTreeMap ℕ V
remove_all m [] = m
remove_all m (k ∷ keys) = remove_all (BTreeMap.remove m k) keys

-- `iter().next_back()`
pub last_entry : {V : Type 0} → BTreeMap ℕ V → Option V
last_entry [] = none
last_entry ((_, v) ∷ []) = some v
last_entry (_ ∷ e ∷ m) = last_entry (e ∷ m)

-- The loop of `append`.
pub insert_all :
    {L M : Type 0} → (L → ℕ) → BTreeMap ℕ (Entry L M) → List (Entry L M) → BTreeMap ℕ (Entry L M)
insert_all index log [] = log
insert_all index log (entry ∷ entries) =
    insert_all index (BTreeMap.insert log (index entry.log_id) entry) entries

module _ {L M Vote : Type 0} (index : L → ℕ) (leq : Option L → Option L → Bool) where
  pub try_get_log_entries : LogStoreInner L M Vote → (ℕ → Bool) → List (Entry L M)
  try_get_log_entries s range = values_in range s.log

  pub get_log_state : LogStoreInner L M Vote → LogState L
  get_log_state s = record {
    last_purged_log_id = s.last_purged_log_id;
    last_log_id = elim (last_entry s.log) [ none ↦ s.last_purged_log_id | some e ↦ some e.log_id ];
  }

  pub append : LogStoreInner L M Vote → List (Entry L M) → LogStoreInner L M Vote
  append s entries = record s { log = insert_all index s.log entries }

  pub truncate : LogStoreInner L M Vote → L → LogStoreInner L M Vote
  truncate s log_id = record s {
    log = remove_all s.log (keys_in (λ k. leb (index log_id) k) s.log);
  }

  -- `none` is the panic of the assertion.
  pub purge : LogStoreInner L M Vote → L → Option (LogStoreInner L M Vote)
  purge s log_id =
      if leq s.last_purged_log_id (some log_id)
      then some (record s {
        last_purged_log_id = some log_id;
        log = remove_all s.log (keys_in (λ k. leb k (index log_id)) s.log);
      })
      else none

  pub save_committed : LogStoreInner L M Vote → Option L → LogStoreInner L M Vote
  save_committed s committed = record s { committed = committed }

  pub save_vote : LogStoreInner L M Vote → Vote → LogStoreInner L M Vote
  save_vote s vote = record s { vote = some vote }

-- The calls that change the log.
pub data LogOp (L M Vote : Type 0) : Type 0 where
  append_entries : List (Entry L M) → LogOp L M Vote
  truncate_from purge_to : L → LogOp L M Vote
  commit : Option L → LogOp L M Vote
  cast : Vote → LogOp L M Vote

abbrev pub step :
    {L M Vote : Type 0} (index : L → ℕ) (leq : Option L → Option L → Bool)
    → LogStoreInner L M Vote
    → LogOp L M Vote
    → Option (LogStoreInner L M Vote)
step index leq s (append_entries entries) = some (append index leq s entries)
step index leq s (truncate_from log_id) = some (truncate index leq s log_id)
step index leq s (purge_to log_id) = purge index leq s log_id
step index leq s (commit committed) = some (save_committed index leq s committed)
step index leq s (cast vote) = some (save_vote index leq s vote)
