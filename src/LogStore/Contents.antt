-- ===== src/LogStore/Contents.antt =====
-- What the log of synchronizer/src/raft/store.rs holds, index by index, and what it reports last.
use enclavia.Base.{
  ℕ, ◌≡◌, ◌≤◌, refl, Bool, true, false, ◌==◌, if◌then◌else◌, leb, Option, none, some, List, [], ◌∷◌,
  arith, ◌∙◌, ◌&&◌, ltb,
}
use enclavia.Base.Key.{nat_key, nat_beq_iff}
use enclavia.Base.BTreeMap
use enclavia.Base.BTreeMap.{BTreeMap, get-insert, get-remove}
use enclavia.Base.BTreeMap.Sorted
use enclavia.Store.{Entry}
use enclavia.LogStore.{
  LogStoreInner, keys_in, remove_all, last_entry, insert_all, append, truncate, purge,
  save_committed, save_vote, LogOp, append_entries, truncate_from, purge_to, commit, cast, step,
}

abbrev member : ℕ → List ℕ → Bool
member k [] = false
member k (j ∷ keys) = if j == k then true else member k keys

get-remove_all :
    {V : Type 0} (m : BTreeMap ℕ V) (keys : List ℕ) (i : ℕ)
    → BTreeMap.get (remove_all m keys) i ≡ (if member i keys then none else BTreeMap.get m i)
unfolding remove_all
get-remove_all m [] i = refl
get-remove_all m (k ∷ keys) i =
    ground (arith, get-remove_all (BTreeMap.remove m k) keys i, get-remove m k i)

member-keys_in :
    {V : Type 0} (range : ℕ → Bool) (m : BTreeMap ℕ V) (i : ℕ)
    → member i (keys_in range m) ≡ (range i && BTreeMap.contains_key m i)
unfolding keys_in BTreeMap.get
member-keys_in range [] i = ground arith
member-keys_in range ((k, w) ∷ m) i = ground (arith, nat_beq_iff k i, member-keys_in range m i)

get-remove_in :
    {V : Type 0} (range : ℕ → Bool) (m : BTreeMap ℕ V) (i : ℕ)
    → BTreeMap.get (remove_all m (keys_in range m)) i ≡ (if range i then none else BTreeMap.get m i)
get-remove_in range m i =
    ground (arith, get-remove_all m (keys_in range m) i, member-keys_in range m i)

-- The contents of a log: what it holds at an index.
abbrev pub Contents : Type 0 → Type 0 → Type 0
Contents L M = ℕ → Option (Entry L M)

pub written : {L M : Type 0} → (L → ℕ) → List (Entry L M) → Contents L M → Contents L M
written index [] f = f
written index (e ∷ es) f = written index es (λ i. if index e.log_id == i then some e else f i)

-- What a call does to the contents.
abbrev pub rewritten : {L M Vote : Type 0} → (L → ℕ) → LogOp L M Vote → Contents L M → Contents L M
rewritten index (append_entries es) f = written index es f
rewritten index (truncate_from log_id) f = λ i. if leb (index log_id) i then none else f i
rewritten index (purge_to log_id) f = λ i. if leb i (index log_id) then none else f i
rewritten index (commit _) f = f
rewritten index (cast _) f = f

written_same :
    {L M : Type 0} (index : L → ℕ) (es : List (Entry L M)) (f g : Contents L M)
    → ((i : ℕ) → f i ≡ g i)
    → (i : ℕ) → written index es f i ≡ written index es g i
unfolding written
written_same index [] f g h i = h i
written_same index (e ∷ es) f g h i =
    written_same index es (λ j. if index e.log_id == j then some e else f j)
      (λ j. if index e.log_id == j then some e else g j) (λ j. ground (arith, h j)) i

get-insert_all :
    {L M : Type 0} (index : L → ℕ) (log : BTreeMap ℕ (Entry L M)) (es : List (Entry L M)) (i : ℕ)
    → BTreeMap.get (insert_all index log es) i ≡ written index es (BTreeMap.get log) i
unfolding insert_all written
get-insert_all index log [] i = refl
get-insert_all index log (e ∷ es) i =
    get-insert_all index (BTreeMap.insert log (index e.log_id) e) es i
    ∙ written_same index es (BTreeMap.get (BTreeMap.insert log (index e.log_id) e))
        (λ j. if index e.log_id == j then some e else BTreeMap.get log j)
        (get-insert log (index e.log_id) e) i

-- Whatever call the log accepts, what it then holds at each index is what the call says: appended
-- entries replace those at their indexes, the last one of an index winning; truncation drops the
-- indexes from its own on; purging those up to its own; the votes and the committed id none.
pub step-rewritten :
    {L M Vote : Type 0} (index : L → ℕ) (leq : Option L → Option L → Bool)
    (s s' : LogStoreInner L M Vote) (op : LogOp L M Vote)
    → step index leq s op ≡ some s'
    → (i : ℕ) → BTreeMap.get s'.log i ≡ rewritten index op (BTreeMap.get s.log) i
unfolding append truncate purge save_committed save_vote
step-rewritten index leq s s' (append_entries es) h i =
    ground (arith, get-insert_all index s.log es i)
step-rewritten index leq s s' (truncate_from log_id) h i =
    ground (arith, get-remove_in (λ k. leb (index log_id) k) s.log i)
step-rewritten index leq s s' (purge_to log_id) h i =
    ground (arith, get-remove_in (λ k. leb k (index log_id)) s.log i)
step-rewritten index leq s s' (commit c) h i = ground arith
step-rewritten index leq s s' (cast vote) h i = ground arith

pub last_entry-greatest :
    {V : Type 0} (m : BTreeMap ℕ V) (v : V)
    → Sorted.IsSorted m
    → last_entry m ≡ some v
    → (k : ℕ) × (BTreeMap.get m k ≡ some v) × ((i : ℕ) (w : V) → BTreeMap.get m i ≡ some w → i ≤ k)
unfolding last_entry BTreeMap.get
last_entry-greatest [] v s h = ground arith
last_entry-greatest ((k, w) ∷ []) v s h = (k, ground arith, λ i x g. ground arith)
last_entry-greatest ((k, w) ∷ (j, x) ∷ m) v s h =
    let (top, at, above) = last_entry-greatest ((j, x) ∷ m) v s.1 h in
    let kj : ltb k j ≡ true = s.0.0 in
    let jt : j ≤ top = above j x (ground arith) in
    (top, ground arith, λ i y g. ground (arith, above i y))
