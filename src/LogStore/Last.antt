-- ===== src/LogStore/Last.antt =====
-- The last log id that the log of synchronizer/src/raft/store.rs reports.
use enclavia.Base.{
  ℕ, ◌≡◌, ◌≤◌, refl, ◌⊎◌, inl, inr, Bool, leb, Option, none, some, List, [], ◌∷◌, arith, sym, ap,
  ◌∙◌, Option-cases, subst,
}
use enclavia.Base.Key.{nat_key, nat_beq_iff}
use enclavia.Base.BTreeMap
use enclavia.Base.BTreeMap.{BTreeMap, get-insert, get-remove}
use enclavia.Base.BTreeMap.Sorted
use enclavia.Store.{Entry}
use enclavia.LogStore.{
  LogStoreInner, keys_in, remove_all, last_entry, get_log_state, insert_all, append, truncate,
  purge, save_committed, save_vote, LogOp, append_entries, truncate_from, purge_to, commit, cast,
  step,
}
use enclavia.LogStore.Contents.{last_entry-greatest}

-- The entries are in order, each at the index of its log id.
pub record IsIndexed {L M : Type 0} (index : L → ℕ) (log : BTreeMap ℕ (Entry L M)) : Type 0 where
  pub sorted : Sorted.IsSorted log
  pub at : (i : ℕ) (e : Entry L M) → BTreeMap.get log i ≡ some e → index e.log_id ≡ i

last_entry-none :
    {V : Type 0} (m : BTreeMap ℕ V) → last_entry m ≡ none → (i : ℕ) → BTreeMap.get m i ≡ none
unfolding last_entry BTreeMap.get
last_entry-none [] h i = refl
last_entry-none ((k, w) ∷ []) h i = ground arith
last_entry-none ((k, w) ∷ (j, x) ∷ m) h i =
    ground (arith, last_entry-none ((j, x) ∷ m) h i, last_entry-none ((j, x) ∷ m) h j)

module _ {L M : Type 0} (index : L → ℕ) where
  insert_all-IsIndexed :
      (log : BTreeMap ℕ (Entry L M)) (es : List (Entry L M))
      → IsIndexed index log
      → IsIndexed index (insert_all index log es)
  unfolding insert_all
  insert_all-IsIndexed log [] v = v
  insert_all-IsIndexed log (e ∷ es) v =
      insert_all-IsIndexed (BTreeMap.insert log (index e.log_id) e) es (record {
        sorted = Sorted.insert-IsSorted log (index e.log_id) e v.sorted;
        at = λ i x h.
            ground (
              arith,
              get-insert log (index e.log_id) e i,
              nat_beq_iff (index e.log_id) i,
              v.at i x,
            );
      })

  remove_all-IsIndexed :
      (log : BTreeMap ℕ (Entry L M)) (keys : List ℕ)
      → IsIndexed index log
      → IsIndexed index (remove_all log keys)
  unfolding remove_all
  remove_all-IsIndexed log [] v = v
  remove_all-IsIndexed log (k ∷ keys) v =
      remove_all-IsIndexed (BTreeMap.remove log k) keys (record {
        sorted = Sorted.remove-IsSorted log k v.sorted;
        at = λ i x h. ground (arith, get-remove log k i, v.at i x);
      })

  -- Every call keeps the entries in order, each at its own index.
  pub step-IsIndexed :
      {Vote : Type 0} (leq : Option L → Option L → Bool) (s s' : LogStoreInner L M Vote)
      (op : LogOp L M Vote)
      → IsIndexed index s.log
      → step index leq s op ≡ some s'
      → IsIndexed index s'.log
  unfolding append truncate purge save_committed save_vote
  step-IsIndexed leq s s' (append_entries es) v h = ground (arith, insert_all-IsIndexed s.log es v)
  step-IsIndexed leq s s' (truncate_from log_id) v h =
      ground (arith, remove_all-IsIndexed s.log (keys_in (λ k. leb (index log_id) k) s.log) v)
  step-IsIndexed leq s s' (purge_to log_id) v h =
      ground (arith, remove_all-IsIndexed s.log (keys_in (λ k. leb k (index log_id)) s.log) v)
  step-IsIndexed leq s s' (commit c) v h = ground arith
  step-IsIndexed leq s s' (cast vote) v h = ground arith

  -- The last log id that an indexed log reports is that of the entry it holds at the greatest index,
  -- or, where it holds no entry, the last purged one.
  pub get_log_state-last :
      {Vote : Type 0} (leq : Option L → Option L → Bool) (s : LogStoreInner L M Vote) (id : L)
      → IsIndexed index s.log
      → (get_log_state index leq s).last_log_id ≡ some id
      → ((e : Entry L M) × (BTreeMap.get s.log (index id) ≡ some e)
          × (e.log_id ≡ id)
          × ((i : ℕ) (x : Entry L M) → BTreeMap.get s.log i ≡ some x → i ≤ index id))
        ⊎ (((i : ℕ) → BTreeMap.get s.log i ≡ none) × (s.last_purged_log_id ≡ some id))
  unfolding get_log_state
  get_log_state-last leq s id v h = elim (Option-cases (last_entry s.log)) [
    | inl empty ↦ inr (last_entry-none s.log empty, ground arith)
    | inr (e, last) ↦
        let (k, at, greatest) = last_entry-greatest s.log e v.sorted last in
        let same : e.log_id ≡ id = ground arith in
        let here : index id ≡ k = sym (ap index same) ∙ v.at k e at in
        inl (
          subst
            (λ j.
              (x : Entry L M) × (BTreeMap.get s.log j ≡ some x)
              × (x.log_id ≡ id)
              × ((i : ℕ) (y : Entry L M) → BTreeMap.get s.log i ≡ some y → i ≤ j))
            (sym here) (e, at, same, greatest))
  ]
