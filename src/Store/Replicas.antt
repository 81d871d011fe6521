-- ===== src/Store/Replicas.antt =====
-- Replicas agree: how the committed log is cut into batches does not matter, a replica that starts
-- from a snapshot goes on as one that replayed the log, and every store stays valid.
use mathlib.Core.List.{append-nil, append_assoc}
use enclavia.Base.{
  ℕ, ◌+◌, ◌≡◌, refl, ap, ◌∙◌, true, Option, some, List, [], ◌∷◌, ◌++◌, arith, length, length-append,
}
use enclavia.Machine.Invariant.{IsValid}
use enclavia.Machine.Snapshot.{
  StateMachineSnapshot, snapshot, restore_from_snapshot, restore-snapshot, head_len, retired_len,
}
use enclavia.Store.{
  ReplicatedOpResult, EntryPayload, blank, normal, membership, Entry, SnapshotMeta, StoredSnapshot,
  StateMachineStore, Deadline, Batch, Response, apply_payload, apply_entry, apply_loop,
  apply_entries, started, finish, stats, build_snapshot, install_snapshot,
}
use enclavia.Store.Entries.{apply_one-IsValid}

module _ {L M S : Type 0} (new_membership : Option L → M → S) where
  -- A batch that starts with results and transitions at hand puts its own behind them.
  abbrev after : List ReplicatedOpResult → List Deadline → Batch L S → Batch L S
  after rs ts b = record b { results = rs ++ b.results; transitions = ts ++ b.transitions }

  apply_entry-after :
      (rs : List ReplicatedOpResult) (ts : List Deadline) (b : Batch L S) (e : Entry L M)
      → apply_entry new_membership (after rs ts b) e ≡ after rs ts (apply_entry new_membership b e)
  unfolding apply_entry apply_payload
  apply_entry-after rs ts b e = payload e.payload
    where
      payload :
          (p : EntryPayload M)
          → apply_entry new_membership (after rs ts b) (record { log_id = e.log_id; payload = p })
            ≡ after rs ts (apply_entry new_membership b (record { log_id = e.log_id; payload = p }))
      payload blank = simp append_assoc
      payload (normal op) = simp append_assoc
      payload (membership m) = simp append_assoc

  results-apply_entry :
      (b : Batch L S) (e : Entry L M)
      → length (apply_entry new_membership b e).results ≡ length b.results + 1
  unfolding apply_entry apply_payload
  results-apply_entry b e = payload e.payload
    where
      payload :
          (p : EntryPayload M)
          → length
              (apply_entry new_membership b (record { log_id = e.log_id; payload = p })).results
            ≡ length b.results + 1
      payload blank = length-append _ _
      payload (normal op) = length-append _ _
      payload (membership m) = length-append _ _

  apply_entry-IsValid :
      (b : Batch L S) (e : Entry L M)
      → IsValid b.machine
      → IsValid (apply_entry new_membership b e).machine
  unfolding apply_entry apply_payload
  apply_entry-IsValid b e v = payload e.payload
    where
      payload :
          (p : EntryPayload M)
          → IsValid
              (apply_entry new_membership b (record { log_id = e.log_id; payload = p })).machine
      payload blank = v
      payload (normal op) = apply_one-IsValid b.machine op v
      payload (membership m) = v

  apply_loop-after :
      (rs : List ReplicatedOpResult) (ts : List Deadline) (b : Batch L S) (es : List (Entry L M))
      → apply_loop new_membership (after rs ts b) es ≡ after rs ts (apply_loop new_membership b es)
  unfolding apply_loop
  apply_loop-after rs ts b [] = refl
  apply_loop-after rs ts b (e ∷ es) =
      rw (apply_entry-after rs ts b e) (apply_loop-after rs ts (apply_entry new_membership b e) es)

  apply_loop-append :
      (b : Batch L S) (es fs : List (Entry L M))
      → apply_loop new_membership b (es ++ fs)
        ≡ apply_loop new_membership (apply_loop new_membership b es) fs
  unfolding apply_loop
  apply_loop-append b [] fs = refl
  apply_loop-append b (e ∷ es) fs = apply_loop-append (apply_entry new_membership b e) es fs

  abbrev restarted : Batch L S → Batch L S
  restarted b = record { machine = b.machine; applied = b.applied; results = []; transitions = [] }

  restart :
      (b : Batch L S) (fs : List (Entry L M))
      → apply_loop new_membership b fs
        ≡ after b.results b.transitions (apply_loop new_membership (restarted b) fs)
  restart b fs =
      let e : after b.results b.transitions (restarted b) ≡ b = simp append-nil in
      rw e at (apply_loop-after b.results b.transitions (restarted b) fs)

  -- How the log is cut into batches does not matter: applying `es` and then `fs` leaves the same
  -- store as applying both at once, and returns the same results and deadlines, in order.
  pub apply_entries-append :
      (s : StateMachineStore L S) (es fs : List (Entry L M))
      → let first = apply_entries new_membership s es in
        let second = apply_entries new_membership first.store fs in
        apply_entries new_membership s (es ++ fs) ≡ record {
          store = second.store;
          results = first.results ++ second.results;
          transitions = first.transitions ++ second.transitions;
        }
  unfolding apply_entries
  apply_entries-append s es fs =
      ap (finish s) (
        apply_loop-append (started s) es fs ∙ restart (apply_loop new_membership (started s) es) fs)

  results-apply_loop :
      (b : Batch L S) (es : List (Entry L M))
      → length (apply_loop new_membership b es).results ≡ length b.results + length es
  unfolding apply_loop
  results-apply_loop b [] = omega arith
  results-apply_loop b (e ∷ es) =
      omega (arith, results-apply_loop (apply_entry new_membership b e) es, results-apply_entry b e)

  apply_loop-IsValid :
      (b : Batch L S) (es : List (Entry L M))
      → IsValid b.machine
      → IsValid (apply_loop new_membership b es).machine
  unfolding apply_loop
  apply_loop-IsValid b [] v = v
  apply_loop-IsValid b (e ∷ es) v =
      apply_loop-IsValid (apply_entry new_membership b e) es (apply_entry-IsValid b e v)

  -- Whatever entries are committed, the machine of a store stays valid, there is one result for
  -- each entry, and the size counters are those of the machine.
  pub apply_entries-IsValid :
      (s : StateMachineStore L S) (es : List (Entry L M))
      → IsValid s.machine
      → IsValid (apply_entries new_membership s es).store.machine
        × (length (apply_entries new_membership s es).results ≡ length es)
        × ((stats (apply_entries new_membership s es).store).live_keys
            ≡ head_len (apply_entries new_membership s es).store.machine)
        × ((stats (apply_entries new_membership s es).store).retired_keys
            ≡ retired_len (apply_entries new_membership s es).store.machine)
  unfolding apply_entries stats
  apply_entries-IsValid s es v = (
    apply_loop-IsValid (started s) es v,
    omega (arith, results-apply_loop (started s) es),
    refl,
    refl,
  )

-- Two replicas that a client, the metrics and openraft cannot tell apart after a batch.
pub record Agree {L S : Type 0} (a b : Response L S) : Type 0 where
  pub machine : a.store.machine ≡ b.store.machine
  pub applied : a.store.applied ≡ b.store.applied
  pub live_keys : a.store.live_keys ≡ b.store.live_keys
  pub retired_keys : a.store.retired_keys ≡ b.store.retired_keys
  pub results : a.results ≡ b.results
  pub transitions : a.transitions ≡ b.transitions

Agree-of_same :
    {L M S : Type 0} (new_membership : Option L → M → S) (s t : StateMachineStore L S)
    → t.machine ≡ s.machine
    → t.applied ≡ s.applied
    → (es : List (Entry L M))
    → Agree (apply_entries new_membership t es) (apply_entries new_membership s es)
unfolding apply_entries
Agree-of_same new_membership s t m a es = record {
  machine = λ i. (loop i).machine;
  applied = λ i. (loop i).applied;
  live_keys = λ i. head_len (loop i).machine;
  retired_keys = λ i. retired_len (loop i).machine;
  results = λ i. (loop i).results;
  transitions = λ i. (loop i).transitions;
}
  where
    loop : apply_loop new_membership (started t) es ≡ apply_loop new_membership (started s) es
    loop i =
        apply_loop new_membership
          (record { machine = m i; applied = a i; results = []; transitions = [] }) es

module _ {L M S : Type 0} (new_membership : Option L → M → S)
    (into_writer : StateMachineSnapshot → Option (List ℕ))
    (from_reader : List ℕ → Option StateMachineSnapshot)
    (snapshot_name : Option L → ℕ → List ℕ) where
  built :
      (s : StateMachineStore L S) (stored : StoredSnapshot L S)
      → (build_snapshot into_writer from_reader snapshot_name s).1 ≡ some stored
      → (into_writer (snapshot s.machine) ≡ some stored.bytes)
        × (stored.meta.last_log_id ≡ s.applied.last_applied_log)
        × (stored.meta.last_membership ≡ s.applied.last_membership)
  unfolding build_snapshot
  built s stored h = ground arith

  installed_lem :
      (t : StateMachineStore L S) (meta : SnapshotMeta L S) (blob : List ℕ)
      (snap : StateMachineSnapshot)
      → from_reader blob ≡ some snap
      → let installed = install_snapshot into_writer from_reader snapshot_name t meta blob in
        (installed.1 ≡ true)
        × (installed.0.machine ≡ restore_from_snapshot t.machine snap)
        × (installed.0.applied ≡ record {
          last_applied_log = meta.last_log_id;
          last_membership = meta.last_membership;
        })
  unfolding install_snapshot
  installed_lem t meta blob snap h = rw (h, install_snapshot) (refl, refl, refl)

  -- Hydration. If the decoder reads back what the encoder writes, then a replica `t`, whatever it
  -- held, that installs the snapshot which a valid replica `s` built accepts it, and whatever
  -- entries are committed next, the two end with the same machine, applied state and sizes, and
  -- return the same results and deadlines: as if `t` had replayed the whole log.
  pub hydrated_replica_agrees :
      ((snap : StateMachineSnapshot) (buf : List ℕ)
        → into_writer snap ≡ some buf
        → from_reader buf ≡ some snap)
      → (s t : StateMachineStore L S) (stored : StoredSnapshot L S) → IsValid s.machine
      → (build_snapshot into_writer from_reader snapshot_name s).1 ≡ some stored
      → let installed =
          install_snapshot into_writer from_reader snapshot_name t stored.meta stored.bytes in
        (installed.1 ≡ true)
        × ((es : List (Entry L M))
            → Agree
                (apply_entries new_membership installed.0 es)
                (apply_entries new_membership s es))
  hydrated_replica_agrees cbor s t stored v h =
      let b = built s stored h in
      let i =
        installed_lem t stored.meta stored.bytes (snapshot s.machine)
          (cbor (snapshot s.machine) stored.bytes b.0) in
      (
        i.0,
        Agree-of_same new_membership s _ (i.1 ∙ restore-snapshot t.machine s.machine v.ordered)
            (i.2 ∙ λ j. record { last_applied_log = b.1 j; last_membership = b.2 j }),
      )
