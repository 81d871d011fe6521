-- ===== src/Rollback/Watch.antt =====
-- The watch of nbd-client/src/rollback.rs over the reads of the superblock region, along any
-- operations between the issue of a read and its reply.
use enclavia.Base.{
  ℕ, ◌+◌, ◌≤◌, ◌≡◌, ◌≢◌, refl, ◌⊎◌, inl, inr, true, some, List, [], ◌∷◌, ◌++◌, arith, Option-cases,
  ap, ◌∙◌,
}
use enclavia.Base.Bytes.{Bytes}
use enclavia.Base.Key.{nat_key, nat_beq_iff}
use enclavia.Base.BTreeMap
use enclavia.Base.BTreeMap.{BTreeMap, get-insert, get-remove}
use enclavia.Machine.{Commitment}
use enclavia.Rollback.{
  ReadWatch, Pinned, RegionWatch, newest, watch_read, begin_pending, floor_of, unwrap_or, prune,
  commit, fresh_in, verify_read, drop_read,
}

-- The calls on the watch.
pub data WatchOp : Type 0 where
  issue : (handle payload_offset : ℕ) → WatchOp
  gate : (handle : ℕ) (commitment : Commitment) → WatchOp
  pinned : (handle : ℕ) → WatchOp
  reply : (handle : ℕ) (region : Bytes) → WatchOp
  fail : (handle : ℕ) → WatchOp

abbrev pub Has : Pinned → List Pinned → Type 0
Has e [] = ⊥
Has e (x ∷ history) = (x ≡ e) ⊎ Has e history

-- A commitment whose pin is in flight.
abbrev pub HasPending : Pinned → BTreeMap ℕ Pinned → Type 0
HasPending e [] = ⊥
HasPending e ((_, x) ∷ pending) = (x ≡ e) ⊎ HasPending e pending

prune-Has :
    (floor : ℕ) (history : List Pinned) (e : Pinned)
    → floor ≤ e.0
    → Has e history
    → Has e (prune floor history)
unfolding prune
prune-Has floor [] e f h = absurd h
prune-Has floor (x ∷ []) e f h = h
prune-Has floor (x ∷ y ∷ history) e f (inl same) = ground (arith, prune-Has floor (y ∷ history) e f)
prune-Has floor (x ∷ y ∷ history) e f (inr h) = ground (arith, prune-Has floor (y ∷ history) e f h)

append-Has : (history later : List Pinned) (e : Pinned) → Has e history → Has e (history ++ later)
append-Has [] later e h = absurd h
append-Has (x ∷ history) later e (inl same) = inl same
append-Has (x ∷ history) later e (inr h) = inr (append-Has history later e h)

floor_of-least :
    (reads : BTreeMap ℕ ReadWatch) (handle : ℕ) (r : ReadWatch) (d : ℕ)
    → BTreeMap.get reads handle ≡ some r
    → unwrap_or (floor_of reads) d ≤ r.accept_from_seq
unfolding floor_of BTreeMap.get
floor_of-least [] handle r d h = ground arith
floor_of-least ((k, x) ∷ reads) handle r d h =
    ground (
      arith,
      floor_of-least reads handle r d,
      floor_of-least reads handle r (r.accept_from_seq + 1),
    )

-- A read in flight since the sequence number `from`, and a commitment at least as recent.
pub record InFlight (handle from : ℕ) (e : Pinned) (w : RegionWatch) : Type 0 where
  pub read : ReadWatch
  pub watched : BTreeMap.get w.reads handle ≡ some read
  pub since : read.accept_from_seq ≡ from
  pub recent : from ≤ e.0
  pub kept : Has e w.history

-- The calls that neither issue nor end the read of a handle.
abbrev pub Spares : ℕ → WatchOp → Type 0
Spares handle (issue h _) = h ≢ handle
Spares handle (gate _ _) = Unit
Spares handle (pinned _) = Unit
Spares handle (reply h _) = h ≢ handle
Spares handle (fail h) = h ≢ handle

abbrev pub AllSpare : ℕ → List WatchOp → Type 0
AllSpare handle [] = Unit
AllSpare handle (op ∷ ops) = Spares handle op × AllSpare handle ops

module _ (sha256 : Bytes → Commitment) where
  abbrev pub call : RegionWatch → WatchOp → RegionWatch
  call w (issue handle payload_offset) = watch_read w handle payload_offset
  call w (gate handle commitment) = begin_pending w handle commitment
  call w (pinned handle) = commit w handle
  call w (reply handle region) = (verify_read sha256 w handle region).0
  call w (fail handle) = drop_read w handle

  unfoldable pub calls : RegionWatch → List WatchOp → RegionWatch
  calls w [] = w
  calls w (op ∷ ops) = calls (call w op) ops

  reads-call :
      (w : RegionWatch) (op : WatchOp) (handle : ℕ)
      → Spares handle op
      → BTreeMap.get (call w op).reads handle ≡ BTreeMap.get w.reads handle
  unfolding watch_read begin_pending commit verify_read drop_read
  reads-call w (issue h o) handle s = grind (arith, get-insert, nat_beq_iff)
  reads-call w (gate h c) handle s = refl
  reads-call w (pinned h) handle s = ground arith
  reads-call w (reply h region) handle s = grind (arith, get-remove, nat_beq_iff)
  reads-call w (fail h) handle s = grind (arith, get-remove, nat_beq_iff)

  commit-Has :
      (w : RegionWatch) (h handle : ℕ) (r : ReadWatch) (e : Pinned)
      → BTreeMap.get w.reads handle ≡ some r
      → r.accept_from_seq ≤ e.0
      → Has e w.history
      → Has e (commit w h).history
  unfolding commit
  commit-Has w h handle r e g f k = elim (Option-cases (BTreeMap.get w.pending h)) [
    | inl idle ↦ ground arith
    | inr ((seq, c), p) ↦
        let kept =
          prune-Has (unwrap_or (floor_of w.reads) seq) (w.history ++ ((seq, c) ∷ [])) e
            (omega (arith, floor_of-least w.reads handle r seq g))
            (append-Has w.history ((seq, c) ∷ []) e k) in
        ground arith
  ]

  history-call :
      (w : RegionWatch) (op : WatchOp) (handle : ℕ) (r : ReadWatch) (e : Pinned)
      → BTreeMap.get w.reads handle ≡ some r
      → r.accept_from_seq ≤ e.0
      → Has e w.history
      → Has e (call w op).history
  unfolding watch_read begin_pending verify_read drop_read
  history-call w (issue h o) handle r e g f k = k
  history-call w (gate h c) handle r e g f k = k
  history-call w (pinned h) handle r e g f k = commit-Has w h handle r e g f k
  history-call w (reply h region) handle r e g f k = ground arith
  history-call w (fail h) handle r e g f k = k

  pub calls-InFlight :
      (w : RegionWatch) (ops : List WatchOp) (handle from : ℕ) (e : Pinned)
      → AllSpare handle ops
      → InFlight handle from e w
      → InFlight handle from e (calls w ops)
  unfolding calls
  calls-InFlight w [] handle from e s v = v
  calls-InFlight w (op ∷ ops) handle from e s v =
      calls-InFlight (call w op) ops handle from e s.1 (record {
        read = v.read;
        watched = reads-call w op handle s.0 ∙ v.watched;
        since = v.since;
        recent = v.recent;
        kept =
            history-call w op handle v.read e v.watched (omega (arith, v.since, v.recent)) v.kept;
      })

  fresh_in-Has :
      (from : ℕ) (e : Pinned) (history : List Pinned)
      → from ≤ e.0
      → Has e history
      → fresh_in from e.1 history ≡ true
  unfolding fresh_in
  fresh_in-Has from e (x ∷ history) f (inl same) =
      ground (arith, ap (λ (y : Pinned). y.0) same, ap (λ (y : Pinned). y.1) same)
  fresh_in-Has from e (x ∷ history) f (inr h) = ground (arith, fresh_in-Has from e history f h)
  fresh_in-Has from e [] f h = absurd h

  -- An honest read is never taken for a rollback. If a commitment was pinned, and was as recent as
  -- the newest one, when a read of the region was issued, then whatever other calls come between
  -- (writes gated, pins completed and old entries pruned, other reads), a reply whose region has
  -- that commitment passes.
  pub honest_read_passes :
      (w : RegionWatch) (handle offset : ℕ) (e : Pinned) (ops : List WatchOp) (region : Bytes)
      → Has e w.history
      → newest w.history ≤ e.0
      → AllSpare handle ops
      → sha256 region ≡ e.1
      → (verify_read sha256 (calls (watch_read w handle offset) ops) handle region).1 ≡ true
  unfolding verify_read watch_read
  honest_read_passes w handle offset e ops region k n s p =
      let v =
        calls-InFlight (watch_read w handle offset) ops handle (newest w.history) e s (record {
          read = record { payload_offset = offset; accept_from_seq = newest w.history };
          watched = ground (
            arith,
            get-insert w.reads handle
                (record { payload_offset = offset; accept_from_seq = newest w.history }) handle,
            (nat_beq_iff handle handle).1 refl,
          );
          since = refl;
          recent = n;
          kept = k;
        }) in
      let fresh =
        fresh_in-Has (newest w.history) e (calls (watch_read w handle offset) ops).history v.recent
          v.kept in
      ground (arith, v.watched, v.since)
