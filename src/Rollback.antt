-- ===== src/Rollback.antt =====
-- nbd-client/src/rollback.rs, the client's protection of the superblock region: what it decides at
-- boot, how it classifies writes, and the watch over the reads of the region. A commitment is the
-- number of its 32 bytes; SHA-256 of a region is a parameter. A hash map is a map by its keys.
pub mod Boot
pub mod Watch
pub mod Pin
pub mod BootFlow
pub mod Retry
pub mod Proxy
mod Tests
use enclavia.Base.{
  ℕ, ◌+◌, ◌-◌, ◌*◌, ◌%◌, ◌^◌, Bool, true, false, not, ◌&&◌, ◌||◌, ◌==◌, leb, ltb, if◌then◌else◌,
  Option, none, some, List, [], ◌∷◌, ◌++◌, Result, ok, err,
}
use enclavia.Base.Bytes.{Bytes}
use enclavia.Base.Key.{nat_key}
use enclavia.Base.BTreeMap
use enclavia.Base.BTreeMap.{BTreeMap}
use enclavia.Machine.{Commitment, Version, u64_mod}
use enclavia.Wire.{RpcError, not_found}

abbrev pub sb_primary_fs_offset : ℕ
sb_primary_fs_offset = 65536

abbrev pub sb_region_len : ℕ
sb_region_len = 4096

pub data SbOverlap : Type 0 where
  disjoint partial : SbOverlap
  full : (payload_offset : ℕ) → SbOverlap

-- `offset.saturating_add(length)` on a `u64`
abbrev pub saturating_add : ℕ → ℕ → ℕ
saturating_add a b = if ltb (a + b) u64_mod then a + b else u64_mod - 1

pub primary_sb_overlap : ℕ → ℕ → ℕ → SbOverlap
primary_sb_overlap offset length data_offset =
    let region_start = (data_offset + sb_primary_fs_offset) % u64_mod in
    let region_end = (region_start + sb_region_len) % u64_mod in
    let write_end = saturating_add offset length in
    if leb write_end region_start || leb region_end offset
    then disjoint
    else if leb offset region_start && leb region_end write_end
    then full (region_start - offset)
    else partial

pub region_is_blank : Bytes → Bool
region_is_blank [] = true
region_is_blank (b ∷ bs) = (b == 0) && region_is_blank bs

pub data GetOutcome : Type 0 where
  found : (commitment : Commitment) (version : Version) → GetOutcome
  absent : GetOutcome

pub data Reason : Type 0 where
  commitment_mismatch upgrade_target history_erased : Reason

pub data BootDecision : Type 0 where
  serve register_then_serve : BootDecision
  transition_or_fail_stop fail_stop : Reason → BootDecision

pub data ImageRole : Type 0 where
  genesis upgrade_target : ImageRole

pub boot_decision : (Bytes → Commitment) → Bytes → GetOutcome → ImageRole → BootDecision
boot_decision sha256 region (found commitment _) role =
    if sha256 region == commitment then serve else fail_stop Reason.commitment_mismatch
boot_decision sha256 region absent role =
    if region_is_blank region
    then elim role [
      | genesis ↦ register_then_serve
      | upgrade_target ↦ transition_or_fail_stop Reason.upgrade_target
    ]
    else transition_or_fail_stop Reason.history_erased

-- The errors of the client: an answer of the synchronizer, a dropped connection, or any other.
pub data ClientError (E : Type 0) : Type 0 where
  rpc : RpcError → ClientError E
  io : E → ClientError E
  connection_closed : ClientError E
  other : E → ClientError E

pub get_outcome :
    {E : Type 0} → Result (Commitment × Version) (ClientError E) → Result GetOutcome (ClientError E)
get_outcome (ok (commitment, version)) = ok (found commitment version)
get_outcome (err (rpc not_found)) = ok absent
get_outcome (err e) = err e

pub record ReadWatch : Type 0 where
  pub payload_offset : ℕ
  pub accept_from_seq : ℕ

-- A sequence number and a commitment.
abbrev pub Pinned : Type 0
Pinned = ℕ × Commitment

pub record RegionWatch : Type 0 where
  pub history : List Pinned
  pub pending : BTreeMap ℕ Pinned
  pub reads : BTreeMap ℕ ReadWatch
  pub next_seq : ℕ

abbrev pub watching : Commitment → RegionWatch
watching boot_commitment = record {
  history = (0, boot_commitment) ∷ [];
  pending = [];
  reads = [];
  next_seq = 1;
}

-- `history.back().map(|(s, _)| *s).unwrap_or(0)`
pub newest : List Pinned → ℕ
newest [] = 0
newest ((s, _) ∷ []) = s
newest (_ ∷ e ∷ history) = newest (e ∷ history)

pub watch_read : RegionWatch → ℕ → ℕ → RegionWatch
watch_read w handle payload_offset =
    let read : ReadWatch = record {
      payload_offset = payload_offset;
      accept_from_seq = newest w.history;
    } in
    record w { reads = BTreeMap.insert w.reads handle read }

pub begin_pending : RegionWatch → ℕ → Commitment → RegionWatch
begin_pending w handle commitment = record w {
  next_seq = (w.next_seq + 1) % u64_mod;
  pending = BTreeMap.insert w.pending handle (w.next_seq, commitment);
}

-- The least `accept_from_seq` of the reads, `none` without reads.
pub floor_of : BTreeMap ℕ ReadWatch → Option ℕ
floor_of [] = none
floor_of ((_, read) ∷ reads) = elim (floor_of reads) [
  | none ↦ some read.accept_from_seq
  | some least ↦ some (if leb read.accept_from_seq least then read.accept_from_seq else least)
]

abbrev pub unwrap_or : Option ℕ → ℕ → ℕ
unwrap_or none d = d
unwrap_or (some n) d = n

-- The loop that drops old entries from the front and keeps the last.
pub prune : ℕ → List Pinned → List Pinned
prune floor [] = []
prune floor (e ∷ []) = e ∷ []
prune floor (e ∷ f ∷ history) =
    let rest = prune floor (f ∷ history) in if leb floor e.0 then e ∷ f ∷ history else rest

pub commit : RegionWatch → ℕ → RegionWatch
commit w handle = elim (BTreeMap.get w.pending handle) [
  | none ↦ w
  | some (seq, c) ↦ record w {
    pending = BTreeMap.remove w.pending handle;
    history = prune (unwrap_or (floor_of w.reads) seq) (w.history ++ ((seq, c) ∷ []));
  }
]

pub fresh_in : ℕ → Commitment → List Pinned → Bool
fresh_in from hash [] = false
fresh_in from hash ((s, c) ∷ history) = leb from s && (c == hash) || fresh_in from hash history

pub fresh_pending : ℕ → Commitment → BTreeMap ℕ Pinned → Bool
fresh_pending from hash [] = false
fresh_pending from hash ((_, e) ∷ pending) =
    leb from e.0 && (e.1 == hash) || fresh_pending from hash pending

-- `false` is the fatal mismatch.
pub verify_read : (Bytes → Commitment) → RegionWatch → ℕ → Bytes → RegionWatch × Bool
verify_read sha256 w handle region = elim (BTreeMap.get w.reads handle) [
  | none ↦ (w, true)
  | some read ↦ (
    record w { reads = BTreeMap.remove w.reads handle },
    fresh_in read.accept_from_seq (sha256 region) w.history
        || fresh_pending read.accept_from_seq (sha256 region) w.pending,
  )
]

pub drop_read : RegionWatch → ℕ → RegionWatch
drop_read w handle = record w { reads = BTreeMap.remove w.reads handle }
