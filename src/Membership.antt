-- ===== src/Membership.antt =====
-- synchronizer/src/raft/membership.rs: the decision kernel of the cluster's membership, a function
-- of the configured names, the committed voters and one request. A name is any type of ordered
-- keys, an instance public key the number that its bytes spell, and SHA-256 of a key, as a number
-- of 256 bits, is a parameter.
pub mod Checks
pub mod OneInstance
mod Tests
use enclavia.Base.{
  ℕ, ◌+◌, ◌/◌, ◌^◌, Bool, true, false, not, ◌==◌, if◌then◌else◌, Option, none, some, List, [], ◌∷◌,
  Result, ok, err, ltb, ◌>>=◌, ◌>>◌,
}
use enclavia.Base.Key.{Key, nat_key}
use enclavia.Base.BTreeMap
use enclavia.Base.BTreeMap.{BTreeMap}
use enclavia.Base.BTreeSet
use enclavia.Base.BTreeSet.{BTreeSet}
use enclavia.Base.BTreeSet.Sorted as SortedSet
use enclavia.Machine.{ControlPubkey}

abbrev pub RaftNodeId : Type 0
RaftNodeId = ℕ

pub record MemberRecord (Name : Type 0) : Type 0 where
  pub name : Name
  pub pubkey : ControlPubkey

pub data AdmissionError (Name : Type 0) : Type 0 where
  unknown_slot id_collision : Name → AdmissionError Name
  corrupt_membership : ℕ → Name → AdmissionError Name
  id_mismatch : RaftNodeId → AdmissionError Name
  unconfigured_voter : Name → AdmissionError Name
  oversized_membership : (voters slots : ℕ) → AdmissionError Name

pub record AdmissionPlan (Name : Type 0) : Type 0 where
  pub added_id : RaftNodeId
  pub added : MemberRecord Name
  pub evicted_id : Option RaftNodeId
  pub new_voter_ids : BTreeSet RaftNodeId
  pub already_member : Bool

abbrev pub Voters : Type 0 → Type 0
Voters Name = BTreeMap RaftNodeId (MemberRecord Name)

-- The first 8 bytes, big-endian, of the digest.
abbrev pub instance_node_id : (ControlPubkey → ℕ) → ControlPubkey → RaftNodeId
instance_node_id sha256 pubkey = sha256 pubkey / 2 ^ 192

-- `voters.keys().copied().collect()`
pub voter_ids : {Name : Type 0} → BTreeSet RaftNodeId → Voters Name → BTreeSet RaftNodeId
voter_ids acc [] = acc
voter_ids acc ((id, _) ∷ voters) = voter_ids (BTreeSet.insert acc id) voters

abbrev pub holds : Option RaftNodeId → RaftNodeId → Bool
holds none id = false
holds (some holder) id = holder == id

abbrev pub evict : Option RaftNodeId → BTreeSet RaftNodeId → BTreeSet RaftNodeId
evict none ids = ids
evict (some holder) ids = BTreeSet.remove ids holder

module _ {Name : Type 0} ⦃o : Key Name⦄ where
  -- The first loop: every voter holds a configured slot.
  pub check_slots : BTreeSet Name → Voters Name → Result (Unit {0}) (AdmissionError Name)
  check_slots names [] = ok tt
  check_slots names ((_, member) ∷ voters) =
      let rest = check_slots names voters in
      if not (BTreeSet.contains names member.name)
      then err (unconfigured_voter member.name)
      else rest

  pub holders : Voters Name → Name → ℕ
  holders [] name = 0
  holders ((_, member) ∷ voters) name =
      (if o.beq member.name name then 1 else 0) + holders voters name

  -- The second loop: every configured slot has at most one voter.
  pub check_holders : Voters Name → List Name → Result (Unit {0}) (AdmissionError Name)
  check_holders voters [] = ok tt
  check_holders voters (name ∷ names) =
      let rest = check_holders voters names in
      if ltb 1 (holders voters name)
      then err (corrupt_membership (holders voters name) name)
      else rest

  -- The third loop: every voter's id is that of its public key.
  pub check_ids : (ControlPubkey → ℕ) → Voters Name → Result (Unit {0}) (AdmissionError Name)
  check_ids sha256 [] = ok tt
  check_ids sha256 ((id, member) ∷ voters) =
      let rest = check_ids sha256 voters in
      if not (id == instance_node_id sha256 member.pubkey) then err (id_mismatch id) else rest

  pub slot_holder : Voters Name → Name → Option RaftNodeId
  slot_holder [] name = none
  slot_holder ((id, member) ∷ voters) name =
      let rest = slot_holder voters name in if o.beq member.name name then some id else rest

  -- Rules 4 and 5, for a candidate that does not hold its slot.
  abbrev pub replace :
      BTreeSet Name
      → Voters Name
      → RaftNodeId
      → MemberRecord Name
      → Option RaftNodeId
      → Result (AdmissionPlan Name) (AdmissionError Name)
  replace names voters added_id added holder = elim (BTreeMap.get voters added_id) [
    | some collided ↦ err (id_collision collided.name)
    | none ↦
        let new_voter_ids = BTreeSet.insert (evict holder (voter_ids [] voters)) added_id in
        if ltb (SortedSet.len names) (SortedSet.len new_voter_ids)
        then err (oversized_membership (SortedSet.len new_voter_ids) (SortedSet.len names))
        else ok (record {
          added_id = added_id;
          added = added;
          evicted_id = holder;
          new_voter_ids = new_voter_ids;
          already_member = false;
        })
  ]

  -- Rule 3, then the rest.
  abbrev pub admit :
      BTreeSet Name
      → Voters Name
      → RaftNodeId
      → MemberRecord Name
      → Option RaftNodeId
      → Result (AdmissionPlan Name) (AdmissionError Name)
  admit names voters added_id added holder =
      if holds holder added_id
      then ok (record {
        added_id = added_id;
        added = added;
        evicted_id = none;
        new_voter_ids = voter_ids [] voters;
        already_member = true;
      })
      else replace names voters added_id added holder

  pub plan_admission :
      (ControlPubkey → ℕ)
      → BTreeSet Name
      → Voters Name
      → Name
      → ControlPubkey
      → Result (AdmissionPlan Name) (AdmissionError Name)
  plan_admission sha256 names voters name pubkey =
      if not (BTreeSet.contains names name) then err (unknown_slot name) else do
        check_slots names voters
        check_holders voters names
        check_ids sha256 voters
        admit names voters (instance_node_id sha256 pubkey)
            (record { name = name; pubkey = pubkey }) (slot_holder voters name)
