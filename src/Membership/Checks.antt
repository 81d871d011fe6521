-- ===== src/Membership/Checks.antt =====
-- What the three loops over the committed voters establish.
use enclavia.Base.{ℕ, ◌≤◌, ◌≡◌, refl, true, some, [], ◌∷◌, ok, arith, ◌||◌}
use enclavia.Base.Key.{Key, nat_key}
use enclavia.Base.BTreeMap
use enclavia.Base.BTreeSet
use enclavia.Base.BTreeSet.{BTreeSet, contains-insert}
use enclavia.Machine.{ControlPubkey}
use enclavia.Membership.{
  RaftNodeId, MemberRecord, Voters, instance_node_id, voter_ids, check_slots, holders,
  check_holders, check_ids, slot_holder,
}

module _ {Name : Type 0} ⦃o : Key Name⦄ where
  pub check_slots_lem :
      (names : BTreeSet Name) (voters : Voters Name) (id : RaftNodeId) (r : MemberRecord Name)
      → check_slots names voters ≡ ok tt
      → BTreeMap.get voters id ≡ some r
      → BTreeSet.contains names r.name ≡ true
  unfolding check_slots BTreeMap.get
  check_slots_lem names [] id r c g = ground arith
  check_slots_lem names ((j, m) ∷ voters) id r c g =
      ground (arith, check_slots_lem names voters id r)

  pub check_ids_lem :
      (sha256 : ControlPubkey → ℕ) (voters : Voters Name) (id : RaftNodeId) (r : MemberRecord Name)
      → check_ids sha256 voters ≡ ok tt
      → BTreeMap.get voters id ≡ some r
      → id ≡ instance_node_id sha256 r.pubkey
  unfolding check_ids BTreeMap.get
  check_ids_lem sha256 [] id r c g = ground arith
  check_ids_lem sha256 ((j, m) ∷ voters) id r c g = ground (arith, check_ids_lem sha256 voters id r)

  pub check_holders_lem :
      (voters : Voters Name) (names : BTreeSet Name) (name : Name)
      → check_holders voters names ≡ ok tt
      → BTreeSet.contains names name ≡ true
      → holders voters name ≤ 1
  unfolding check_holders BTreeSet.contains
  check_holders_lem voters [] name c g = ground arith
  check_holders_lem voters (n ∷ names) name c g =
      ground (arith, o.beq_iff n name, check_holders_lem voters names name)

  pub holders_of_voter :
      (voters : Voters Name) (id : RaftNodeId) (r : MemberRecord Name)
      → BTreeMap.get voters id ≡ some r
      → 1 ≤ holders voters r.name
  unfolding holders BTreeMap.get
  holders_of_voter [] id r g = ground arith
  holders_of_voter ((j, m) ∷ voters) id r g =
      ground (arith, (o.beq_iff r.name r.name).1 refl, holders_of_voter voters id r)

  -- Two voters of a slot that has at most one are the same.
  pub single_holder :
      (voters : Voters Name) (i j : RaftNodeId) (r s : MemberRecord Name)
      → BTreeMap.get voters i ≡ some r
      → BTreeMap.get voters j ≡ some s
      → r.name ≡ s.name
      → holders voters r.name ≤ 1
      → i ≡ j
  unfolding holders BTreeMap.get
  single_holder [] i j r s g h e c = ground arith
  single_holder ((k, m) ∷ voters) i j r s g h e c = ground (
    arith,
    (o.beq_iff r.name r.name).1 refl,
    holders_of_voter voters i r,
    holders_of_voter voters j s,
    single_holder voters i j r s,
  )

  -- The holder that the search finds is every voter of the slot.
  pub slot_holder_lem :
      (voters : Voters Name) (name : Name) (i : RaftNodeId) (r : MemberRecord Name)
      → BTreeMap.get voters i ≡ some r
      → r.name ≡ name
      → holders voters name ≤ 1
      → slot_holder voters name ≡ some i
  unfolding holders slot_holder BTreeMap.get
  slot_holder_lem [] name i r g e c = ground arith
  slot_holder_lem ((k, m) ∷ voters) name i r g e c =
      ground
        (arith, o.beq_iff m.name name, holders_of_voter voters i r, slot_holder_lem voters name i r)

  pub contains-voter_ids :
      (acc : BTreeSet RaftNodeId) (voters : Voters Name) (i : RaftNodeId)
      → BTreeSet.contains (voter_ids acc voters) i
        ≡ (BTreeSet.contains acc i || BTreeMap.contains_key voters i)
  unfolding voter_ids BTreeMap.get
  contains-voter_ids acc [] i = ground arith
  contains-voter_ids acc ((k, m) ∷ voters) i =
      ground (arith, contains-insert acc k i, contains-voter_ids (BTreeSet.insert acc k) voters i)
