-- ===== src/Membership/OneInstance.antt =====
-- One instance per slot: what every plan of synchronizer/src/raft/membership.rs commits.
use enclavia.Base.{
  subst, ◌⊎◌, ℕ, ◌≤◌, ◌≡◌, ◌≢◌, ap, sym, ◌∙◌, true, false, ◌==◌, Bool-cases, Option-cases, inl, inr,
  if◌then◌else◌, Option, none, some, [], ok, arith,
}
use enclavia.Base.Key.{Key, nat_key, nat_beq_iff}
use enclavia.Base.BTreeMap
use enclavia.Base.BTreeMap.{get-insert, get-remove}
use enclavia.Base.BTreeSet
use enclavia.Base.BTreeSet.{BTreeSet, contains-insert, contains-remove, contains-nil}
use enclavia.Machine.{ControlPubkey}
use enclavia.Membership.{
  RaftNodeId, MemberRecord, AdmissionPlan, Voters, instance_node_id, voter_ids, check_slots,
  holders, check_holders, check_ids, slot_holder, holds, evict, replace, admit, plan_admission,
}
use enclavia.Membership.Checks.{
  check_slots_lem, check_ids_lem, check_holders_lem, single_holder, slot_holder_lem,
  contains-voter_ids,
}

module _ {Name : Type 0} ⦃o : Key Name⦄ (sha256 : ControlPubkey → ℕ) (names : BTreeSet Name) where
  -- Every voter holds a configured slot under the id of its key, and no slot has two voters.
  pub record IsOneInstance (voters : Voters Name) : Type 0 where
    pub configured :
        (i : RaftNodeId) (r : MemberRecord Name)
        → BTreeMap.get voters i ≡ some r
        → BTreeSet.contains names r.name ≡ true
    pub derived :
        (i : RaftNodeId) (r : MemberRecord Name)
        → BTreeMap.get voters i ≡ some r
        → i ≡ instance_node_id sha256 r.pubkey
    pub single :
        (i j : RaftNodeId) (r s : MemberRecord Name)
        → BTreeMap.get voters i ≡ some r
        → BTreeMap.get voters j ≡ some s
        → r.name ≡ s.name
        → i ≡ j

  checked-IsOneInstance :
      (voters : Voters Name)
      → check_slots names voters ≡ ok tt
      → check_holders voters names ≡ ok tt
      → check_ids sha256 voters ≡ ok tt
      → IsOneInstance voters
  checked-IsOneInstance voters s h d = record {
    configured = λ i r. check_slots_lem names voters i r s;
    derived = λ i r. check_ids_lem sha256 voters i r d;
    single = λ i j r t g g' e.
        single_holder voters i j r t g g' e
          (check_holders_lem voters names r.name h (check_slots_lem names voters i r s g));
  }

  abbrev without : Option RaftNodeId → Voters Name → Voters Name
  without none voters = voters
  without (some holder) voters = BTreeMap.remove voters holder

  -- The voters once a plan is committed: one change removes the evicted voter and adds the new one.
  abbrev pub committed : Voters Name → AdmissionPlan Name → Voters Name
  committed voters plan =
      if plan.already_member
      then voters
      else BTreeMap.insert (without plan.evicted_id voters) plan.added_id plan.added

  -- What a plan for `name` and `pubkey` owes to the voters that it is made for.
  pub record IsSound (voters : Voters Name) (name : Name) (pubkey : ControlPubkey)
      (plan : AdmissionPlan Name) : Type 0 where
    pub one_instance : IsOneInstance (committed voters plan)
    pub ids :
        (i : RaftNodeId)
        → BTreeSet.contains plan.new_voter_ids i ≡ BTreeMap.contains_key (committed voters plan) i
    pub holder :
        (i : RaftNodeId) (r : MemberRecord Name)
        → BTreeMap.get (committed voters plan) i ≡ some r
        → r.name ≡ name
        → i ≡ instance_node_id sha256 pubkey

  ids_after :
      (voters : Voters Name) (id : RaftNodeId) (member : MemberRecord Name)
      (holder : Option RaftNodeId) (i : RaftNodeId)
      → BTreeSet.contains (BTreeSet.insert (evict holder (voter_ids [] voters)) id) i
        ≡ BTreeMap.contains_key (BTreeMap.insert (without holder voters) id member) i
  ids_after voters id member none i = ground (
    arith,
    contains-insert (voter_ids [] voters) id i,
    contains-voter_ids [] voters i,
    contains-nil i,
    get-insert voters id member i,
  )
  ids_after voters id member (some h) i = ground (
    arith,
    contains-insert (BTreeSet.remove (voter_ids [] voters) h) id i,
    contains-remove (voter_ids [] voters) h i,
    contains-voter_ids [] voters i,
    contains-nil i,
    get-insert (BTreeMap.remove voters h) id member i,
    get-remove voters h i,
  )

  -- A voter that stays is one of the voters, and not of the slot.
  stays :
      (voters : Voters Name) (name : Name) (id : RaftNodeId) (member : MemberRecord Name)
      (i : RaftNodeId) (r : MemberRecord Name)
      → holders voters name ≤ 1
      → i ≢ id
      → BTreeMap.get (BTreeMap.insert (without (slot_holder voters name) voters) id member) i
        ≡ some r
      → (BTreeMap.get voters i ≡ some r) × (r.name ≢ name)
  stays voters name id member i r h away g = elim (Option-cases (slot_holder voters name)) [
    | inl absent ↦ ground (arith, get-insert voters id member i, slot_holder_lem voters name i r)
    | inr (k, present) ↦ ground (
      arith,
      get-insert (BTreeMap.remove voters k) id member i,
      get-remove voters k i,
      slot_holder_lem voters name i r,
    )
  ]

  -- A voter of the new set is the candidate, or one that stays.
  new_voter :
      (voters : Voters Name) (name : Name) (id : RaftNodeId) (member : MemberRecord Name)
      (i : RaftNodeId) (r : MemberRecord Name)
      → holders voters name ≤ 1
      → BTreeMap.get (BTreeMap.insert (without (slot_holder voters name) voters) id member) i
        ≡ some r
      → ((i ≡ id) × (r ≡ member)) ⊎ ((BTreeMap.get voters i ≡ some r) × (r.name ≢ name))
  new_voter voters name id member i r h g = elim (Bool-cases (id == i)) [
    | inl same ↦
        inl (ground (arith, get-insert (without (slot_holder voters name) voters) id member i))
    | inr other ↦ inr (stays voters name id member i r h (ground (arith, nat_beq_iff id i)) g)
  ]

  replaced-IsOneInstance :
      (voters : Voters Name) (name : Name) (pubkey : ControlPubkey)
      → IsOneInstance voters
      → BTreeSet.contains names name ≡ true
      → holders voters name ≤ 1
      → let id = instance_node_id sha256 pubkey in
        let member : MemberRecord Name = record { name = name; pubkey = pubkey } in
        IsOneInstance (BTreeMap.insert (without (slot_holder voters name) voters) id member)
  replaced-IsOneInstance voters name pubkey one c h =
      let id = instance_node_id sha256 pubkey in
      let member : MemberRecord Name = record { name = name; pubkey = pubkey } in
      record {
        configured = λ i r g. elim (new_voter voters name id member i r h g) [
          | inl (_, same) ↦ ground (arith, same, c)
          | inr (old, _) ↦ one.configured i r old
        ];
        derived = λ i r g. elim (new_voter voters name id member i r h g) [
          | inl (at, same) ↦ ground (arith, same, at)
          | inr (old, _) ↦ one.derived i r old
        ];
        single = λ i j r s g g' e. elim (new_voter voters name id member i r h g) [
          | inl (at, same) ↦ elim (new_voter voters name id member j s h g') [
            | inl (at', same') ↦ at ∙ sym at'
            | inr (_, not_it) ↦
                absurd (not_it (sym e ∙ ap (λ (m : MemberRecord Name). m.name) same))
          ]
          | inr (old, not_it) ↦ elim (new_voter voters name id member j s h g') [
            | inl (at', same') ↦ absurd (not_it (e ∙ ap (λ (m : MemberRecord Name). m.name) same'))
            | inr (old', _) ↦ one.single i j r s old old' e
          ]
        ];
      }

  replace-IsSound :
      (voters : Voters Name) (name : Name) (pubkey : ControlPubkey) (plan : AdmissionPlan Name)
      → IsOneInstance voters
      → BTreeSet.contains names name ≡ true
      → holders voters name ≤ 1
      → replace names voters
          (instance_node_id sha256 pubkey)
          (record { name = name; pubkey = pubkey })
          (slot_holder voters name)
        ≡ ok plan
      → IsSound voters name pubkey plan
  replace-IsSound voters name pubkey plan one c h p =
      let id = instance_node_id sha256 pubkey in
      let member : MemberRecord Name = record { name = name; pubkey = pubkey } in
      let made : AdmissionPlan Name = record {
        added_id = id;
        added = member;
        evicted_id = slot_holder voters name;
        new_voter_ids = BTreeSet.insert (evict (slot_holder voters name) (voter_ids [] voters)) id;
        already_member = false;
      } in
      let same : made ≡ plan = ground arith in
      subst (IsSound voters name pubkey) same (record {
        one_instance = replaced-IsOneInstance voters name pubkey one c h;
        ids = ids_after voters id member (slot_holder voters name);
        holder = λ i r g e. elim (new_voter voters name id member i r h g) [
          | inl (at, _) ↦ at
          | inr (_, not_it) ↦ absurd (not_it e)
        ];
      })

  admit-IsSound :
      (voters : Voters Name) (name : Name) (pubkey : ControlPubkey) (plan : AdmissionPlan Name)
      → IsOneInstance voters
      → BTreeSet.contains names name ≡ true
      → holders voters name ≤ 1
      → admit names voters
          (instance_node_id sha256 pubkey)
          (record { name = name; pubkey = pubkey })
          (slot_holder voters name)
        ≡ ok plan
      → IsSound voters name pubkey plan
  admit-IsSound voters name pubkey plan one c h p =
      let id = instance_node_id sha256 pubkey in
      elim (Bool-cases (holds (slot_holder voters name) id)) [
        | inr away ↦ replace-IsSound voters name pubkey plan one c h (ground arith)
        | inl already ↦
            let made : AdmissionPlan Name = record {
              added_id = id;
              added = record { name = name; pubkey = pubkey };
              evicted_id = none;
              new_voter_ids = voter_ids [] voters;
              already_member = true;
            } in
            let same : made ≡ plan = ground arith in
            subst (IsSound voters name pubkey) same (record {
              one_instance = one;
              ids = λ i. ground (arith, contains-voter_ids [] voters i, contains-nil i);
              holder = λ i r g e.
                  ground (arith, slot_holder_lem voters name i r g e h, nat_beq_iff i id);
            })
      ]

  -- One instance per slot. Whenever a candidate is admitted, whatever the committed voters are, in
  -- the membership that the plan commits every voter holds a configured slot under the id of its
  -- public key, no slot has two voters, and the slot of the candidate has no voter but the
  -- candidate; and the voter ids of the plan are the ids of that membership.
  pub plan_admission-IsSound :
      (voters : Voters Name) (name : Name) (pubkey : ControlPubkey) (plan : AdmissionPlan Name)
      → plan_admission sha256 names voters name pubkey ≡ ok plan
      → IsSound voters name pubkey plan
  unfolding plan_admission
  plan_admission-IsSound voters name pubkey plan p =
      let c : BTreeSet.contains names name ≡ true = ground arith in
      let s : check_slots names voters ≡ ok tt = ground arith in
      let h : check_holders voters names ≡ ok tt = ground arith in
      let d : check_ids sha256 voters ≡ ok tt = ground arith in
      admit-IsSound voters name pubkey plan (checked-IsOneInstance voters s h d) c
        (check_holders_lem voters names name h c) (ground arith)
