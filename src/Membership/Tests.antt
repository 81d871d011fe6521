-- ===== src/Membership/Tests.antt =====
-- Admission into a cluster of three slots, where the second node restarts with a new key.
use enclavia.Base.{ℕ, ◌≡◌, ◌*◌, ◌^◌, refl, false, some, [], ◌∷◌, err, List}
use enclavia.Base.Key.{nat_key}
use enclavia.Base.BTreeMap
use enclavia.Base.BTreeSet
use enclavia.Membership.{
  AdmissionPlan, Voters, plan_admission, check_slots, check_holders, check_ids, holders,
  slot_holder, voter_ids, id_collision,
}
use enclavia.Membership.OneInstance.{IsSound, plan_admission-IsSound}

-- Names are numbers, and the first 8 bytes of a digest are the key.
abbrev sha256 : ℕ → ℕ
sha256 pubkey = pubkey * 2 ^ 192

abbrev names : List ℕ
names = 1 ∷ 2 ∷ 3 ∷ []

abbrev voters : Voters ℕ
voters =
    (10, record { name = 1; pubkey = 10 })
    ∷ (20, record { name = 2; pubkey = 20 })
    ∷ (30, record { name = 3; pubkey = 30 })
    ∷ []

abbrev plan : AdmissionPlan ℕ
plan = record {
  added_id = 25;
  added = record { name = 2; pubkey = 25 };
  evicted_id = some 20;
  new_voter_ids = 10 ∷ 25 ∷ 30 ∷ [];
  already_member = false;
}

plan_admission-IsSound_example : IsSound sha256 names voters 2 25 plan
unfolding plan_admission check_slots check_holders check_ids holders slot_holder voter_ids
    BTreeMap.get BTreeSet.contains BTreeSet.insert BTreeSet.remove
plan_admission-IsSound_example = plan_admission-IsSound sha256 names voters 2 25 plan refl

-- A key that is a voter of another slot is refused.
plan-collision : plan_admission sha256 names voters 2 30 ≡ err (id_collision 3)
unfolding plan_admission check_slots check_holders check_ids holders slot_holder voter_ids
    BTreeMap.get BTreeSet.contains BTreeSet.insert BTreeSet.remove
plan-collision = refl
