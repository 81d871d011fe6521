-- ===== src/Store/Tests/Codec.antt =====
-- A codec of snapshots without revocations, for the tests of the store: each entry behind a 1, a 0
-- behind the last.
use enclavia.Base.{zero, suc, ℕ, ◌≡◌, refl, Option, none, some, List, [], ◌∷◌, arith}
use enclavia.Base.BTreeMap.{BTreeMap}
use enclavia.Base.BTreeSet.{BTreeSet}
use enclavia.Machine.{PcrKey, LinkHash, KeyState}
use enclavia.Machine.Snapshot.{StateMachineSnapshot, ControlPubkeyBytes}

write_states : BTreeMap PcrKey KeyState → List ℕ → List ℕ
write_states [] rest = 0 ∷ rest
write_states ((k, s) ∷ m) rest =
    1 ∷ k ∷ s.commitment ∷ s.version ∷ s.control_pubkey ∷ write_states m rest

write_attested : BTreeMap PcrKey ControlPubkeyBytes → List ℕ → List ℕ
write_attested [] rest = 0 ∷ rest
write_attested ((k, pk) ∷ m) rest = 1 ∷ k ∷ pk.bytes ∷ write_attested m rest

write_pairs : BTreeSet (PcrKey × PcrKey) → List ℕ → List ℕ
write_pairs [] rest = 0 ∷ rest
write_pairs ((o, n) ∷ s) rest = 1 ∷ o ∷ n ∷ write_pairs s rest

read_pairs : List ℕ → Option (BTreeSet (PcrKey × PcrKey) × List ℕ)
read_pairs (suc zero ∷ o ∷ n ∷ bytes) = elim (read_pairs bytes) [
  | some (s, rest) ↦ some ((o, n) ∷ s, rest)
  | none ↦ none
]
read_pairs (zero ∷ bytes) = some ([], bytes)
read_pairs _ = none

read_attested : List ℕ → Option (BTreeMap PcrKey ControlPubkeyBytes × List ℕ)
read_attested (suc zero ∷ k ∷ pk ∷ bytes) = elim (read_attested bytes) [
  | some (m, rest) ↦ some ((k, record { bytes = pk }) ∷ m, rest)
  | none ↦ none
]
read_attested (zero ∷ bytes) = some ([], bytes)
read_attested _ = none

read_states : List ℕ → Option (BTreeMap PcrKey KeyState × List ℕ)
read_states (suc zero ∷ k ∷ c ∷ v ∷ pk ∷ bytes) = elim (read_states bytes) [
  | some (m, rest) ↦
      some ((k, record { commitment = c; version = v; control_pubkey = pk }) ∷ m, rest)
  | none ↦ none
]
read_states (zero ∷ bytes) = some ([], bytes)
read_states _ = none

unfoldable pub into_writer : StateMachineSnapshot → Option (List ℕ)
unfolding write_states write_attested write_pairs
into_writer snap = elim snap.revoked_links [
  | _ ∷ _ ↦ none
  | [] ↦ some (
      write_states snap.state
        (write_attested snap.attested (write_pairs snap.transition_authorizations snap.retired)))
]

unfoldable pub from_reader : List ℕ → Option StateMachineSnapshot
unfolding read_states read_attested read_pairs
from_reader bytes = elim (read_states bytes) [
  | none ↦ none
  | some (state, bytes') ↦ elim (read_attested bytes') [
    | none ↦ none
    | some (attested, bytes'') ↦ elim (read_pairs bytes'') [
      | none ↦ none
      | some (authorizations, retired) ↦ some (record {
        state = state;
        attested = attested;
        transition_authorizations = authorizations;
        retired = retired;
        revoked_links = [];
      })
    ]
  ]
]

read_states-write :
    (m : BTreeMap PcrKey KeyState) (rest : List ℕ)
    → read_states (write_states m rest) ≡ some (m, rest)
unfolding read_states write_states
read_states-write [] rest = refl
read_states-write ((k, s) ∷ m) rest = ground (arith, read_states-write m rest)

read_attested-write :
    (m : BTreeMap PcrKey ControlPubkeyBytes) (rest : List ℕ)
    → read_attested (write_attested m rest) ≡ some (m, rest)
unfolding read_attested write_attested
read_attested-write [] rest = refl
read_attested-write ((k, pk) ∷ m) rest = ground (arith, read_attested-write m rest)

read_pairs-write :
    (s : BTreeSet (PcrKey × PcrKey)) (rest : List ℕ)
    → read_pairs (write_pairs s rest) ≡ some (s, rest)
unfolding read_pairs write_pairs
read_pairs-write [] rest = refl
read_pairs-write ((o, n) ∷ s) rest = ground (arith, read_pairs-write s rest)

from_reader-written :
    (m : BTreeMap PcrKey KeyState) (n : BTreeMap PcrKey ControlPubkeyBytes)
    (s : BTreeSet (PcrKey × PcrKey)) (r : BTreeSet PcrKey)
    → from_reader (write_states m (write_attested n (write_pairs s r)))
      ≡ some (record {
        state = m;
        attested = n;
        transition_authorizations = s;
        retired = r;
        revoked_links = [];
      })
unfolding from_reader
from_reader-written m n s r = ground (
  arith,
  read_states-write m (write_attested n (write_pairs s r)),
  read_attested-write n (write_pairs s r),
  read_pairs-write s r,
)

pub from_reader-into_writer :
    (snap : StateMachineSnapshot) (buf : List ℕ)
    → into_writer snap ≡ some buf
    → from_reader buf ≡ some snap
unfolding into_writer
from_reader-into_writer snap buf = go snap.revoked_links
  where
    go :
        (links : BTreeMap PcrKey (BTreeSet LinkHash))
        → into_writer (record snap { revoked_links = links }) ≡ some buf
        → from_reader buf ≡ some (record snap { revoked_links = links })
    go [] h = cc (
      h,
      from_reader-written snap.state snap.attested snap.transition_authorizations snap.retired,
    )
    go (l ∷ links) h = cc
