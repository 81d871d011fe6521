-- ===== src/Machine/Counts.antt =====
-- The numbers of live and of retired keys.
use enclavia.Base.{ℕ, ◌+◌, ◌≡◌, ok}
use enclavia.Base.BTreeMap.Sorted
use enclavia.Base.BTreeSet.Sorted as SortedSet
use enclavia.Base.Key.{nat_key}
use enclavia.Machine.{KeyState, Op, register, pin, transition, revoke, StateMachine, apply}
use enclavia.Machine.Invariant.{IsValid, containers}
use enclavia.Machine.Snapshot.{head_len, retired_len}

abbrev pub new_heads : Op → ℕ
new_heads (register _ _) = 1
new_heads _ = 0

abbrev pub new_retirements : Op → ℕ
new_retirements (transition _ _ _ _) = 1
new_retirements _ = 0

ruleset sizes =
    (containers, Sorted.len-insert, Sorted.len-remove, Sorted.remove-IsSorted, SortedSet.len-insert)

-- On a valid machine a committed `Register` adds one live key; a committed `Transition` adds one
-- retired key and leaves the number of live keys; a `Pin` or a `Revoke` changes neither number.
pub counts-apply :
    (sm : StateMachine) (op : Op) (s : KeyState)
    → IsValid sm
    → (apply sm op).1 ≡ ok s
    → (head_len (apply sm op).0 ≡ head_len sm + new_heads op)
      × (retired_len (apply sm op).0 ≡ retired_len sm + new_retirements op)
unfolding apply head_len retired_len
counts-apply sm (register key c) s v h = grind sizes
counts-apply sm (pin key e c) s v h = grind sizes
counts-apply sm (transition o n l c) s v h = grind sizes
counts-apply sm (revoke key l) s v h = grind sizes
