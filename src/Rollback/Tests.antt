-- ===== src/Rollback/Tests.antt =====
-- The rollback protection at concrete writes, boots and reads.
mod Wiring
mod Booting
use enclavia.Base.{ok, err, some, ℕ, ◌+◌, ◌≤◌, ◌≡◌, ◌↔◌, ◌⊎◌, inl, refl, true, List, [], ◌∷◌, arith}
use enclavia.Base.Key.{nat_key}
use enclavia.Base.Bytes.{Bytes}
use enclavia.Base.BTreeMap
use enclavia.Machine.{Version, next_version}
use enclavia.Rollback.{
  rpc, full, disjoint, sb_region_len, primary_sb_overlap, found, absent, serve, register_then_serve,
  genesis, boot_decision, newest, watching, watch_read, verify_read,
}
use enclavia.Rollback.Boot.{
  region_start, Touches, IsBlank, primary_sb_overlap_lem, boot_decision_iff,
}
use enclavia.Wire.{version_conflict}
use enclavia.Rollback.Pin.{
  hold, GateOp, begun, acked, consulted, begin, check, on_gate_all, unresolved_reply_is_held,
  PinAnswer, GetAnswer, pin_once_on, pin_once_on_iff,
}
use enclavia.Rollback.Watch.{WatchOp, gate, pinned, calls, honest_read_passes}

primary_sb_overlap_lem_example :
    ((p : ℕ)
      → (primary_sb_overlap 81920 4096 16384 ≡ full p)
        ↔ ((81920 + p ≡ region_start 16384) × (region_start 16384 + sb_region_len ≤ 81920 + 4096)))
    × ((primary_sb_overlap 81920 4096 16384 ≡ disjoint) ↔ ¬ Touches 81920 4096 16384)
primary_sb_overlap_lem_example =
    primary_sb_overlap_lem 81920 4096 16384 (omega arith) (omega arith) (omega arith)

-- The commitment of a region is its first byte.
abbrev sha256 : Bytes → ℕ
sha256 [] = 0
sha256 (b ∷ _) = b

abbrev region : Bytes
region = 7 ∷ 1 ∷ []

boot_decision_iff_example :
    ((boot_decision sha256 region (found 7 3) genesis ≡ serve)
      ↔ ((version : Version) × (found 7 3 ≡ found (sha256 region) version)))
    × ((boot_decision sha256 region (found 7 3) genesis ≡ register_then_serve)
        ↔ ((found 7 3 ≡ absent) × IsBlank region × (genesis ≡ genesis)))
boot_decision_iff_example = boot_decision_iff sha256 region (found 7 3) genesis

-- A write of another region is gated and pinned while the read is in flight.
abbrev between : List WatchOp
between = gate 50 9 ∷ pinned 50 ∷ []

honest_read_passes_example :
    (verify_read sha256 (calls sha256 (watch_read (watching 7) 40 0) between) 40 region).1 ≡ true
unfolding newest
honest_read_passes_example =
    honest_read_passes sha256 (watching 7) 40 0 (0, 7) between region (inl refl) (omega arith)
      (tt, (tt, tt)) refl

-- A write is gated, another one begins and is acknowledged, and the first reply arrives early.
abbrev calls_on_gate : List (GateOp ℕ)
calls_on_gate = begun 51 ∷ consulted 50 ∷ acked 51 ∷ consulted 51 ∷ []

-- A lost acknowledgement: the retry meets a conflict, and the `Get` finds the commitment.
abbrev conflicted : PinAnswer ℕ
conflicted = some (err (rpc version_conflict))

abbrev found_ours : GetAnswer ℕ
found_ours = some (ok (7, 4))

pin_once_on_iff_example : (pin_once_on 3 7 conflicted found_ours ≡ ok 4) ↔ (
    ((conflicted ≡ some (ok 4)) × (4 ≡ next_version 3))
    ⊎ ((conflicted ≡ some (err (rpc version_conflict))) × (found_ours ≡ some (ok (7, 4)))))
pin_once_on_iff_example = pin_once_on_iff 3 7 conflicted found_ours 4
