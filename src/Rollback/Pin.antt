-- ===== src/Rollback/Pin.antt =====
-- The pins of nbd-client/src/rollback.rs at run time: the gate that holds the reply of a superblock
-- write, and one attempt to pin. What the synchronizer answers to an attempt's `Pin` and, on a
-- conflict, to its `Get` are arguments; `none` is a timeout.
use enclavia.Base.{
  ℕ, ◌≡◌, ◌≢◌, ◌↔◌, refl, ◌⊎◌, ◌==◌, if◌then◌else◌, Option, none, some, List, [], ◌∷◌, Result, ok,
  err, arith,
}
use enclavia.Base.Key.{nat_key, nat_beq_iff}
use enclavia.Base.BTreeMap
use enclavia.Base.BTreeMap.{BTreeMap, get-insert, get-remove}
use enclavia.Machine.{Commitment, Version, next_version}
use enclavia.Wire.{not_found, version_conflict, unavailable}
use enclavia.Rollback.{ClientError, rpc, io, connection_closed, other}

pub data PinStatus (R : Type 0) : Type 0 where
  pending acknowledged : PinStatus R
  failed : R → PinStatus R

pub data GateCheck (R : Type 0) : Type 0 where
  not_gated hold pass : GateCheck R
  fail : R → GateCheck R

abbrev pub PinGate : Type 0 → Type 0
PinGate R = BTreeMap ℕ (PinStatus R)

module _ {R : Type 0} where
  abbrev pub begin : PinGate R → ℕ → PinGate R
  begin gate handle = BTreeMap.insert gate handle pending

  abbrev pub finish_ok : PinGate R → ℕ → PinGate R
  finish_ok gate handle = BTreeMap.insert gate handle acknowledged

  abbrev pub finish_err : PinGate R → ℕ → R → PinGate R
  finish_err gate handle reason = BTreeMap.insert gate handle (failed reason)

  unfoldable pub check : PinGate R → ℕ → PinGate R × GateCheck R
  check gate handle = elim (BTreeMap.get gate handle) [
    | none ↦ (gate, not_gated)
    | some pending ↦ (gate, hold)
    | some acknowledged ↦ (BTreeMap.remove gate handle, pass)
    | some (failed reason) ↦ (gate, fail reason)
  ]

pub data GateOp (R : Type 0) : Type 0 where
  begun acked consulted : ℕ → GateOp R
  refused : ℕ → R → GateOp R

-- The calls that do not resolve or restart the pin of a handle.
abbrev pub LeavesOpen : {R : Type 0} → ℕ → GateOp R → Type 0
LeavesOpen handle (begun _) = Unit
LeavesOpen handle (acked h) = h ≢ handle
LeavesOpen handle (consulted _) = Unit
LeavesOpen handle (refused h _) = h ≢ handle

abbrev pub AllLeaveOpen : {R : Type 0} → ℕ → List (GateOp R) → Type 0
AllLeaveOpen handle [] = Unit
AllLeaveOpen handle (op ∷ ops) = LeavesOpen handle op × AllLeaveOpen handle ops

module _ {R : Type 0} where
  abbrev pub on_gate : PinGate R → GateOp R → PinGate R
  on_gate gate (begun handle) = begin gate handle
  on_gate gate (acked handle) = finish_ok gate handle
  on_gate gate (consulted handle) = (check gate handle).0
  on_gate gate (refused handle reason) = finish_err gate handle reason

  pub on_gate_all : PinGate R → List (GateOp R) → PinGate R
  on_gate_all gate [] = gate
  on_gate_all gate (op ∷ ops) = on_gate_all (on_gate gate op) ops

  on_gate-pending :
      (gate : PinGate R) (handle : ℕ) (op : GateOp R)
      → LeavesOpen handle op
      → BTreeMap.get gate handle ≡ some pending
      → BTreeMap.get (on_gate gate op) handle ≡ some pending
  unfolding check
  on_gate-pending gate handle (begun h) o p = grind (arith, get-insert, nat_beq_iff)
  on_gate-pending gate handle (acked h) o p = grind (arith, get-insert, nat_beq_iff)
  on_gate-pending gate handle (consulted h) o p = grind (arith, get-remove, nat_beq_iff)
  on_gate-pending gate handle (refused h r) o p = grind (arith, get-insert, nat_beq_iff)

  all-pending :
      (gate : PinGate R) (handle : ℕ) (ops : List (GateOp R))
      → AllLeaveOpen handle ops
      → BTreeMap.get gate handle ≡ some pending
      → BTreeMap.get (on_gate_all gate ops) handle ≡ some pending
  unfolding on_gate_all
  all-pending gate handle [] o p = p
  all-pending gate handle (op ∷ ops) o p =
      all-pending (on_gate gate op) handle ops o.1 (on_gate-pending gate handle op o.0 p)

  -- No reply before its pin resolves. Once a write is gated, whatever calls follow that do not
  -- resolve its own pin (other writes begun, resolved or failed, any replies consulted), its reply
  -- is held.
  pub unresolved_reply_is_held :
      (gate : PinGate R) (handle : ℕ) (ops : List (GateOp R))
      → AllLeaveOpen handle ops
      → (check (on_gate_all (begin gate handle) ops) handle).1 ≡ hold
  unfolding check
  unresolved_reply_is_held gate handle ops o =
      let p = all-pending (begin gate handle) handle ops o (
        ground
          (arith, get-insert gate handle pending handle, (nat_beq_iff handle handle).1 refl)) in
      ground arith

pub data PinFailure : Type 0 where
  fatal session no_quorum : PinFailure

pub classify_pin_error : {E : Type 0} → ClientError E → PinFailure
classify_pin_error (rpc unavailable) = no_quorum
classify_pin_error (rpc _) = fatal
classify_pin_error (io _) = session
classify_pin_error connection_closed = session
classify_pin_error (other _) = fatal

abbrev pub GetAnswer : Type 0 → Type 0
GetAnswer E = Option (Result (Commitment × Version) (ClientError E))

abbrev pub PinAnswer : Type 0 → Type 0
PinAnswer E = Option (Result Version (ClientError E))

unfoldable pub disambiguate_conflict :
    {E : Type 0} → Commitment → GetAnswer E → Result Version PinFailure
disambiguate_conflict commitment none = err session
disambiguate_conflict commitment (some (err e)) = err (classify_pin_error e)
disambiguate_conflict commitment (some (ok (current, version))) =
    if current == commitment then ok version else err fatal

-- The version that the next pin expects, where the attempt succeeds.
pub pin_once_on :
    {E : Type 0} → Version → Commitment → PinAnswer E → GetAnswer E → Result Version PinFailure
pin_once_on expected commitment none get = err session
pin_once_on expected commitment (some (ok version)) get =
    if version == next_version expected then ok version else err fatal
pin_once_on expected commitment (some (err (rpc not_found))) get = err fatal
pin_once_on expected commitment (some (err (rpc version_conflict))) get =
    disambiguate_conflict commitment get
pin_once_on expected commitment (some (err e)) get = err (classify_pin_error e)

-- A pin is reported as durable exactly when the synchronizer acknowledged the version after the
-- expected one, or refused with a version conflict and then answered a `Get` with the very
-- commitment being pinned, at the version that is expected from then on.
pub pin_once_on_iff :
    {E : Type 0} (expected : Version) (commitment : Commitment) (pin : PinAnswer E)
    (get : GetAnswer E) (v : Version)
    → (pin_once_on expected commitment pin get ≡ ok v) ↔ (
        ((pin ≡ some (ok v)) × (v ≡ next_version expected))
        ⊎ ((pin ≡ some (err (rpc version_conflict))) × (get ≡ some (ok (commitment, v)))))
unfolding pin_once_on disambiguate_conflict
pin_once_on_iff expected commitment none get v = ground arith
pin_once_on_iff expected commitment (some (ok w)) get v = ground arith
pin_once_on_iff expected commitment (some (err (rpc not_found))) get v = ground arith
pin_once_on_iff expected commitment (some (err (rpc version_conflict))) none v = ground arith
pin_once_on_iff expected commitment (some (err (rpc version_conflict))) (some (err e)) v =
    ground arith
pin_once_on_iff expected commitment (some (err (rpc version_conflict))) (some (ok (current, w))) v =
    ground arith
pin_once_on_iff expected commitment (some (err e)) get v = ground arith
