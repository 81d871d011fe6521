-- ===== src/Rollback/Proxy.antt =====
-- The wiring of the NBD client: `request_proxy` of nbd-client/src/main.rs, and `pin_actor`,
-- `gated_reply_proxy` and `flush_stashed` of nbd-client/src/rollback.rs, which share the gate and the
-- watch. Each event is what one of these tasks does until it waits: for a request, a region, a reply,
-- the payload of a reply, a job, the answer to a pin, a nudge, or the bytes of a request or of a
-- released reply to be written. The region that a request or a reply carries is an argument of the
-- event; the bytes that only stream through are left out, and so are a bad magic number and the end
-- of a stream, which end the client. An error of the request proxy or of the
-- reply pump ends the run; an error of the pin actor stops the actor, and the others go on until the
-- client is torn down.
pub mod Held
pub mod Requests
pub mod Steps
pub mod Actor
pub mod Pump
pub mod Durable
use enclavia.Base.{
  ℕ, zero, suc, Bool, true, false, not, ◌==◌, if◌then◌else◌, Option, none, some, List, [], ◌∷◌,
  ◌++◌, Result, ok, err,
}
use enclavia.Base.Bytes.{Bytes}
use enclavia.Base.Key.{nat_key}
use enclavia.Base.BTreeMap
use enclavia.Base.BTreeMap.{BTreeMap}
use enclavia.Machine.{Commitment}
use enclavia.Rollback.{
  RegionWatch, SbOverlap, disjoint, partial, full, primary_sb_overlap, watch_read, begin_pending,
  commit, verify_read, drop_read,
}
use enclavia.Rollback.Pin.{
  PinGate, GateCheck, not_gated, hold, pass, fail, begin, finish_ok, finish_err, check,
}

-- The trait `Pinner`, with the reason of a failure.
pub record Pinner (P R : Type 0) : Type 0 where
  pub pin : P → Commitment → P × Result (Unit {0}) R

pub record PinJob : Type 0 where
  pub handle : ℕ
  pub commitment : Commitment

pub data NbdCommand : Type 0 where
  read write disc trim write_zeroes other_command : NbdCommand

pub record Request : Type 0 where
  pub command : NbdCommand
  pub handle : ℕ
  pub offset : ℕ
  pub length : ℕ

pub record Reply : Type 0 where
  pub error : ℕ
  pub handle : ℕ

pub data FatalError (R : Type 0) : Type 0 where
  partial_write unpinned_mutation region_mismatch gated_write_failed : FatalError R
  gate_entry_lost pin_actor_gone : FatalError R
  pin_failed : R → FatalError R

-- The payload of a gated write: none is forwarded, the region has not passed, or it has.
pub data Capture : Type 0 where
  idle : Capture
  capturing : (handle : ℕ) → Capture
  captured : PinJob → Capture

pub data PinActor : Type 0 where
  receiving : PinActor
  pinning : PinJob → PinActor
  stopped : PinActor

-- Where the reply pump is: it waits for a header or a nudge, it goes through parked handles, or it
-- reads the payload of a watched read.
pub data ReplyPump : Type 0 where
  awaiting : ReplyPump
  flushing : List ℕ → ReplyPump
  reading : Reply → ReplyPump

-- `queue` are the pins that the actor has not taken, `nudges` those that the pump has not, and
-- `delivered` the replies that the kernel was sent.
pub record Proxy (P R : Type 0) : Type 0 where
  pub pinner : P
  pub inflight : BTreeMap ℕ ℕ
  pub gate : PinGate R
  pub watch : RegionWatch
  pub stashed : BTreeMap ℕ Reply
  pub capture : Capture
  pub queue : List PinJob
  pub actor : PinActor
  pub nudges : ℕ
  pub pump : ReplyPump
  pub delivered : List ℕ

pub data Event : Type 0 where
  requested : Request → Event
  region_passed : (region : Bytes) → Event
  payload_forwarded job_received pin_answered nudged flushed : Event
  replied : Reply → Event
  payload_read : (region : Bytes) → Event

-- `stashed.keys()`
abbrev pub keys : BTreeMap ℕ Reply → List ℕ
keys [] = []
keys ((handle, reply) ∷ rest) = handle ∷ keys rest

module _ {P R : Type 0} (p : Pinner P R) (sha256 : Bytes → Commitment) (data_offset : ℕ) where
  abbrev Outcome : Type 0
  Outcome = Result (Proxy P R) (FatalError R)

  abbrev deliver : Proxy P R → ℕ → Proxy P R
  deliver st handle = record st { delivered = st.delivered ++ (handle ∷ []) }

  unfoldable pub on_read : Proxy P R → Request → SbOverlap → Outcome
  on_read st req overlap =
      let issued = BTreeMap.insert st.inflight req.handle req.length in
      elim overlap [
        | full payload_offset ↦
            ok (record st {
              inflight = issued;
              watch = watch_read st.watch req.handle payload_offset;
            })
        | disjoint ↦ ok (record st { inflight = issued })
        | partial ↦ ok (record st { inflight = issued })
      ]

  unfoldable pub on_write : Proxy P R → Request → SbOverlap → Outcome
  on_write st req disjoint = ok st
  on_write st req partial = err partial_write
  on_write st req (full payload_offset) =
      ok (record st { gate = begin st.gate req.handle; capture = capturing req.handle })

  unfoldable pub on_mutation : Proxy P R → SbOverlap → Outcome
  on_mutation st disjoint = ok st
  on_mutation st partial = err unpinned_mutation
  on_mutation st (full payload_offset) = err unpinned_mutation

  -- The header of a request, forwarded when it is not refused. The proxy takes the next one when it
  -- has forwarded the payload.
  unfoldable pub request : Proxy P R → Request → Outcome
  request st req =
      let overlap = primary_sb_overlap req.offset req.length data_offset in
      elim st.capture [
        | capturing _ ↦ ok st
        | captured _ ↦ ok st
        | idle ↦ elim req.command [
          | read ↦ on_read st req overlap
          | write ↦ on_write st req overlap
          | trim ↦ on_mutation st overlap
          | write_zeroes ↦ on_mutation st overlap
          | disc ↦ ok st
          | other_command ↦ ok st
        ]
      ]

  -- The region of a gated write has passed: its commitment is registered.
  unfoldable pub capture_region : Proxy P R → Bytes → Proxy P R
  capture_region st region = elim st.capture [
    | idle ↦ st
    | captured _ ↦ st
    | capturing handle ↦ record st {
      watch = begin_pending st.watch handle (sha256 region);
      capture = captured (record { handle = handle; commitment = sha256 region });
    }
  ]

  -- The payload of a gated write was forwarded: its pin is queued, unless the actor is gone.
  unfoldable pub queue_pin : Proxy P R → Outcome
  queue_pin st = elim st.capture [
    | idle ↦ ok st
    | capturing _ ↦ ok st
    | captured job ↦ elim st.actor [
      | stopped ↦ err pin_actor_gone
      | receiving ↦ ok (record st { capture = idle; queue = st.queue ++ (job ∷ []) })
      | pinning _ ↦ ok (record st { capture = idle; queue = st.queue ++ (job ∷ []) })
    ]
  ]

  -- `pin_actor` takes a job, and submits its pin.
  unfoldable pub receive_job : Proxy P R → Proxy P R
  receive_job st = elim st.actor [
    | pinning _ ↦ st
    | stopped ↦ st
    | receiving ↦ elim st.queue [
      | [] ↦ st
      | job ∷ jobs ↦ record st { actor = pinning job; queue = jobs }
    ]
  ]

  -- `pin_actor` when its pin is answered: a failure marks the gate, wakes the pump and ends it.
  unfoldable pub pin_actor : Proxy P R → Proxy P R
  pin_actor st = elim st.actor [
    | receiving ↦ st
    | stopped ↦ st
    | pinning job ↦
        let (pinner, answer) = p.pin st.pinner job.commitment in
        elim answer [
          | ok _ ↦ record st {
            pinner = pinner;
            watch = commit st.watch job.handle;
            gate = finish_ok st.gate job.handle;
            nudges = suc st.nudges;
            actor = receiving;
          }
          | err reason ↦ record st {
            pinner = pinner;
            gate = finish_err st.gate job.handle reason;
            nudges = suc st.nudges;
            actor = stopped;
          }
        ]
  ]

  -- A nudge starts `flush_stashed`, over the handles that are parked then.
  unfoldable pub nudge : Proxy P R → Proxy P R
  nudge st = elim st.pump [
    | flushing _ ↦ st
    | reading _ ↦ st
    | awaiting ↦ elim st.nudges [
      | zero ↦ st
      | suc n ↦ record st { nudges = n; pump = flushing (keys st.stashed) }
    ]
  ]

  -- One round of the loop of `flush_stashed`.
  unfoldable pub flush_stashed : Proxy P R → Outcome
  flush_stashed st = elim st.pump [
    | awaiting ↦ ok st
    | reading _ ↦ ok st
    | flushing [] ↦ ok (record st { pump = awaiting })
    | flushing (handle ∷ handles) ↦
        let (gate, status) = check st.gate handle in
        let rest = record st { gate = gate; pump = flushing handles } in
        elim status [
          | hold ↦ ok rest
          | pass ↦ ok (deliver (record rest { stashed = BTreeMap.remove st.stashed handle }) handle)
          | fail reason ↦ err (pin_failed reason)
          | not_gated ↦ err gate_entry_lost
        ]
  ]

  -- A reply to a request that is not a read.
  unfoldable pub gated_reply : Proxy P R → Reply → Outcome
  gated_reply st reply =
      let (gate, status) = check st.gate reply.handle in
      elim status [
        | not_gated ↦ ok (deliver (record st { gate = gate }) reply.handle)
        | pass ↦ elim (reply.error == 0) [
          | false ↦ err gated_write_failed
          | true ↦ ok (deliver (record st { gate = gate }) reply.handle)
        ]
        | hold ↦ elim (reply.error == 0) [
          | false ↦ err gated_write_failed
          | true ↦
              ok
                (record st { gate = gate; stashed = BTreeMap.insert st.stashed reply.handle reply })
        ]
        | fail reason ↦ err (pin_failed reason)
      ]

  -- The header of a read's reply: of a watched read, the payload is read before it is forwarded.
  unfoldable pub read_reply : Proxy P R → Reply → Proxy P R
  read_reply st reply = elim (BTreeMap.get st.watch.reads reply.handle) [
    | none ↦ deliver st reply.handle
    | some _ ↦ elim (reply.error == 0) [
      | false ↦ deliver (record st { watch = drop_read st.watch reply.handle }) reply.handle
      | true ↦ record st { pump = reading reply }
    ]
  ]

  -- The header of a reply, which the pump takes when it is idle.
  unfoldable pub gated_reply_proxy : Proxy P R → Reply → Outcome
  gated_reply_proxy st reply =
      let taken = record st { inflight = BTreeMap.remove st.inflight reply.handle } in
      elim st.pump [
        | flushing _ ↦ ok st
        | reading _ ↦ ok st
        | awaiting ↦ elim (BTreeMap.get st.inflight reply.handle) [
          | some _ ↦ ok (read_reply taken reply)
          | none ↦ gated_reply taken reply
        ]
      ]

  -- The payload of a watched read.
  unfoldable pub verify_payload : Proxy P R → Bytes → Outcome
  verify_payload st region = elim st.pump [
    | awaiting ↦ ok st
    | flushing _ ↦ ok st
    | reading reply ↦
        let (watch, fresh) = verify_read sha256 st.watch reply.handle region in
        elim fresh [
          | false ↦ err region_mismatch
          | true ↦ ok (deliver (record st { watch = watch; pump = awaiting }) reply.handle)
        ]
  ]

  abbrev pub on_event : Proxy P R → Event → Outcome
  on_event st (requested req) = request st req
  on_event st (region_passed region) = ok (capture_region st region)
  on_event st payload_forwarded = queue_pin st
  on_event st job_received = ok (receive_job st)
  on_event st pin_answered = ok (pin_actor st)
  on_event st nudged = ok (nudge st)
  on_event st flushed = flush_stashed st
  on_event st (replied reply) = gated_reply_proxy st reply
  on_event st (payload_read region) = verify_payload st region

  unfoldable pub run : Proxy P R → List Event → Outcome
  run st [] = ok st
  run st (e ∷ es) = elim (on_event st e) [ ok st' ↦ run st' es | err f ↦ err f ]
