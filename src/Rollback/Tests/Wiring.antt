-- ===== src/Rollback/Tests/Wiring.antt =====
-- The retries of a pin and the wiring of the client at concrete runs.
use enclavia.Rollback.Retry.Terminates.{Acknowledged, IsMonotone, pin_with_retries_lem}
use enclavia.Rollback.Retry.{Clock, PinAttempt, PinError, budget_spent, pin_loop, pin_with_retries}
use enclavia.Rollback.Proxy.{
  Event, Pinner, Proxy, Reply, awaiting, captured, flush_stashed, flushed, gated_reply,
  gated_reply_proxy, idle, job_received, nudge, nudged, payload_forwarded, pin_actor, pin_answered,
  pin_failed, queue_pin, receive_job, receiving, replied, run, stopped,
}
use enclavia.Rollback.Proxy.Held.{IsDurable, IsWaiting, replies_of}
use enclavia.Rollback.{commit}
use enclavia.Rollback.Proxy.Durable.{reply_waits_for_its_pin}
use enclavia.Base.{
  ℕ, ◌+◌, ◌≡◌, refl, true, leb, if◌then◌else◌, ◌⊎◌, some, List, [], ◌∷◌, ◌++◌, Result, ok, err,
  arith, inl,
}
use enclavia.Base.Bytes.{Bytes}
use enclavia.Base.Key.{nat_key}
use enclavia.Base.BTreeMap
use enclavia.Machine.{Commitment}
use enclavia.Rollback.{watching, begin_pending}
use enclavia.Rollback.Pin.{no_quorum, begin, finish_err, check}

-- An oracle without a quorum for ten seconds. The state is the clock.
abbrev recovering : PinAttempt ℕ
recovering = record {
  pin_once = λ t c. (t, if leb 10000 t then ok tt else err no_quorum);
  can_reconnect = λ t. true;
  reconnect_session = λ t. (t, ok tt);
}

abbrev clock : Clock ℕ
clock = record { now = λ t. t; sleep = λ t d. t + d }

clock-IsMonotone : IsMonotone recovering clock
clock-IsMonotone = record {
  sleeps = λ s d. omega arith;
  pins = λ s c. omega arith;
  dials = λ s. omega arith;
}

pin_with_retries_lem_example :
    (r : Result (Unit {0}) PinError) × ((pin_with_retries recovering clock 0 7).1 ≡ some r)
    × (r ≡ ok tt → Acknowledged recovering clock 7 (pin_with_retries recovering clock 0 7).0)
pin_with_retries_lem_example = pin_with_retries_lem recovering clock 0 7 clock-IsMonotone

recovered : pin_with_retries recovering clock 0 7 ≡ (10000, some (ok tt))
unfolding pin_with_retries pin_loop
recovered = refl

-- An oracle that never recovers: the budget of five minutes is spent.
abbrev lost : PinAttempt ℕ
lost = record {
  pin_once = λ t c. (t, err no_quorum);
  can_reconnect = λ t. true;
  reconnect_session = λ t. (t, ok tt);
}

given_up : pin_with_retries lost clock 0 7 ≡ (298000, some (err budget_spent))
unfolding pin_with_retries pin_loop
given_up = refl

-- The state of a pinner counts its pins.
abbrev acknowledging : Pinner ℕ ℕ
acknowledging = record { pin = λ pins c. (pins + 1, ok tt) }

abbrev refusing : Pinner ℕ ℕ
refusing = record { pin = λ pins c. (pins + 1, err 13) }

-- The commitment of a region is its first byte.
abbrev sha256 : Bytes → Commitment
sha256 [] = 0
sha256 (b ∷ _) = b

-- The region of the write 50, with the commitment 9, has passed.
abbrev gated : Proxy ℕ ℕ
gated = record {
  pinner = 0;
  inflight = [];
  gate = begin [] 50;
  watch = begin_pending (watching 7) 50 9;
  stashed = [];
  capture = captured (record { handle = 50; commitment = 9 });
  queue = [];
  actor = receiving;
  nudges = 0;
  pump = awaiting;
  delivered = [];
}

abbrev fine : ℕ → Reply
fine handle = record { error = 0; handle = handle }

-- Its reply arrives early, its pin is submitted and fails, and another reply is delivered.
abbrev early : List Event
early = replied (fine 50) ∷ payload_forwarded ∷ job_received ∷ pin_answered ∷ replied (fine 60) ∷ []

abbrev after_early : Proxy ℕ ℕ
after_early = record gated {
  pinner = 1;
  gate = finish_err (begin [] 50) 50 13;
  stashed = (50, fine 50) ∷ [];
  capture = idle;
  actor = stopped;
  nudges = 1;
  delivered = 60 ∷ [];
}

gated-IsWaiting : IsWaiting refusing sha256 0 50 9 gated
unfolding begin_pending BTreeMap.get BTreeMap.insert
gated-IsWaiting = record {
  gated = inl refl;
  not_a_read = refl;
  capture = λ _. refl;
  queued = tt;
  actor = tt;
  pump = tt;
}

early-runs : run refusing sha256 0 gated early ≡ ok after_early
unfolding run gated_reply_proxy gated_reply queue_pin receive_job pin_actor check BTreeMap.get
    BTreeMap.insert BTreeMap.remove begin_pending
early-runs = refl

reply_waits_for_its_pin_example :
    (IsWaiting refusing sha256 0 50 9 after_early
      × (replies_of 50 after_early.delivered ≡ replies_of 50 gated.delivered))
    ⊎ IsDurable refusing sha256 0 50 9 gated early
reply_waits_for_its_pin_example =
    reply_waits_for_its_pin refusing sha256 0 50 9 gated after_early early gated-IsWaiting
      (tt, (tt, (tt, (tt, (tt, tt))))) early-runs

-- The failed pin's nudge makes the pump find the failure.
refused_pin : run refusing sha256 0 after_early (nudged ∷ flushed ∷ []) ≡ err (pin_failed 13)
unfolding run nudge flush_stashed check BTreeMap.get BTreeMap.insert begin_pending
refused_pin = refl

-- A pin that is acknowledged releases the parked reply.
released :
    run acknowledging sha256 0 gated (early ++ (nudged ∷ flushed ∷ flushed ∷ []))
    ≡ ok (record gated {
      pinner = 1;
      gate = [];
      watch = commit (begin_pending (watching 7) 50 9) 50;
      capture = idle;
      delivered = 60 ∷ 50 ∷ [];
    })
unfolding run gated_reply_proxy gated_reply queue_pin receive_job pin_actor nudge flush_stashed
    check BTreeMap.get BTreeMap.insert BTreeMap.remove begin_pending commit
released = refl
