-- ===== src/Rollback/Proxy/Held.antt =====
-- No reply of a gated write reaches the kernel before its pin is durable, whatever the tasks of
-- nbd-client/src/rollback.rs and request_proxy of nbd-client/src/main.rs do, in whatever order.
use enclavia.Base.{
  ℕ, suc, ◌≡◌, ◌≢◌, refl, sym, ap, subst, ◌∙◌, true, false, ◌==◌, ◌⊎◌, none, some, List, [], ◌∷◌,
  ◌++◌, ok, arith, inl, inr,
}
use enclavia.Base.Bytes.{Bytes}
use enclavia.Base.Key.{nat_key, nat_beq_iff}
use enclavia.Base.BTreeMap
use enclavia.Base.BTreeMap.{BTreeMap, get-insert, get-remove}
use enclavia.Machine.{Commitment}
use enclavia.Rollback.Pin.{
  PinGate, PinStatus, pending, failed, GateCheck, not_gated, hold, pass, fail, check,
}
use enclavia.Rollback.Proxy.{
  Pinner, PinJob, Capture, idle, capturing, captured, PinActor, receiving, pinning, stopped,
  ReplyPump, awaiting, flushing, reading, Proxy, Event, requested, pin_answered, run,
}

pub check_cases :
    {R : Type 0} (s : GateCheck R)
    → (s ≡ not_gated) ⊎ ((s ≡ hold) ⊎ ((s ≡ pass) ⊎ ((reason : R) × (s ≡ fail reason))))
check_cases not_gated = inl refl
check_cases hold = inr (inl refl)
check_cases pass = inr (inr (inl refl))
check_cases (fail reason) = inr (inr (inr (reason, refl)))

-- The queued pins of a handle are of one commitment.
abbrev pub AllOf : ℕ → Commitment → List PinJob → Type 0
AllOf handle c [] = Unit
AllOf handle c (job ∷ jobs) = (job.handle ≡ handle → job.commitment ≡ c) × AllOf handle c jobs

pub AllOf-append :
    (handle : ℕ) (c : Commitment) (jobs : List PinJob) (job : PinJob)
    → AllOf handle c jobs
    → (job.handle ≡ handle → job.commitment ≡ c)
    → AllOf handle c (jobs ++ (job ∷ []))
AllOf-append handle c [] job h k = (k, tt)
AllOf-append handle c (j ∷ jobs) job h k = (h.0, AllOf-append handle c jobs job h.1 k)

-- How many replies with a handle the kernel was sent.
unfoldable pub replies_of : ℕ → List ℕ → ℕ
replies_of handle [] = 0
replies_of handle (h ∷ hs) = elim (h == handle) [
  | true ↦ suc (replies_of handle hs)
  | false ↦ replies_of handle hs
]

pub replies_of-append :
    (handle : ℕ) (hs : List ℕ) (h : ℕ)
    → h ≢ handle
    → replies_of handle (hs ++ (h ∷ [])) ≡ replies_of handle hs
unfolding replies_of
replies_of-append handle [] h other = grind arith
replies_of-append handle (g ∷ hs) h other = grind (arith, replies_of-append handle hs h other)

module _ {P R : Type 0} (p : Pinner P R) (sha256 : Bytes → Commitment) (data_offset : ℕ) where
  abbrev pub OfJob : ℕ → Commitment → PinJob → Type 0
  OfJob handle c job = job.handle ≡ handle → job.commitment ≡ c

  abbrev pub OfCapture : ℕ → Commitment → Capture → Type 0
  OfCapture handle c idle = Unit
  OfCapture handle c (capturing h) = h ≢ handle
  OfCapture handle c (captured job) = OfJob handle c job

  abbrev pub OfActor : ℕ → Commitment → PinActor → Type 0
  OfActor handle c receiving = Unit
  OfActor handle c (pinning job) = OfJob handle c job
  OfActor handle c stopped = Unit

  abbrev pub OfPump : ℕ → ReplyPump → Type 0
  OfPump handle awaiting = Unit
  OfPump handle (flushing handles) = Unit
  OfPump handle (reading reply) = reply.handle ≢ handle

  -- The pin of the handle is in flight, or it failed.
  abbrev pub Unreleased : ℕ → PinGate R → Type 0
  Unreleased handle gate =
      (BTreeMap.get gate handle ≡ some pending)
      ⊎ ((reason : R) × (BTreeMap.get gate handle ≡ some (failed reason)))

  -- The write `handle`, whose region has the commitment `c`, waits for its pin, or its pin failed.
  pub record IsWaiting (handle : ℕ) (c : Commitment) (st : Proxy P R) : Type 0 where
    pub gated : Unreleased handle st.gate
    pub not_a_read : BTreeMap.get st.inflight handle ≡ none
    pub capture : OfCapture handle c st.capture
    pub queued : AllOf handle c st.queue
    pub actor : OfActor handle c st.actor
    pub pump : OfPump handle st.pump

  -- The kernel issues no other request with the handle.
  abbrev pub LeavesHandle : ℕ → Event → Type 0
  LeavesHandle handle (requested req) = req.handle ≢ handle
  LeavesHandle handle _ = Unit

  abbrev pub AllLeaveHandle : ℕ → List Event → Type 0
  AllLeaveHandle handle [] = Unit
  AllLeaveHandle handle (e ∷ es) = LeavesHandle handle e × AllLeaveHandle handle es

  -- The write still waits, and the kernel was sent no reply for it.
  pub record Holds (handle : ℕ) (c : Commitment) (st st' : Proxy P R) : Type 0 where
    pub waiting : IsWaiting handle c st'
    pub silent : replies_of handle st'.delivered ≡ replies_of handle st.delivered

  -- The pin that the actor waits for is of the write `handle`, and is acknowledged.
  pub record IsAcknowledged (handle : ℕ) (c : Commitment) (st : Proxy P R) : Type 0 where
    pub job : PinJob
    pub submitted : st.actor ≡ pinning job
    pub of_handle : job.handle ≡ handle
    pub of_commitment : job.commitment ≡ c
    pub acknowledged : (p.pin st.pinner c).1 ≡ ok tt

  -- In a run, the actor submitted the pin of the write and the synchronizer acknowledged it.
  pub record IsDurable (handle : ℕ) (c : Commitment) (st : Proxy P R) (es : List Event)
      : Type 0 where
    pub earlier : List Event
    pub later : List Event
    pub at : Proxy P R
    pub place : es ≡ earlier ++ (pin_answered ∷ later)
    pub reached : run p sha256 data_offset st earlier ≡ ok at
    pub pinned : IsAcknowledged handle c at

  module _ (handle : ℕ) (c : Commitment) where
    -- Looking at a handle does not release another, nor one that is not acknowledged.
    pub check-Unreleased :
        (gate : PinGate R) (h : ℕ) → Unreleased handle gate → Unreleased handle (check gate h).0
    unfolding check
    check-Unreleased gate h u = elim u [
      | inl e ↦ inl (grind (arith, get-remove, nat_beq_iff))
      | inr (reason, e) ↦ inr (reason, grind (arith, get-remove, nat_beq_iff))
    ]

    pub insert-Unreleased :
        (gate : PinGate R) (h : ℕ) (s : PinStatus R)
        → h ≢ handle
        → Unreleased handle gate
        → Unreleased handle (BTreeMap.insert gate h s)
    insert-Unreleased gate h s other u = elim u [
      | inl e ↦ inl (grind (arith, get-insert, nat_beq_iff))
      | inr (reason, e) ↦ inr (reason, grind (arith, get-insert, nat_beq_iff))
    ]

    check-own :
        (gate : PinGate R)
        → Unreleased handle gate
        → ((check gate handle).1 ≢ pass) × ((check gate handle).1 ≢ not_gated)
    unfolding check
    check-own gate u = elim u [
      | inl e ↦ (λ k. ground arith, λ k. ground arith)
      | inr (reason, e) ↦ (λ k. ground arith, λ k. ground arith)
    ]

    pub passed_is_other :
        (gate : PinGate R) (h : ℕ) → Unreleased handle gate → (check gate h).1 ≡ pass → h ≢ handle
    passed_is_other gate h u e same =
        (check-own gate u).0 (sym (ap (λ i. (check gate i).1) same) ∙ e)

    pub free_is_other :
        (gate : PinGate R) (h : ℕ)
        → Unreleased handle gate
        → (check gate h).1 ≡ not_gated
        → h ≢ handle
    free_is_other gate h u e same = (check-own gate u).1 (sym (ap (λ i. (check gate i).1) same) ∙ e)

    -- A step whose result is known to leave the write waiting.
    pub calm :
        (st st2 st' : Proxy P R)
        → IsWaiting handle c st2
        → replies_of handle st2.delivered ≡ replies_of handle st.delivered
        → st2 ≡ st'
        → Holds handle c st st'
    calm st st2 st' w silent same =
        subst (Holds handle c st) same (record { waiting = w; silent = silent })

    pub delivered_other :
        (st st2 st' : Proxy P R) (h : ℕ)
        → IsWaiting handle c st2
        → st2.delivered ≡ st.delivered ++ (h ∷ [])
        → h ≢ handle
        → st2 ≡ st'
        → Holds handle c st st'
    delivered_other st st2 st' h w d other same =
        calm st st2 st' w (ap (replies_of handle) d ∙ replies_of-append handle st.delivered h other)
          same

    -- Steps of the reply pump, which leave the pins as they are.
    pub relax :
        (st st2 : Proxy P R)
        → IsWaiting handle c st
        → Unreleased handle st2.gate
        → BTreeMap.get st2.inflight handle ≡ none
        → OfPump handle st2.pump
        → st2.capture ≡ st.capture
        → st2.queue ≡ st.queue
        → st2.actor ≡ st.actor
        → IsWaiting handle c st2
    relax st st2 w g i pump k q a = record {
      gated = g;
      not_a_read = i;
      capture = subst (OfCapture handle c) (sym k) w.capture;
      queued = subst (AllOf handle c) (sym q) w.queued;
      actor = subst (OfActor handle c) (sym a) w.actor;
      pump = pump;
    }
