-- ===== src/Rollback/Proxy/Durable.antt =====
-- A reply of a gated write reaches the kernel only after its pin, in any run of the tasks of
-- nbd-client/src/rollback.rs and of request_proxy of nbd-client/src/main.rs.
use enclavia.Rollback.Proxy.{FatalError}
use enclavia.Base.{Result}
use enclavia.Rollback.Proxy.Pump.{flush_holds, nudge_holds, payload_holds, reply_holds}
use enclavia.Rollback.Proxy.Actor.{pin_holds, receive_holds}
use enclavia.Rollback.Proxy.Steps.{still}
use enclavia.Base.{
  ℕ, ◌≡◌, refl, ap, subst, ◌∙◌, ◌⊎◌, List, [], ◌∷◌, ok, arith, Result-cases, inl, inr,
}
use enclavia.Base.Bytes.{Bytes}
use enclavia.Base.Key.{nat_key}
use enclavia.Machine.{Commitment}
use enclavia.Rollback.Proxy.{
  Pinner, Proxy, Event, requested, region_passed, payload_forwarded, job_received, pin_answered,
  nudged, flushed, replied, payload_read, capture_region, receive_job, pin_actor, nudge, on_event,
  run,
}
use enclavia.Rollback.Proxy.Held.{
  replies_of, LeavesHandle, AllLeaveHandle, IsAcknowledged, IsDurable,
}
use enclavia.Rollback.Proxy.Requests.{Waits, Keeps, request_holds, capture_holds, queue_holds}

module _ {P R : Type 0} (p : Pinner P R) (sha256 : Bytes → Commitment) (data_offset : ℕ)
    (handle : ℕ) (c : Commitment) where
  abbrev Waiting : Proxy P R → Type 0
  Waiting = Waits p sha256 data_offset handle c

  abbrev Kept : Proxy P R → Proxy P R → Type 0
  Kept = Keeps p sha256 data_offset handle c

  abbrev Acknowledged : Proxy P R → Type 0
  Acknowledged = IsAcknowledged p sha256 data_offset handle c

  abbrev Durable : Proxy P R → List Event → Type 0
  Durable = IsDurable p sha256 data_offset handle c

  -- A step that does not fail.
  total_holds :
      (st st2 st' : Proxy P R)
      → Kept st st2
      → ◌≡◌ {A = Result (Proxy P R) (FatalError R)} (ok st2) (ok st')
      → Kept st st'
  total_holds st st2 st' k e = let same : st2 ≡ st' = ground arith in subst (Kept st) same k

  step_holds :
      (st st' : Proxy P R) (e : Event)
      → Waiting st
      → LeavesHandle p sha256 data_offset handle e
      → on_event p sha256 data_offset st e ≡ ok st'
      → Kept st st' ⊎ ((e ≡ pin_answered) × Acknowledged st)
  step_holds st st' (requested req) w l e =
      inl (request_holds p sha256 data_offset handle c st st' req w l e)
  step_holds st st' (region_passed region) w l e = inl (
      total_holds st (capture_region p sha256 data_offset st region) st'
        (capture_holds p sha256 data_offset handle c st region w) e)
  step_holds st st' payload_forwarded w l e =
      inl (queue_holds p sha256 data_offset handle c st st' w e)
  step_holds st st' job_received w l e = inl (
      total_holds st (receive_job p sha256 data_offset st) st'
        (receive_holds p sha256 data_offset handle c st w) e)
  step_holds st st' pin_answered w l e = elim (pin_holds p sha256 data_offset handle c st w) [
    | inl k ↦ inl (total_holds st (pin_actor p sha256 data_offset st) st' k e)
    | inr a ↦ inr (refl, a)
  ]
  step_holds st st' nudged w l e = inl (
      total_holds st (nudge p sha256 data_offset st) st'
        (nudge_holds p sha256 data_offset handle c st w) e)
  step_holds st st' flushed w l e = inl (flush_holds p sha256 data_offset handle c st st' w e)
  step_holds st st' (replied reply) w l e =
      inl (reply_holds p sha256 data_offset handle c st st' reply w e)
  step_holds st st' (payload_read region) w l e =
      inl (payload_holds p sha256 data_offset handle c st st' region w e)

  after_step :
      (st st2 : Proxy P R) (e : Event) (es : List Event) (end : Proxy P R)
      → on_event p sha256 data_offset st e ≡ ok st2
      → run p sha256 data_offset st2 es ≡ ok end
      → run p sha256 data_offset st (e ∷ es) ≡ ok end
  unfolding run
  after_step st st2 e es end stepped rest = ground arith

  -- A reply of a gated write waits for its pin. From when the region of a gated write, with the
  -- commitment `c`, has passed, whatever requests with other handles, replies, jobs, answers to pins
  -- and releases follow, for as long as no task but the pin actor fails, either the actor submitted
  -- a pin of `c` for the write and the synchronizer acknowledged it, or the write's pin is pending
  -- or has failed, and the kernel was sent no reply for it.
  pub reply_waits_for_its_pin :
      (st st' : Proxy P R) (es : List Event)
      → Waiting st
      → AllLeaveHandle p sha256 data_offset handle es
      → run p sha256 data_offset st es ≡ ok st'
      → (Waiting st' × (replies_of handle st'.delivered ≡ replies_of handle st.delivered))
        ⊎ Durable st es
  unfolding run
  reply_waits_for_its_pin st st' [] w l e =
      let k = still p sha256 data_offset handle c st st st' w refl (ground arith) in
      inl (k.waiting, k.silent)
  reply_waits_for_its_pin st st' (e ∷ es) w l r =
      elim (Result-cases (on_event p sha256 data_offset st e)) [
        | inr (x, crashed) ↦ ground arith
        | inl (st2, stepped) ↦ elim (step_holds st st2 e w l.0 stepped) [
          | inr (is_answer, a) ↦ inr (record {
            earlier = [];
            later = es;
            at = st;
            place = ap (λ x. x ∷ es) is_answer;
            reached = refl;
            pinned = a;
          })
          | inl k ↦ elim (reply_waits_for_its_pin st2 st' es k.waiting l.1 (ground arith)) [
            | inr d ↦ inr (record {
              earlier = e ∷ d.earlier;
              later = d.later;
              at = d.at;
              place = ap (λ xs. e ∷ xs) d.place;
              reached = after_step st st2 e d.earlier d.at stepped d.reached;
              pinned = d.pinned;
            })
            | inl (waiting, silent) ↦ inl (waiting, silent ∙ k.silent)
          ]
        ]
      ]
