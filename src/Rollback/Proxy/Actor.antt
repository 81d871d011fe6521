-- ===== src/Rollback/Proxy/Actor.antt =====
-- What pin_actor of nbd-client/src/rollback.rs does leaves a gated write waiting, or acknowledges it.
use enclavia.Rollback.Proxy.Steps.{queue_cases, still}
use enclavia.Base.{
  ℕ, suc, ◌≡◌, refl, subst, ◌==◌, ◌⊎◌, ok, arith, Bool-cases, Result-cases, inl, inr,
}
use enclavia.Base.Bytes.{Bytes}
use enclavia.Base.Key.{nat_key, nat_beq_iff}
use enclavia.Base.BTreeMap.{get-insert}
use enclavia.Machine.{Commitment}
use enclavia.Rollback.{commit}
use enclavia.Rollback.Pin.{PinGate, acknowledged, failed, finish_ok, finish_err}
use enclavia.Rollback.Proxy.{Pinner, receiving, pinning, stopped, Proxy, receive_job, pin_actor}
use enclavia.Rollback.Proxy.Held.{
  AllOf, OfJob, OfActor, Unreleased, IsAcknowledged, insert-Unreleased,
}
use enclavia.Rollback.Proxy.Requests.{Waits, Keeps, actor_cases}

module _ {P R : Type 0} (p : Pinner P R) (sha256 : Bytes → Commitment) (data_offset : ℕ)
    (handle : ℕ) (c : Commitment) where
  abbrev Waiting : Proxy P R → Type 0
  Waiting = Waits p sha256 data_offset handle c

  abbrev Kept : Proxy P R → Proxy P R → Type 0
  Kept = Keeps p sha256 data_offset handle c

  abbrev Open : PinGate R → Type 0
  Open = Unreleased p sha256 data_offset handle

  abbrev Acknowledged : Proxy P R → Type 0
  Acknowledged = IsAcknowledged p sha256 data_offset handle c

  pub receive_holds : (st : Proxy P R) → Waiting st → Kept st (receive_job p sha256 data_offset st)
  unfolding receive_job
  receive_holds st w =
      let end = receive_job p sha256 data_offset st in
      elim (actor_cases st.actor) [
        | inr (inl (job, pins)) ↦
            still p sha256 data_offset handle c st st end w refl (ground arith)
        | inr (inr gone) ↦ still p sha256 data_offset handle c st st end w refl (ground arith)
        | inl waits ↦ elim (queue_cases st.queue) [
          | inl nothing ↦ still p sha256 data_offset handle c st st end w refl (ground arith)
          | inr (job, jobs, taken) ↦
              let all = subst (AllOf handle c) taken w.queued in
              let st2 = record st { actor = pinning job; queue = jobs } in
              let waiting : Waiting st2 = record {
                gated = w.gated;
                not_a_read = w.not_a_read;
                capture = w.capture;
                queued = all.1;
                actor = all.0;
                pump = w.pump;
              } in
              still p sha256 data_offset handle c st st2 end waiting refl (ground arith)
        ]
      ]

  -- The write when the pin of a job fails: its own gate is marked failed, another's is not its own.
  refused_gate :
      (gate : PinGate R) (h : ℕ) (reason : R) → Open gate → Open (finish_err gate h reason)
  refused_gate gate h reason u = elim (Bool-cases (h == handle)) [
    | inl ours ↦ inr (reason, grind (arith, get-insert, nat_beq_iff))
    | inr another ↦
        insert-Unreleased p sha256 data_offset handle c gate h (failed reason)
          (λ same. ground (arith, nat_beq_iff h handle)) u
  ]

  pub pin_holds :
      (st : Proxy P R) → Waiting st → Kept st (pin_actor p sha256 data_offset st) ⊎ Acknowledged st
  unfolding pin_actor
  pin_holds st w =
      let end = pin_actor p sha256 data_offset st in
      elim (actor_cases st.actor) [
        | inl waits ↦ inl (still p sha256 data_offset handle c st st end w refl (ground arith))
        | inr (inr gone) ↦ inl (still p sha256 data_offset handle c st st end w refl (ground arith))
        | inr (inl (job, pins)) ↦
            let after = (p.pin st.pinner job.commitment).0 in
            let of_job : OfJob p sha256 data_offset handle c job =
              subst (OfActor p sha256 data_offset handle c) pins w.actor in
            elim (Result-cases (p.pin st.pinner job.commitment).1) [
              | inr (reason, refused) ↦
                  let st2 = record st {
                    pinner = after;
                    gate = finish_err st.gate job.handle reason;
                    nudges = suc st.nudges;
                    actor = stopped;
                  } in
                  let waiting : Waiting st2 = record {
                    gated = refused_gate st.gate job.handle reason w.gated;
                    not_a_read = w.not_a_read;
                    capture = w.capture;
                    queued = w.queued;
                    actor = tt;
                    pump = w.pump;
                  } in
                  inl (still p sha256 data_offset handle c st st2 end waiting refl (ground arith))
              | inl (_, pinned) ↦ elim (Bool-cases (job.handle == handle)) [
                | inl ours ↦
                    let same = (nat_beq_iff job.handle handle).0 ours in
                    inr (record {
                      job = job;
                      submitted = pins;
                      of_handle = same;
                      of_commitment = of_job same;
                      acknowledged =
                          subst (λ d. (p.pin st.pinner d).1 ≡ ok tt) (of_job same) pinned;
                    })
                | inr another ↦
                    let st2 = record st {
                      pinner = after;
                      watch = commit st.watch job.handle;
                      gate = finish_ok st.gate job.handle;
                      nudges = suc st.nudges;
                      actor = receiving;
                    } in
                    let waiting : Waiting st2 = record {
                      gated =
                          insert-Unreleased p sha256 data_offset handle c st.gate job.handle
                            acknowledged (λ same. ground (arith, nat_beq_iff job.handle handle))
                            w.gated;
                      not_a_read = w.not_a_read;
                      capture = w.capture;
                      queued = w.queued;
                      actor = tt;
                      pump = w.pump;
                    } in
                    inl (still p sha256 data_offset handle c st st2 end waiting refl (ground arith))
              ]
            ]
      ]
