-- ===== src/Rollback/Retry/Terminates.antt =====
-- The loop of `pin_with_retries` in nbd-client/src/rollback.rs ends within its two budgets.
use enclavia.Base.{
  ℕ, zero, suc, ◌+◌, ◌*◌, ◌-◌, ◌≤◌, ◌<◌, ◌≡◌, refl, ap, ◌∙◌, false, leb, Option, none, some, Result,
  ok, err, arith, Bool-cases, Result-cases, inl, inr, ◌⊎◌,
}
use enclavia.Machine.{Commitment}
use enclavia.Rollback.Pin.{PinFailure, fatal, session, no_quorum}
use enclavia.Rollback.Retry.{
  PinAttempt, Clock, PinError, fatal_answer, no_reconnector, budget_spent, re_establish,
  unavailable_deadline, pin_loop, pin_with_retries, sync_reconnect_attempts, sync_reconnect_backoff,
  sync_unavailable_budget, sync_unavailable_backoff,
}

answer_cases :
    (r : Result (Unit {0}) PinFailure)
    → (r ≡ ok tt) ⊎ ((r ≡ err fatal) ⊎ ((r ≡ err session) ⊎ (r ≡ err no_quorum)))
answer_cases (ok u) = inl refl
answer_cases (err fatal) = inr (inl refl)
answer_cases (err session) = inr (inr (inl refl))
answer_cases (err no_quorum) = inr (inr (inr refl))

module _ {S : Type 0} (pinner : PinAttempt S) (clock : Clock S) where
  open pinner use {pin_once, can_reconnect, reconnect_session}
  open clock use {now, sleep}

  -- The clock is monotone, and a sleep lasts at least as long as asked for.
  pub record IsMonotone : Type 0 where
    pub sleeps : (s : S) (d : ℕ) → now s + d ≤ now (sleep s d)
    pub pins : (s : S) (c : Commitment) → now s ≤ now (pin_once s c).0
    pub dials : (s : S) → now s ≤ now (reconnect_session s).0

  module _ (m : IsMonotone) where
    -- A re-establishment uses up at least one attempt.
    re_established :
        (left : ℕ) (s : S) (still_left : ℕ)
        → (re_establish pinner clock left s).1 ≡ ok still_left
        → (still_left < left) × (now s ≤ now (re_establish pinner clock left s).0)
    unfolding re_establish
    re_established zero s still_left h = ground arith
    re_established (suc left) s still_left h =
        let t = sleep s sync_reconnect_backoff in
        let u = (reconnect_session t).0 in
        let slept = m.sleeps s sync_reconnect_backoff in
        let dialled = m.dials t in
        elim (answer_cases (reconnect_session t).1) [
          | inl done ↦ ground arith
          | inr (inl refused) ↦ ground arith
          | inr (inr (inl dropped)) ↦ ground (arith, re_established left u still_left)
          | inr (inr (inr busy)) ↦ ground (arith, re_established left u still_left)
        ]

    -- What is left of the time budget.
    remaining : S → Option ℕ → ℕ
    remaining s none = sync_unavailable_budget
    remaining s (some deadline) = deadline - now s

    remaining-later :
        (s t : S) (deadline : Option ℕ)
        → now s ≤ now t
        → remaining t deadline ≤ remaining s deadline
    unfolding remaining
    remaining-later s t none h = omega arith
    remaining-later s t (some d) h = omega arith

    -- A round that waits for a quorum uses up the pause.
    remaining-waited :
        (s t u : S) (deadline : Option ℕ)
        → now s ≤ now t
        → now t + sync_unavailable_backoff ≤ now u
        → leb (unavailable_deadline pinner clock t deadline) (now t + sync_unavailable_backoff)
          ≡ false
        → remaining u (some (unavailable_deadline pinner clock t deadline))
            + sync_unavailable_backoff
          ≤ remaining s deadline
    unfolding remaining
    remaining-waited s t u none h k w = grind arith
    remaining-waited s t u (some d) h k w = grind arith

    Ends : Commitment → ℕ → S → ℕ → Option ℕ → Type 0
    Ends commitment fuel s left deadline =
        (r : Result (Unit {0}) PinError) × ((pin_loop pinner clock commitment fuel s left
            deadline).1
          ≡ some r)

    -- Each round uses up a pause of the time budget, or an attempt.
    loop-Ends :
        (commitment : Commitment) (fuel : ℕ) (s : S) (left : ℕ) (deadline : Option ℕ)
        → left * sync_unavailable_backoff + remaining s deadline < fuel * sync_unavailable_backoff
        → Ends commitment fuel s left deadline
    unfolding pin_loop Ends
    loop-Ends commitment zero s left deadline h = absurd (omega arith)
    loop-Ends commitment (suc fuel) s left deadline h =
        let t = (pin_once s commitment).0 in
        let pinned = m.pins s commitment in
        elim (answer_cases (pin_once s commitment).1) [
          | inl done ↦ (ok tt, ground arith)
          | inr (inl refused) ↦ (err fatal_answer, ground arith)
          | inr (inr (inl dropped)) ↦ elim (Bool-cases (can_reconnect t)) [
            | inr fixed ↦ (err no_reconnector, ground arith)
            | inl can ↦ elim (Result-cases (re_establish pinner clock left t).1) [
              | inr (e, failed) ↦ (err e, ground arith)
              | inl (still_left, established) ↦
                  let u = (re_establish pinner clock left t).0 in
                  let (less, dialled) = re_established left t still_left established in
                  let kept = remaining-later s u deadline (omega arith) in
                  let (r, e) = loop-Ends commitment fuel u still_left deadline (omega arith) in
                  (r, ground arith)
            ]
          ]
          | inr (inr (inr busy)) ↦
              elim (Bool-cases (
                leb (unavailable_deadline pinner clock t deadline)
                  (now t + sync_unavailable_backoff))) [
                    | inl late ↦ (err budget_spent, ground arith)
                    | inr early ↦
                        let u = sleep t sync_unavailable_backoff in
                        let waited =
                          remaining-waited s t u deadline pinned
                            (m.sleeps t sync_unavailable_backoff) early in
                        let (r, e) =
                          loop-Ends commitment fuel u left
                            (some (unavailable_deadline pinner clock t deadline)) (omega arith) in
                        (r, ground arith)
                  ]
        ]

  -- The last attempt succeeded, and left the session as it is.
  abbrev pub Acknowledged : Commitment → S → Type 0
  Acknowledged commitment t =
      (s : S) × ((pin_once s commitment).1 ≡ ok tt) × ((pin_once s commitment).0 ≡ t)

  loop-Acknowledged :
      (commitment : Commitment) (fuel : ℕ) (s : S) (left : ℕ) (deadline : Option ℕ)
      → (pin_loop pinner clock commitment fuel s left deadline).1 ≡ some (ok tt)
      → Acknowledged commitment (pin_loop pinner clock commitment fuel s left deadline).0
  unfolding pin_loop
  loop-Acknowledged commitment zero s left deadline h = ground arith
  loop-Acknowledged commitment (suc fuel) s left deadline h =
      let t = (pin_once s commitment).0 in
      elim (answer_cases (pin_once s commitment).1) [
        | inl done ↦ (s, done, ground arith)
        | inr (inl refused) ↦ ground arith
        | inr (inr (inl dropped)) ↦ elim (Bool-cases (can_reconnect t)) [
          | inr fixed ↦ ground arith
          | inl can ↦ elim (Result-cases (re_establish pinner clock left t).1) [
            | inr (e, failed) ↦ ground arith
            | inl (still_left, established) ↦
                let u = (re_establish pinner clock left t).0 in
                let (w, p, q) =
                  loop-Acknowledged commitment fuel u still_left deadline (ground arith) in
                (w, p, ground arith)
          ]
        ]
        | inr (inr (inr busy)) ↦
            elim (Bool-cases (
              leb (unavailable_deadline pinner clock t deadline)
                (now t + sync_unavailable_backoff))) [
                  | inl late ↦ ground arith
                  | inr early ↦
                      let u = sleep t sync_unavailable_backoff in
                      let (w, p, q) =
                        loop-Acknowledged commitment fuel u left
                          (some (unavailable_deadline pinner clock t deadline)) (ground arith) in
                      (w, p, ground arith)
                ]
      ]

  -- The retries end: on a monotone clock whose sleeps last as long as asked for, the loop returns
  -- within its rounds, whatever the attempts and the re-establishments answer; and it returns
  -- success only from an attempt that succeeded, with the session as that attempt left it.
  pub pin_with_retries_lem :
      (s : S) (commitment : Commitment)
      → IsMonotone
      → (r : Result (Unit {0}) PinError) × ((pin_with_retries pinner clock s commitment).1 ≡ some r)
        × (r ≡ ok tt → Acknowledged commitment (pin_with_retries pinner clock s commitment).0)
  unfolding pin_with_retries Ends remaining
  pin_with_retries_lem s commitment m =
      let (r, e) = loop-Ends m commitment 154 s sync_reconnect_attempts none (omega arith) in
      (
        r,
        e,
        λ success.
            loop-Acknowledged commitment 154 s sync_reconnect_attempts none (e ∙ ap some success),
      )
