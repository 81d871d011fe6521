-- ===== src/Rollback/Retry.antt =====
-- nbd-client/src/rollback.rs, `pin_with_retries`: the retries of one pin. The session is the
-- source's trait `PinAttempt`, on a state that also holds the clock (tokio's, in milliseconds):
-- each call answers with the state after it. The loops run on fuel, the inner one on the session
-- re-establishments that are left. An error's text is a constructor.
pub mod Terminates
use enclavia.Base.{
  ℕ, zero, suc, ◌+◌, ◌*◌, ◌-◌, ◌≤◌, ◌≡◌, refl, ◌∙◌, sym, ap, Bool, true, false, leb, Option, none,
  some, Result, ok, err, arith, Bool-cases, Option-cases, Result-cases, inl, inr,
}
use enclavia.Machine.{Commitment}
use enclavia.Rollback.Pin.{PinFailure, fatal, session, no_quorum}

abbrev pub sync_reconnect_attempts : ℕ
sync_reconnect_attempts = 3

abbrev pub sync_reconnect_backoff : ℕ
sync_reconnect_backoff = 2000

abbrev pub sync_unavailable_budget : ℕ
sync_unavailable_budget = 300000

abbrev pub sync_unavailable_backoff : ℕ
sync_unavailable_backoff = 2000

pub record PinAttempt (S : Type 0) : Type 0 where
  pub pin_once : S → Commitment → S × Result (Unit {0}) PinFailure
  pub can_reconnect : S → Bool
  pub reconnect_session : S → S × Result (Unit {0}) PinFailure

pub record Clock (S : Type 0) : Type 0 where
  pub now : S → ℕ
  pub sleep : S → ℕ → S

pub data PinError : Type 0 where
  fatal_answer no_reconnector reconnects_exhausted fatal_reconnect budget_spent : PinError

module _ {S : Type 0} (pinner : PinAttempt S) (clock : Clock S) where
  open pinner use {pin_once, can_reconnect, reconnect_session}
  open clock use {now, sleep}

  -- The inner loop: a dial that fails burns an attempt and is repeated. The result has the attempts
  -- that are left.
  unfoldable pub re_establish : ℕ → S → S × Result ℕ PinError
  re_establish zero s = (s, err reconnects_exhausted)
  re_establish (suc left) s =
      let (t, dialled) = reconnect_session (sleep s sync_reconnect_backoff) in
      elim dialled [
        | ok _ ↦ (t, ok left)
        | err fatal ↦ (t, err fatal_reconnect)
        | err session ↦ re_establish left t
        | err no_quorum ↦ re_establish left t
      ]

  -- `get_or_insert_with`
  abbrev pub unavailable_deadline : S → Option ℕ → ℕ
  unavailable_deadline s none = now s + sync_unavailable_budget
  unavailable_deadline s (some deadline) = deadline

  -- `none` is an end by lack of fuel.
  unfoldable pub pin_loop :
      Commitment → ℕ → S → ℕ → Option ℕ → S × Option (Result (Unit {0}) PinError)
  pin_loop commitment zero s left deadline = (s, none)
  pin_loop commitment (suc fuel) s left deadline =
      let (t, answer) = pin_once s commitment in
      elim answer [
        | ok _ ↦ (t, some (ok tt))
        | err fatal ↦ (t, some (err fatal_answer))
        | err no_quorum ↦
            elim (leb (unavailable_deadline t deadline) (now t + sync_unavailable_backoff)) [
              | true ↦ (t, some (err budget_spent))
              | false ↦
                  pin_loop commitment fuel (sleep t sync_unavailable_backoff) left
                    (some (unavailable_deadline t deadline))
            ]
        | err session ↦ elim (can_reconnect t) [
          | false ↦ (t, some (err no_reconnector))
          | true ↦
              let (u, established) = re_establish left t in
              elim established [
                | err e ↦ (u, some (err e))
                | ok still_left ↦ pin_loop commitment fuel u still_left deadline
              ]
        ]
      ]

  -- More than the rounds that the two budgets allow.
  abbrev pub enough_rounds : ℕ
  enough_rounds = 154

  unfoldable pub pin_with_retries : S → Commitment → S × Option (Result (Unit {0}) PinError)
  unfolding pin_loop
  pin_with_retries s commitment = pin_loop commitment enough_rounds s sync_reconnect_attempts none
