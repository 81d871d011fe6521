-- ===== src/Machine/History.antt =====
-- The history of one live key: its version never falls, a version stands for one commitment, and
-- its control key stays the one that its registration froze.
use enclavia.Base.{
  ℕ, suc, ◌+◌, ◌≤◌, ◌<◌, ◌≡◌, refl, ◌⊎◌, inl, inr, some, Option-cases, length, List, [], ◌∷◌, ok,
  arith,
}
use enclavia.Base.BTreeMap
use enclavia.Base.Key.{nat_key}
use enclavia.Machine.{
  PcrKey, Commitment, Version, KeyState, Op, register, pin, transition, revoke, StateMachine,
  u64_mod, observe_attestation, observe_transition, apply,
}
use enclavia.Machine.Spec.{Holds, IsOk}
use enclavia.Machine.Run.{Input, attest, authorize, submit, feed, run, run_induction}
use enclavia.Machine.Invariant.{IsValid, apply-IsValid, feed-IsValid, containers}
use native.Mathlib.Nat.{add-zero}
use enclavia.Machine.Finality.{Retired, feed-Retired, retirement_is_final}

-- `t` is a state that a key can have after it had `s`: the same pinned state, or a newer version.
pub record Follows (s t : KeyState) : Type 0 where
  pub frozen : t.control_pubkey ≡ s.control_pubkey
  pub progress : ((t.version ≡ s.version) × (t.commitment ≡ s.commitment)) ⊎ (s.version < t.version)

-- The key is retired, or its state follows `s`, at most `n` versions on.
abbrev pub Tracks : PcrKey → KeyState → ℕ → StateMachine → Type 0
Tracks k s n sm =
    Retired k sm ⊎ Holds (BTreeMap.get sm.state k) (λ t. Follows s t × (t.version ≤ s.version + n))

apply-Tracks :
    (k : PcrKey) (s t : KeyState) (n : ℕ) (sm : StateMachine) (op : Op)
    → BTreeMap.get sm.state k ≡ some t
    → Follows s t
    → t.version ≤ s.version + n
    → t.version + 1 < u64_mod
    → Tracks k s (n + 1) (apply sm op).0
unfolding apply
apply-Tracks k s t n sm (register key c) g f u b = grind containers
apply-Tracks k s t n sm (pin key e c) g f u b = grind containers
apply-Tracks k s t n sm (transition o w l c) g f u b = grind containers
apply-Tracks k s t n sm (revoke key l) g f u b = grind containers

feed-Tracks :
    (k : PcrKey) (s : KeyState) (n : ℕ) (sm : StateMachine) (i : Input)
    → s.version + n + 1 < u64_mod
    → Tracks k s n sm
    → Tracks k s (n + 1) (feed sm i)
unfolding observe_attestation observe_transition
feed-Tracks k s n sm i b (inl r) = inl (feed-Retired k sm i r)
feed-Tracks k s n sm (attest key pk) b (inr h) = inr (ground arith)
feed-Tracks k s n sm (authorize o w) b (inr h) = inr (ground arith)
feed-Tracks k s n sm (submit op) b (inr h) = elim (Option-cases (BTreeMap.get sm.state k)) [
  | inl e ↦ absurd (rw e at h)
  | inr (t, e) ↦
      let h' : Follows s t × (t.version ≤ s.version + n) = rw e at h in
      apply-Tracks k s t n sm op e h'.0 h'.1 (omega arith)
]

run-Tracks :
    (k : PcrKey) (s : KeyState) (n : ℕ) (sm : StateMachine) (is : List Input)
    → s.version + n + length is < u64_mod
    → Tracks k s n sm
    → Tracks k s (n + length is) (run sm is)
run-Tracks k s n sm [] b h = rw add-zero h
run-Tracks k s n sm (i ∷ is) b h =
    let e : n + 1 + length is ≡ n + suc (length is) = omega arith in
    rw e at
      (run-Tracks k s (n + 1) (feed sm i) is (omega arith) (feed-Tracks k s n sm i (omega arith) h))

-- The history of a live key. Whatever inputs follow, fewer than the versions left in a `u64`, the
-- key is retired or live; if live, its control key is unchanged, and either its version and its
-- commitment are unchanged or its version has grown.
pub live_key_history :
    (k : PcrKey) (s : KeyState) (sm : StateMachine) (is : List Input)
    → BTreeMap.get sm.state k ≡ some s
    → s.version + length is < u64_mod
    → Retired k (run sm is) ⊎ Holds (BTreeMap.get (run sm is).state k) (Follows s)
live_key_history k s sm is h b =
    ground (arith, run-Tracks k s 0 sm is (omega arith) (inr (ground arith)))

stale_of_newer :
    (k : PcrKey) (s : KeyState) (sm : StateMachine) (e : Version) (c : Commitment)
    → e < s.version
    → Holds (BTreeMap.get sm.state k) (Follows s)
    → ¬ IsOk (apply sm (pin k e c)).1
unfolding apply
stale_of_newer k s sm e c lt h = ground arith

live-pin :
    (sm : StateMachine) (k : PcrKey) (e : Version) (c : Commitment) (s : KeyState)
    → (apply sm (pin k e c)).1 ≡ ok s
    → e + 1 < u64_mod
    → (BTreeMap.get (apply sm (pin k e c)).0.state k ≡ some s) × (s.version ≡ e + 1)
unfolding apply
live-pin sm k e c s h b = grind containers

-- A pin from a version wins at most once. When a pin of `k` from version `e` has committed, no pin
-- of `k` that expects `e` or an older version commits afterwards, whatever inputs come between,
-- fewer than the versions left in a `u64`: of two writers that read the same version, one loses.
pub pin_wins_once :
    (sm : StateMachine) (k : PcrKey) (e : Version) (c : Commitment) (s : KeyState) (is : List Input)
    → IsValid sm
    → (apply sm (pin k e c)).1 ≡ ok s
    → e + 1 + length is < u64_mod
    → (e' : Version) (c' : Commitment) → e' ≤ e
    → ¬ IsOk (apply (run (apply sm (pin k e c)).0 is) (pin k e' c')).1
pin_wins_once sm k e c s is v h b e' c' le =
    let sm' = (apply sm (pin k e c)).0 in
    let p = live-pin sm k e c s h (omega arith) in
    elim (live_key_history k s sm' is p.0 (omega arith)) [
      | inl r ↦
          (retirement_is_final k (run sm' is) []
              (run_induction IsValid feed-IsValid sm' is (apply-IsValid sm (pin k e c) v)) r).2
            (pin k e' c') refl
      | inr f ↦ stale_of_newer k s (run sm' is) e' c' (omega arith) f
    ]
