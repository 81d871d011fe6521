-- ===== src/Rollback/BootFlow/Served.antt =====
-- A volume that the boot flow of nbd-client/src/rollback.rs serves is the one that the oracle holds.
use enclavia.Base.{
  ℕ, zero, suc, ◌≡◌, refl, sym, ap, subst, ◌∙◌, ◌==◌, ◌⊎◌, Option, none, some, Result, ok, err,
  arith, Bool-cases, Result-cases, inl, inr,
}
use enclavia.Base.Bytes.{Bytes}
use enclavia.Machine.{PcrKey, Commitment, Version}
use enclavia.Protocol.Crypto.{Crypto, Codec}
use enclavia.Protocol.Identity.{key}
use enclavia.Protocol.Signing.{ChainLinkKind, boot, upgrade, revocation, decode_canonical}
use enclavia.Protocol.Chain.{ChainLink, UpgradePayload}
use enclavia.Wire.{already_registered, not_found}
use enclavia.Rollback.Boot.{boot_decision_iff}
use enclavia.Rollback.{
  GetOutcome, found, absent, Reason, BootDecision, serve, register_then_serve,
  transition_or_fail_stop, fail_stop, ImageRole, upgrade_target, boot_decision, ClientError, rpc,
  get_outcome,
}
use enclavia.Rollback.Pin.{GetAnswer, PinFailure, disambiguate_conflict}
use enclavia.Rollback.BootFlow.{
  BootOracle, BootError, timed_out, registration_raced, inconsistent_oracle, register_failed,
  transition_failed, register_conflict, refused, no_upgrade_link, other_target, wrong_link_kind,
  not_canonical, lookup, settle, after_register, register_volume, reverify, after_transition,
  submit, transition_and_reverify, verify_or_register,
}

decision_cases :
    (d : BootDecision)
    → (d ≡ serve)
      ⊎ ((d ≡ register_then_serve)
          ⊎ (((reason : Reason) × (d ≡ transition_or_fail_stop reason))
              ⊎ ((reason : Reason) × (d ≡ fail_stop reason))))
decision_cases serve = inl refl
decision_cases register_then_serve = inr (inl refl)
decision_cases (transition_or_fail_stop reason) = inr (inr (inl (reason, refl)))
decision_cases (fail_stop reason) = inr (inr (inr (reason, refl)))

version_cases : (w : Version) → (w ≡ 0) ⊎ ((n : ℕ) × (w ≡ suc n))
version_cases zero = inl refl
version_cases (suc n) = inr (n, refl)

disambiguated :
    {E : Type 0} (c : Commitment) (answer : GetAnswer E) (w : Version)
    → disambiguate_conflict c answer ≡ ok w
    → answer ≡ some (ok (c, w))
unfolding disambiguate_conflict
disambiguated c none w h = ground arith
disambiguated c (some (err e)) w h = ground arith
disambiguated c (some (ok (d, x))) w h = ground arith

kind_cases : (k : ChainLinkKind) → (k ≡ boot) ⊎ ((k ≡ upgrade) ⊎ (k ≡ revocation))
kind_cases boot = inl refl
kind_cases upgrade = inr (inl refl)
kind_cases revocation = inr (inr refl)

module _ {O E : Type 0} (oracle : BootOracle O E) (crypto : Crypto)
    (upgrades : Codec UpgradePayload) (sha256 : Bytes → Commitment) (own_key : PcrKey)
    (region : Bytes) (Holds : O → Commitment → Version → Type 0) where
  open oracle use {get, register, transition}

  -- What the oracle answers is what it holds.
  pub record IsTruthful : Type 0 where
    pub read :
        (o : O) (c : Commitment) (w : Version)
        → (get o own_key).1 ≡ some (ok (c, w))
        → Holds (get o own_key).0 c w
    pub registered :
        (o : O) (c : Commitment)
        → (register o own_key c).1 ≡ some (ok tt)
        → Holds (register o own_key c).0 c 0

  -- A boot that is served has the volume's commitment at the oracle.
  Sound : O × Result Version (BootError E) → Type 0
  Sound b = (w : Version) → b.1 ≡ ok w → Holds b.0 (sha256 region) w

  outcome_cases :
      (g : GetOutcome) → (g ≡ absent) ⊎ ((c : Commitment) × (w : Version) × (g ≡ found c w))
  outcome_cases absent = inl refl
  outcome_cases (found c w) = inr (c, w, refl)

  found_answer :
      (answer : GetAnswer E) (c : Commitment) (w : Version)
      → lookup oracle crypto upgrades sha256 own_key region answer ≡ ok (found c w)
      → answer ≡ some (ok (c, w))
  unfolding get_outcome
  found_answer none c w h = ground arith
  found_answer (some (ok (d, x))) c w h = ground arith
  found_answer (some (err (rpc not_found))) c w h = ground arith
  found_answer (some (err e)) c w h = ground arith

  served_is_found :
      (outcome : GetOutcome) (role : ImageRole)
      → boot_decision sha256 region outcome role ≡ serve
      → (w : Version) × (outcome ≡ found (sha256 region) w)
  served_is_found outcome role h = (boot_decision_iff sha256 region outcome role).0.0 h

  Booted-Sound :
      (b : O × Result Version (BootError E)) (p : O) (x : Version)
      → b ≡ (p, ok x)
      → Holds p (sha256 region) x
      → Sound b
  unfolding Sound
  Booted-Sound b p x e held =
      subst Sound (sym e)
        (λ w h. let same : x ≡ w = ground arith in subst (Holds p (sha256 region)) same held)

  Failed-Sound : (b : O × Result Version (BootError E)) (e : BootError E) → b.1 ≡ err e → Sound b
  unfolding Sound
  Failed-Sound b e failed w h = ground arith

  module _ (t : IsTruthful) where
    abbrev now_at : O → O
    now_at o = (get o own_key).0

    -- A `Get` whose outcome is the volume's commitment.
    read_holds :
        (o : O) (w : Version)
        → lookup oracle crypto upgrades sha256 own_key region (get o own_key).1
          ≡ ok (found (sha256 region) w)
        → Holds (now_at o) (sha256 region) w
    read_holds o w h =
        t.read o (sha256 region) w (found_answer (get o own_key).1 (sha256 region) w h)

    reverify-Sound : (o : O) → Sound (reverify oracle crypto upgrades sha256 own_key region o)
    unfolding reverify
    reverify-Sound o =
        elim (Result-cases
          (lookup oracle crypto upgrades sha256 own_key region (get o own_key).1)) [
            | inr (e, failed) ↦
                Failed-Sound (reverify oracle crypto upgrades sha256 own_key region o) e
                  (ground arith)
            | inl (outcome, answered) ↦
                elim (decision_cases (boot_decision sha256 region outcome upgrade_target)) [
                  | inl same ↦
                      let (x, is_found) = served_is_found outcome upgrade_target same in
                      Booted-Sound (reverify oracle crypto upgrades sha256 own_key region o)
                        (now_at o) x (ground arith) (read_holds o x (answered ∙ ap ok is_found))
                  | inr (inl same) ↦
                      Failed-Sound (reverify oracle crypto upgrades sha256 own_key region o)
                        inconsistent_oracle (ground arith)
                  | inr (inr (inl (reason, same))) ↦
                      Failed-Sound (reverify oracle crypto upgrades sha256 own_key region o)
                        inconsistent_oracle (ground arith)
                  | inr (inr (inr (reason, same))) ↦
                      Failed-Sound (reverify oracle crypto upgrades sha256 own_key region o)
                        (refused reason) (ground arith)
                ]
          ]

    after_transition-Sound :
        (o : O) (answer : Option (Result Version (ClientError E)))
        → Sound (after_transition oracle crypto upgrades sha256 own_key region o answer)
    after_transition-Sound o none = Failed-Sound _ timed_out refl
    after_transition-Sound o (some (err e)) = Failed-Sound _ (transition_failed e) refl
    after_transition-Sound o (some (ok version)) = reverify-Sound o

    submit-Sound :
        (o : O) (link : ChainLink) (r : Reason)
        → Sound (submit oracle crypto upgrades sha256 own_key region o link r)
    unfolding submit
    submit-Sound o link r = elim (Result-cases (decode_canonical upgrades link.payload)) [
      | inr (e, failed) ↦
          Failed-Sound (submit oracle crypto upgrades sha256 own_key region o link r)
            (not_canonical r e) (ground arith)
      | inl (payload, decoded) ↦ elim (Bool-cases (key crypto payload.to == own_key)) [
        | inr another ↦
            Failed-Sound (submit oracle crypto upgrades sha256 own_key region o link r)
              (other_target r) (ground arith)
        | inl ours ↦
            let answered = transition o link (sha256 region) in
            let e : submit oracle crypto upgrades sha256 own_key region o link r
                ≡ after_transition oracle crypto upgrades sha256 own_key region answered.0
                    answered.1 =
              ground arith in
            subst Sound (sym e) (after_transition-Sound answered.0 answered.1)
      ]
    ]

    transition_and_reverify-Sound :
        (o : O) (link : Option ChainLink) (r : Reason)
        → Sound (transition_and_reverify oracle crypto upgrades sha256 own_key region o link r)
    unfolding transition_and_reverify
    transition_and_reverify-Sound o none r = Failed-Sound _ (no_upgrade_link r) refl
    transition_and_reverify-Sound o (some link) r = elim (kind_cases link.kind) [
      | inl k ↦
          Failed-Sound
            (transition_and_reverify oracle crypto upgrades sha256 own_key region o (some link) r)
            (wrong_link_kind r boot) (ground arith)
      | inr (inl k) ↦
          let e : transition_and_reverify oracle crypto upgrades sha256 own_key region o (some link)
                r
              ≡ submit oracle crypto upgrades sha256 own_key region o link r =
            ground arith in
          subst Sound (sym e) (submit-Sound o link r)
      | inr (inr k) ↦
          Failed-Sound
            (transition_and_reverify oracle crypto upgrades sha256 own_key region o (some link) r)
            (wrong_link_kind r revocation) (ground arith)
    ]

    ours : O → Result Version PinFailure
    ours o = disambiguate_conflict (sha256 region) (get o own_key).1

    settle-Sound :
        (o : O) → Sound (settle oracle crypto upgrades sha256 own_key region (now_at o) (ours o))
    unfolding ours
    settle-Sound o = elim (Result-cases (ours o)) [
      | inr (f, failed) ↦
          Failed-Sound (settle oracle crypto upgrades sha256 own_key region (now_at o) (ours o))
            (register_conflict f) (ground arith)
      | inl (w, resolved) ↦ elim (version_cases w) [
        | inl first ↦
            let read = disambiguated (sha256 region) (get o own_key).1 w resolved in
            Booted-Sound (settle oracle crypto upgrades sha256 own_key region (now_at o) (ours o))
              (now_at o) 0 (ground arith)
              (subst (Holds (now_at o) (sha256 region)) first (t.read o (sha256 region) w read))
        | inr (n, later) ↦
            Failed-Sound (settle oracle crypto upgrades sha256 own_key region (now_at o) (ours o))
              registration_raced (ground arith)
      ]
    ]

    after_register-Sound :
        (o : O) (answer : Option (Result (Unit {0}) (ClientError E)))
        → (answer ≡ some (ok tt) → Holds o (sha256 region) 0)
        → Sound (after_register oracle crypto upgrades sha256 own_key region o answer)
    unfolding ours
    after_register-Sound o none h = Failed-Sound _ timed_out refl
    after_register-Sound o (some (ok u)) h =
        Booted-Sound (after_register oracle crypto upgrades sha256 own_key region o (some (ok u))) o
          0 refl (h refl)
    after_register-Sound o (some (err (rpc already_registered))) h = settle-Sound o
    after_register-Sound o (some (err e)) h = Failed-Sound _ (register_failed e) refl

    register_volume-Sound :
        (o : O) → Sound (register_volume oracle crypto upgrades sha256 own_key region o)
    unfolding register_volume
    register_volume-Sound o =
        let answered = register o own_key (sha256 region) in
        after_register-Sound answered.0 answered.1 (t.registered o (sha256 region))

    -- A boot of the volume that succeeds, whatever the region, the role of the image and the link
    -- that chain-host serves, ends with an oracle that holds the region's commitment at the
    -- version returned.
    pub verify_or_register-Sound :
        (o : O) (role : ImageRole) (link : Option ChainLink) (w : Version)
        → (verify_or_register oracle crypto upgrades sha256 own_key region o role link).1 ≡ ok w
        → Holds
            (verify_or_register oracle crypto upgrades sha256 own_key region o role link).0
            (sha256 region)
            w
    unfolding verify_or_register Sound
    verify_or_register-Sound o role link =
        elim (Result-cases
          (lookup oracle crypto upgrades sha256 own_key region (get o own_key).1)) [
            | inr (e, failed) ↦
                Failed-Sound
                  (verify_or_register oracle crypto upgrades sha256 own_key region o role link) e
                  (ground arith)
            | inl (outcome, answered) ↦
                elim (decision_cases (boot_decision sha256 region outcome role)) [
                  | inl same ↦
                      let (x, is_found) = served_is_found outcome role same in
                      Booted-Sound
                        (verify_or_register oracle crypto upgrades sha256 own_key region o role
                          link)
                        (now_at o) x (ground arith) (read_holds o x (answered ∙ ap ok is_found))
                  | inr (inl same) ↦
                      let e : verify_or_register oracle crypto upgrades sha256 own_key region o role
                            link
                          ≡ register_volume oracle crypto upgrades sha256 own_key region
                              (now_at o) =
                        ground arith in
                      subst Sound (sym e) (register_volume-Sound (now_at o))
                  | inr (inr (inl (reason, same))) ↦
                      let e : verify_or_register oracle crypto upgrades sha256 own_key region o role
                            link
                          ≡ transition_and_reverify oracle crypto upgrades sha256 own_key region
                              (now_at o) link reason =
                        ground arith in
                      subst Sound (sym e) (transition_and_reverify-Sound (now_at o) link reason)
                  | inr (inr (inr (reason, same))) ↦
                      Failed-Sound
                        (verify_or_register oracle crypto upgrades sha256 own_key region o role
                          link)
                        (refused reason) (ground arith)
                ]
          ]
