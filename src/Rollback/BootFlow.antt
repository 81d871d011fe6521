-- ===== src/Rollback/BootFlow.antt =====
-- nbd-client/src/rollback.rs, the boot of a volume: `verify_or_register` and
-- `transition_and_reverify`, over the trait `BootOracle`. An answer `none` is a timeout; the calls
-- return the oracle's state after them. The texts of the errors are constructors. The link that
-- chain-host serves is an argument.
pub mod Served
pub mod OnNode
use enclavia.Base.{
  ℕ, zero, suc, Bool, true, false, ◌==◌, Option, none, some, Result, ok, err, map_err,
  if◌then◌else◌,
}
use enclavia.Base.Bytes.{Bytes}
use enclavia.Machine.{PcrKey, Commitment, Version}
use enclavia.Protocol.Crypto.{Crypto, Codec}
use enclavia.Protocol.Identity.{key}
use enclavia.Protocol.Signing.{
  ChainLinkKind, boot, upgrade, revocation, CanonicalDecodeError, decode_canonical,
}
use enclavia.Protocol.Chain.{ChainLink, UpgradePayload}
use enclavia.Wire.{already_registered}
use enclavia.Rollback.{
  GetOutcome, found, absent, Reason, BootDecision, serve, register_then_serve,
  transition_or_fail_stop, fail_stop, ImageRole, upgrade_target, boot_decision, ClientError, rpc,
  get_outcome,
}
use enclavia.Rollback.Pin.{GetAnswer, PinFailure, disambiguate_conflict}

pub record BootOracle (O E : Type 0) : Type 0 where
  pub get : O → PcrKey → O × GetAnswer E
  pub register : O → PcrKey → Commitment → O × Option (Result (Unit {0}) (ClientError E))
  pub transition : O → ChainLink → Commitment → O × Option (Result Version (ClientError E))

pub data BootError (E : Type 0) : Type 0 where
  timed_out registration_raced unreachable_outcome inconsistent_oracle : BootError E
  get_failed register_failed transition_failed : ClientError E → BootError E
  register_conflict : PinFailure → BootError E
  refused no_upgrade_link other_target : Reason → BootError E
  wrong_link_kind : Reason → ChainLinkKind → BootError E
  not_canonical : Reason → CanonicalDecodeError → BootError E

module _ {O E : Type 0} (oracle : BootOracle O E) (crypto : Crypto)
    (upgrades : Codec UpgradePayload) (sha256 : Bytes → Commitment) (own_key : PcrKey)
    (region : Bytes) where
  open oracle use {get, register, transition}

  abbrev pub Booted : Type 0
  Booted = O × Result Version (BootError E)

  abbrev pub lookup : GetAnswer E → Result GetOutcome (BootError E)
  lookup none = err timed_out
  lookup (some answer) = map_err get_failed (get_outcome answer)

  abbrev served : O → GetOutcome → Booted
  served o (found commitment version) = (o, ok version)
  served o absent = (o, err unreachable_outcome)

  abbrev pub settle : O → Result Version PinFailure → Booted
  settle o (err failure) = (o, err (register_conflict failure))
  settle o (ok zero) = (o, ok 0)
  settle o (ok (suc version)) = (o, err registration_raced)

  -- The answer to a registration; one that finds the key registered is settled by a `Get`.
  abbrev pub after_register : O → Option (Result (Unit {0}) (ClientError E)) → Booted
  after_register o none = (o, err timed_out)
  after_register o (some (ok _)) = (o, ok 0)
  after_register o (some (err (rpc already_registered))) =
      let (p, answer) = get o own_key in settle p (disambiguate_conflict (sha256 region) answer)
  after_register o (some (err e)) = (o, err (register_failed e))

  unfoldable pub register_volume : O → Booted
  register_volume o =
      let (p, answer) = register o own_key (sha256 region) in after_register p answer

  abbrev pub reverified : O → GetOutcome → BootDecision → Booted
  reverified o outcome serve = served o outcome
  reverified o outcome (fail_stop reason) = (o, err (refused reason))
  reverified o outcome register_then_serve = (o, err inconsistent_oracle)
  reverified o outcome (transition_or_fail_stop reason) = (o, err inconsistent_oracle)

  unfoldable pub reverify : O → Booted
  reverify o =
      let (p, answer) = get o own_key in
      elim (lookup answer) [
        | err e ↦ (p, err e)
        | ok outcome ↦ reverified p outcome (boot_decision sha256 region outcome upgrade_target)
      ]

  abbrev pub after_transition : O → Option (Result Version (ClientError E)) → Booted
  after_transition o none = (o, err timed_out)
  after_transition o (some (err e)) = (o, err (transition_failed e))
  after_transition o (some (ok version)) = reverify o

  unfoldable pub submit : O → ChainLink → Reason → Booted
  submit o link fail_reason = elim (decode_canonical upgrades link.payload) [
    | err e ↦ (o, err (not_canonical fail_reason e))
    | ok payload ↦
        if key crypto payload.to == own_key
        then (let (p, answer) = transition o link (sha256 region) in after_transition p answer)
        else (o, err (other_target fail_reason))
  ]

  unfoldable pub transition_and_reverify : O → Option ChainLink → Reason → Booted
  transition_and_reverify o none fail_reason = (o, err (no_upgrade_link fail_reason))
  transition_and_reverify o (some link) fail_reason = elim link.kind [
    | boot ↦ (o, err (wrong_link_kind fail_reason boot))
    | revocation ↦ (o, err (wrong_link_kind fail_reason revocation))
    | upgrade ↦ submit o link fail_reason
  ]

  abbrev pub decided : O → Option ChainLink → GetOutcome → BootDecision → Booted
  decided o upgrade_link outcome serve = served o outcome
  decided o upgrade_link outcome register_then_serve = register_volume o
  decided o upgrade_link outcome (transition_or_fail_stop reason) =
      transition_and_reverify o upgrade_link reason
  decided o upgrade_link outcome (fail_stop reason) = (o, err (refused reason))

  unfoldable pub verify_or_register : O → ImageRole → Option ChainLink → Booted
  verify_or_register o role upgrade_link =
      let (p, answer) = get o own_key in
      elim (lookup answer) [
        | err e ↦ (p, err e)
        | ok outcome ↦ decided p upgrade_link outcome (boot_decision sha256 region outcome role)
      ]
