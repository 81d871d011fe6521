-- ===== src/UpgradeChain/Payload.antt =====
-- enclavia-protocol/src/chain.rs: the measurements in hex form, the payload of a boot link and the
-- anti-rollback setting that it carries; the image PCRs of a pin identity.
use enclavia.Base.{
  ℕ, zero, suc, Bool, true, false, not, ◌&&◌, if◌then◌else◌, List, [], ◌∷◌, ◌⊎◌, inl, inr, refl,
  Result, ok, err, ◌≡◌, ◌≢◌, ◌↔◌, arith, Bool-cases,
}
use enclavia.Base.Int.{ℤ}
use enclavia.Base.Bytes.{Bytes, bytes_eq, bytes_eq_iff}
use enclavia.Protocol.Identity.{PinIdentity, Pcr}

pub record Pcrs : Type 0 where
  pub pcr0 : Bytes
  pub pcr1 : Bytes
  pub pcr2 : Bytes

pub record PcrsHex : Type 0 where
  pub pcr0 : Bytes
  pub pcr1 : Bytes
  pub pcr2 : Bytes

pub record AntiRollbackSetting : Type 0 where
  pub enabled : Bool
  pub upgrade_target : Bool
  pub debug_attestation : Bool
  pub synchronizer_pcrs : List PcrsHex

pub record BootPayload : Type 0 where
  pub enclave_id : ℕ
  pub image_digest : Bytes
  pub pcrs : PcrsHex
  pub booted_at : ℤ
  pub nonce : Bytes
  pub anti_rollback : AntiRollbackSetting

-- The derived equalities.
unfoldable pub pcrs_eq : Pcrs → Pcrs → Bool
pcrs_eq a b = bytes_eq a.pcr0 b.pcr0 && (bytes_eq a.pcr1 b.pcr1 && bytes_eq a.pcr2 b.pcr2)

unfoldable pub pcrs_hex_eq : PcrsHex → PcrsHex → Bool
pcrs_hex_eq a b = bytes_eq a.pcr0 b.pcr0 && (bytes_eq a.pcr1 b.pcr1 && bytes_eq a.pcr2 b.pcr2)

pub pcrs_eq_iff : (a b : Pcrs) → (pcrs_eq a b ≡ true) ↔ (a ≡ b)
unfolding pcrs_eq
pcrs_eq_iff a b =
    ground
      (arith, bytes_eq_iff a.pcr0 b.pcr0, bytes_eq_iff a.pcr1 b.pcr1, bytes_eq_iff a.pcr2 b.pcr2)

pub pcrs_hex_eq_iff : (a b : PcrsHex) → (pcrs_hex_eq a b ≡ true) ↔ (a ≡ b)
unfolding pcrs_hex_eq
pcrs_hex_eq_iff a b =
    ground
      (arith, bytes_eq_iff a.pcr0 b.pcr0, bytes_eq_iff a.pcr1 b.pcr1, bytes_eq_iff a.pcr2 b.pcr2)

-- An element of an array; the type fixes its length, so the index is never out of range.
abbrev pub pcr_at : List Pcr → ℕ → Pcr
pcr_at [] i = []
pcr_at (p ∷ ps) zero = p
pcr_at (p ∷ ps) (suc i) = pcr_at ps i

unfoldable pub image_pcrs : PinIdentity → Pcrs
image_pcrs p = record { pcr0 = pcr_at p.image 0; pcr1 = pcr_at p.image 1; pcr2 = pcr_at p.image 2 }

module _ (hex_encode : Bytes → Bytes) where
  unfoldable pub image_pcrs_hex : PinIdentity → PcrsHex
  image_pcrs_hex p = record {
    pcr0 = hex_encode (pcr_at p.image 0);
    pcr1 = hex_encode (pcr_at p.image 1);
    pcr2 = hex_encode (pcr_at p.image 2);
  }

pub data AntiRollbackChange : Type 0 where
  turned_off turned_on not_upgrade_target debug_attestation_changed : AntiRollbackChange
  no_trusted_synchronizer : AntiRollbackChange

abbrev pub is_empty {ℓ} : {A : Type ℓ} → List A → Bool
is_empty [] = true
is_empty (x ∷ xs) = false

pub list_cases {ℓ} : {A : Type ℓ} (xs : List A) → (xs ≡ []) ⊎ (is_empty xs ≡ false)
list_cases [] = inl refl
list_cases (x ∷ xs) = inr refl

abbrev pub bool_eq : Bool → Bool → Bool
bool_eq true b = b
bool_eq false b = not b

checks_when_enabled :
    AntiRollbackSetting → AntiRollbackSetting → Result (Unit {0}) AntiRollbackChange
checks_when_enabled s next =
    if not next.upgrade_target
    then err not_upgrade_target
    else if not (bool_eq next.debug_attestation s.debug_attestation)
    then err debug_attestation_changed
    else if is_empty next.synchronizer_pcrs
    then err no_trusted_synchronizer
    else ok tt

unfoldable pub check_successor :
    AntiRollbackSetting → AntiRollbackSetting → Result (Unit {0}) AntiRollbackChange
unfolding checks_when_enabled
check_successor s next = elim s.enabled [
  | false ↦ elim next.enabled [ false ↦ ok tt | true ↦ err turned_on ]
  | true ↦ elim next.enabled [ false ↦ err turned_off | true ↦ checks_when_enabled s next ]
]

-- A setting that is accepted as a successor turns anti-rollback neither on nor off.
pub check_successor-enabled :
    (s next : AntiRollbackSetting) → check_successor s next ≡ ok tt → s.enabled ≡ next.enabled
unfolding check_successor
check_successor-enabled s next h = ground arith

-- The setting that may follow another: as enabled as it is, and when it is enabled, of an image
-- that is an upgrade target, with the same debug flag, that trusts a synchronizer.
pub record IsSuccessor (s next : AntiRollbackSetting) : Type 0 where
  pub unchanged : s.enabled ≡ next.enabled
  pub target : s.enabled ≡ true → next.upgrade_target ≡ true
  pub debug : s.enabled ≡ true → next.debug_attestation ≡ s.debug_attestation
  pub trusts : s.enabled ≡ true → next.synchronizer_pcrs ≢ []

pub check_successor-IsSuccessor :
    (s next : AntiRollbackSetting) → check_successor s next ≡ ok tt → IsSuccessor s next
unfolding check_successor
check_successor-IsSuccessor s next h = record {
  unchanged = ground arith;
  target = λ e. ground arith;
  debug = λ e. ground arith;
  trusts = λ e. ground arith;
}

pub IsSuccessor-check_successor :
    (s next : AntiRollbackSetting) → IsSuccessor s next → check_successor s next ≡ ok tt
unfolding check_successor
IsSuccessor-check_successor s next i = elim (Bool-cases s.enabled) [
  | inr disabled ↦ let u = i.unchanged in ground arith
  | inl enabled ↦
      let u = i.unchanged in
      let t = i.target enabled in
      let d = i.debug enabled in
      let n = i.trusts enabled in
      elim (list_cases next.synchronizer_pcrs) [ inl e ↦ absurd (n e) | inr e ↦ ground arith ]
]
