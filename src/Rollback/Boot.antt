-- ===== src/Rollback/Boot.antt =====
-- What nbd-client/src/rollback.rs decides at boot, and how it classifies a write.
use enclavia.Base.{
  ℕ, ◌+◌, ◌-◌, ◌%◌, ◌≤◌, ◌<◌, ◌≡◌, ◌↔◌, refl, inl, inr, true, ◌&&◌, ◌||◌, leb, if◌then◌else◌, [],
  ◌∷◌, arith, Bool-cases,
}
use enclavia.Base.Bytes.{Bytes}
use enclavia.Machine.{Commitment, Version, u64_mod}
use enclavia.Rollback.{
  SbOverlap, disjoint, partial, full, sb_primary_fs_offset, sb_region_len, primary_sb_overlap,
  region_is_blank, GetOutcome, found, absent, serve, register_then_serve, ImageRole, genesis,
  upgrade_target, boot_decision,
}

abbrev pub region_start : ℕ → ℕ
region_start data_offset = data_offset + sb_primary_fs_offset

start_exact :
    (data_offset : ℕ)
    → region_start data_offset + sb_region_len < u64_mod
    → (region_start data_offset % u64_mod ≡ region_start data_offset)
      × ((region_start data_offset + sb_region_len) % u64_mod
          ≡ region_start data_offset + sb_region_len)
start_exact data_offset r = (omega arith, omega arith)

-- The classification where no address overflows.
abbrev classified : ℕ → ℕ → ℕ → SbOverlap
classified offset write_end start =
    if leb write_end start || leb (start + sb_region_len) offset
    then disjoint
    else if leb offset start && leb (start + sb_region_len) write_end
    then full (start - offset)
    else partial

overlap-classified :
    (offset length data_offset : ℕ)
    → offset + length < u64_mod
    → region_start data_offset + sb_region_len < u64_mod
    → primary_sb_overlap offset length data_offset
      ≡ classified offset (offset + length) (region_start data_offset)
unfolding primary_sb_overlap
overlap-classified offset length data_offset w r =
    let (a, b) = start_exact data_offset r in ground (arith, a, b)

-- A byte of the region that the write covers.
abbrev pub Touches : ℕ → ℕ → ℕ → Type 0
Touches offset length data_offset =
    (i : ℕ) × (offset ≤ i)
    × (i < offset + length)
    × (region_start data_offset ≤ i)
    × (i < region_start data_offset + sb_region_len)

disjoint_of :
    (offset length start : ℕ)
    → 0 < length
    → ¬ ((i : ℕ) × (offset ≤ i) × (i < offset + length) × (start ≤ i) × (i < start + sb_region_len))
    → classified offset (offset + length) start ≡ disjoint
disjoint_of offset length start l h =
    elim (Bool-cases (leb (offset + length) start || leb (start + sb_region_len) offset)) [
      | inl apart ↦ ground arith
      | inr meet ↦ elim (Bool-cases (leb offset start)) [
        | inl before ↦ absurd (h (start, ground arith, ground arith, ground arith, ground arith))
        | inr after ↦ absurd (h (offset, ground arith, ground arith, ground arith, ground arith))
      ]
    ]

-- A write of at least one byte, whose end and whose region's end are addresses of a `u64`, is
-- classified as it lies: full with the offset of the region in its payload exactly when every byte
-- of the region is written, and disjoint exactly when no byte is.
pub primary_sb_overlap_lem :
    (offset length data_offset : ℕ)
    → 0 < length
    → offset + length < u64_mod
    → region_start data_offset + sb_region_len < u64_mod
    → ((p : ℕ)
        → (primary_sb_overlap offset length data_offset ≡ full p) ↔ (
            (offset + p ≡ region_start data_offset)
            × (region_start data_offset + sb_region_len ≤ offset + length)))
      × ((primary_sb_overlap offset length data_offset ≡ disjoint)
          ↔ ¬ Touches offset length data_offset)
primary_sb_overlap_lem offset length data_offset l w r =
    rw (overlap-classified offset length data_offset w r) (
      λ p. (λ h. ground arith, λ h. ground arith),
      (
        λ h (i, a, b, c, d). ground arith,
        λ h. disjoint_of offset length (region_start data_offset) l h,
      ),
    )

-- Every byte of the region is zero.
abbrev pub IsBlank : Bytes → Type 0
IsBlank [] = Unit
IsBlank (b ∷ bs) = (b ≡ 0) × IsBlank bs

region_is_blank-IsBlank : (region : Bytes) → (region_is_blank region ≡ true) ↔ IsBlank region
unfolding region_is_blank
region_is_blank-IsBlank [] = (λ h. tt, λ h. refl)
region_is_blank-IsBlank (b ∷ bs) = ground (arith, region_is_blank-IsBlank bs)

-- A device is served at boot exactly when the synchronizer has a pin and it is the commitment of
-- the device's region; it is registered exactly when there is no pin, the region is blank, and the
-- image is the enclave's first: never over a written region, and never by an upgrade target.
pub boot_decision_iff :
    (sha256 : Bytes → Commitment) (region : Bytes) (outcome : GetOutcome) (role : ImageRole)
    → ((boot_decision sha256 region outcome role ≡ serve)
        ↔ ((version : Version) × (outcome ≡ found (sha256 region) version)))
      × ((boot_decision sha256 region outcome role ≡ register_then_serve)
          ↔ ((outcome ≡ absent) × IsBlank region × (role ≡ genesis)))
unfolding boot_decision
boot_decision_iff sha256 region (found c version) role =
    ((λ h. (version, ground arith), λ (v, h). ground arith), (λ h. ground arith, λ h. ground arith))
boot_decision_iff sha256 region absent genesis =
    ((λ h. ground arith, λ (v, h). ground arith), ground (arith, region_is_blank-IsBlank region))
boot_decision_iff sha256 region absent upgrade_target =
    ((λ h. ground arith, λ (v, h). ground arith), ground (arith, region_is_blank-IsBlank region))
