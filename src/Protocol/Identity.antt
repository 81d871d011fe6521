-- ===== src/Protocol/Identity.antt =====
-- enclavia-protocol/src/pin_identity.rs: an enclave's full identity, PCR0-2 and the user PCRs
-- 16-31, with its canonical encoding and the key of its pin slot. A PCR is its 48 bytes.
use enclavia.Base.{
  ℕ, ◌≡◌, refl, ap, Bool, true, false, ◌&&◌, ◌↔◌, List, [], ◌∷◌, ◌++◌, arith, length, length-append,
  append-injective,
}
use enclavia.Base.Bytes.{Bytes, ascii, bytes_eq, bytes_eq_iff}
use enclavia.Protocol.Crypto.{Crypto}

abbrev pub pcr_len : ℕ
pcr_len = 48

abbrev pub user_pcr_count : ℕ
user_pcr_count = 16

abbrev pub Pcr : Type 0
Pcr = Bytes

pub record PinIdentity : Type 0 where
  pub image : List Pcr
  pub user : List Pcr

-- The array lengths that the types of the two fields fix.
abbrev pub AllPcr : List Pcr → Type 0
AllPcr [] = Unit
AllPcr (p ∷ ps) = (length p ≡ pcr_len) × AllPcr ps

pub record IsWellFormed (p : PinIdentity) : Type 0 where
  pub images : length p.image ≡ 3
  pub users : length p.user ≡ user_pcr_count
  pub image_pcrs : AllPcr p.image
  pub user_pcrs : AllPcr p.user

abbrev pub pin_identity_dst : Bytes
pin_identity_dst = ascii "enclavia/synchronizer/pin-identity/v1"

pub concat : List Pcr → Bytes
concat [] = []
concat (p ∷ ps) = p ++ concat ps

unfoldable pub canonical_bytes : PinIdentity → Bytes
unfolding concat
canonical_bytes p = pin_identity_dst ++ concat (p.image ++ p.user)

unfoldable pub key : Crypto → PinIdentity → ℕ
key c p = c.sha256 (canonical_bytes p)

pcrs_eq : List Pcr → List Pcr → Bool
pcrs_eq [] [] = true
pcrs_eq (p ∷ ps) (q ∷ qs) = bytes_eq p q && pcrs_eq ps qs
pcrs_eq _ _ = false

unfoldable pub identity_eq : PinIdentity → PinIdentity → Bool
unfolding pcrs_eq
identity_eq p q = pcrs_eq p.image q.image && pcrs_eq p.user q.user

pcrs_eq_iff : (ps qs : List Pcr) → (pcrs_eq ps qs ≡ true) ↔ (ps ≡ qs)
unfolding pcrs_eq
pcrs_eq_iff [] [] = ground arith
pcrs_eq_iff [] (q ∷ qs) = ground arith
pcrs_eq_iff (p ∷ ps) [] = ground arith
pcrs_eq_iff (p ∷ ps) (q ∷ qs) = ground (arith, bytes_eq_iff p q, pcrs_eq_iff ps qs)

pub identity_eq_iff : (p q : PinIdentity) → (identity_eq p q ≡ true) ↔ (p ≡ q)
unfolding identity_eq
identity_eq_iff p q = ground (arith, pcrs_eq_iff p.image q.image, pcrs_eq_iff p.user q.user)

AllPcr-append : (ps qs : List Pcr) → AllPcr ps → AllPcr qs → AllPcr (ps ++ qs)
AllPcr-append [] qs h k = k
AllPcr-append (p ∷ ps) qs h k = (h.0, AllPcr-append ps qs h.1 k)

concat-injective : (ps qs : List Pcr) → AllPcr ps → AllPcr qs → concat ps ≡ concat qs → ps ≡ qs
unfolding concat
concat-injective [] [] h k e = refl
concat-injective [] (q ∷ qs) h k e =
    absurd (omega (arith, ap length e, length-append q (concat qs), k.0))
concat-injective (p ∷ ps) [] h k e =
    absurd (omega (arith, ap length e, length-append p (concat ps), h.0))
concat-injective (p ∷ ps) (q ∷ qs) h k e =
    ground (arith, append-injective p q (concat ps) (concat qs), concat-injective ps qs)

-- The canonical encoding is injective: well-formed identities with the same canonical bytes are
-- the same, user PCRs included.
pub canonical_bytes-injective :
    (p q : PinIdentity)
    → IsWellFormed p
    → IsWellFormed q
    → canonical_bytes p ≡ canonical_bytes q
    → p ≡ q
unfolding canonical_bytes
canonical_bytes-injective p q v w e =
    let parts = append-injective pin_identity_dst pin_identity_dst _ _ refl e in
    let pcrs =
      concat-injective (p.image ++ p.user) (q.image ++ q.user)
        (AllPcr-append p.image p.user v.image_pcrs v.user_pcrs)
        (AllPcr-append q.image q.user w.image_pcrs w.user_pcrs) parts.1 in
    let fields = append-injective p.image q.image p.user q.user (omega arith) pcrs in
    λ i. record { image = fields.0 i; user = fields.1 i }
