-- ===== src/Protocol/Tests.antt =====
-- The signed payloads and the identities at concrete inputs.
use enclavia.Base.{ℕ, zero, suc, ◌≡◌, refl, Option, none, some, List, [], ◌∷◌, length}
use enclavia.Base.Bytes.{Bytes, bytes_eq}
use enclavia.Protocol.Crypto.{Codec}
use enclavia.Protocol.Identity.{PinIdentity, IsWellFormed, Pcr, AllPcr, canonical_bytes-injective}
use enclavia.Protocol.Signing.{
  upgrade_payload, decode_canonical, decode_canonical_unique, signed_message-injective,
}

repeated : {A : Type 0} → ℕ → A → List A
repeated zero a = []
repeated (suc n) a = a ∷ repeated n a

AllPcr-repeated : (n : ℕ) (p : Pcr) → length p ≡ 48 → AllPcr (repeated n p)
unfolding repeated
AllPcr-repeated zero p h = tt
AllPcr-repeated (suc n) p h = (h, AllPcr-repeated n p h)

-- PCR0-2 distinct, the user PCRs zero.
abbrev identity : PinIdentity
identity = record {
  image = repeated 48 1 ∷ repeated 48 2 ∷ repeated 48 3 ∷ [];
  user = repeated 16 (repeated 48 0);
}

identity-IsWellFormed : IsWellFormed identity
unfolding repeated
identity-IsWellFormed = record {
  images = refl;
  users = refl;
  image_pcrs = (refl, (refl, (refl, tt)));
  user_pcrs = AllPcr-repeated 16 (repeated 48 0) refl;
}

canonical_bytes-injective_example : identity ≡ identity
canonical_bytes-injective_example =
    canonical_bytes-injective identity identity identity-IsWellFormed identity-IsWellFormed refl

abbrev payload : Bytes
payload = 5 ∷ []

signed_message-injective_example : (upgrade_payload ≡ upgrade_payload) × (payload ≡ payload)
signed_message-injective_example =
    signed_message-injective upgrade_payload upgrade_payload payload payload refl

-- A decoder that accepts a byte too many, which the canonical decoding refuses.
unlisted : Bytes → Option ℕ
unlisted (n ∷ zero ∷ []) = some n
unlisted (n ∷ []) = some n
unlisted _ = none

abbrev lenient : Codec ℕ
lenient = record { from_reader = unlisted; into_writer = λ n. n ∷ [] }

decode_canonical_unique_example : (payload ≡ lenient.into_writer 5) × (payload ≡ payload)
unfolding decode_canonical unlisted bytes_eq
decode_canonical_unique_example = decode_canonical_unique lenient payload payload 5 refl refl
