-- ===== src/Rollback/Proxy/Steps.antt =====
-- Steps of the tasks of nbd-client/src/rollback.rs that leave a gated write waiting.
use enclavia.Base.{ℕ, ◌≡◌, ◌≢◌, refl, ap, ◌⊎◌, none, List, [], ◌∷◌, ◌++◌, inl, inr}
use enclavia.Base.Bytes.{Bytes}
use enclavia.Base.Key.{nat_key}
use enclavia.Base.BTreeMap
use enclavia.Base.BTreeMap.{BTreeMap, get-insert, get-remove}
use enclavia.Machine.{Commitment}
use enclavia.Rollback.Pin.{PinGate}
use enclavia.Rollback.Proxy.{Pinner, Proxy}
use enclavia.Rollback.Proxy.Held.{
  replies_of, OfPump, Unreleased, IsAcknowledged, calm, delivered_other, relax,
}
use enclavia.Rollback.Proxy.Requests.{Waits, Keeps}

pub queue_cases {ℓ} :
    {A : Type ℓ} (xs : List A) → (xs ≡ []) ⊎ ((x : A) × (ys : List A) × (xs ≡ x ∷ ys))
queue_cases [] = inl refl
queue_cases (x ∷ xs) = inr (x, xs, refl)

module _ {P R : Type 0} (p : Pinner P R) (sha256 : Bytes → Commitment) (data_offset : ℕ)
    (handle : ℕ) (c : Commitment) where
  abbrev pub Waiting : Proxy P R → Type 0
  Waiting = Waits p sha256 data_offset handle c

  abbrev pub Kept : Proxy P R → Proxy P R → Type 0
  Kept = Keeps p sha256 data_offset handle c

  abbrev pub Open : PinGate R → Type 0
  Open = Unreleased p sha256 data_offset handle

  abbrev pub Acknowledged : Proxy P R → Type 0
  Acknowledged = IsAcknowledged p sha256 data_offset handle c

  pub still :
      (st st2 st' : Proxy P R)
      → Waiting st2
      → st2.delivered ≡ st.delivered
      → st2 ≡ st'
      → Kept st st'
  still st st2 st' w d same =
      calm p sha256 data_offset handle c st st2 st' w (ap (replies_of handle) d) same

  pub sent_other :
      (st st2 st' : Proxy P R) (h : ℕ)
      → Waiting st2
      → st2.delivered ≡ st.delivered ++ (h ∷ [])
      → h ≢ handle
      → st2 ≡ st'
      → Kept st st'
  sent_other = delivered_other p sha256 data_offset handle c

  -- A step of the pump leaves the write waiting.
  pub pumped :
      (st st2 : Proxy P R)
      → Waiting st
      → Open st2.gate
      → BTreeMap.get st2.inflight handle ≡ none
      → OfPump p sha256 data_offset handle st2.pump
      → st2.capture ≡ st.capture
      → st2.queue ≡ st.queue
      → st2.actor ≡ st.actor
      → Waiting st2
  pumped = relax p sha256 data_offset handle c
