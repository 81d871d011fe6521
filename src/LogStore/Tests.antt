-- ===== src/LogStore/Tests.antt =====
-- The log at a concrete sequence of calls. A log id is its index, a vote a number.
use enclavia.Base.{ℕ, ◌≡◌, refl, Bool, true, false, leb, Option, none, some, [], ◌∷◌, arith}
use enclavia.Base.BTreeMap
use enclavia.Base.BTreeMap.{BTreeMap}
use enclavia.Base.Key.{nat_key}
use enclavia.Store.{Entry, blank}
use enclavia.LogStore.{LogStoreInner, LogOp, purge_to, purge, keys_in, remove_all}
use enclavia.LogStore.Contents.{rewritten, step-rewritten}
use enclavia.LogStore.Last.{IsIndexed}

abbrev index : ℕ → ℕ
index log_id = log_id

abbrev leq : Option ℕ → Option ℕ → Bool
leq none _ = true
leq (some _) none = false
leq (some a) (some b) = leb a b

abbrev entry : ℕ → Entry ℕ ℕ
entry log_id = record { log_id = log_id; payload = blank }

abbrev log : BTreeMap ℕ (Entry ℕ ℕ)
log = (3, entry 3) ∷ (4, entry 4) ∷ (5, entry 5) ∷ []

abbrev filled : LogStoreInner ℕ ℕ ℕ
filled = record { last_purged_log_id = some 2; log = log; committed = some 3; vote = none }

abbrev purged : LogStoreInner ℕ ℕ ℕ
purged = record filled { last_purged_log_id = some 4; log = (5, entry 5) ∷ [] }

abbrev up_to_4 : LogOp ℕ ℕ ℕ
up_to_4 = purge_to 4

log-IsIndexed : IsIndexed index log
unfolding BTreeMap.get
log-IsIndexed = record { sorted = ground arith; at = λ i e h. ground arith }

step-rewritten_example :
    BTreeMap.get purged.log 4 ≡ rewritten index up_to_4 (BTreeMap.get filled.log) 4
unfolding purge keys_in remove_all BTreeMap.remove
step-rewritten_example = step-rewritten index leq filled purged up_to_4 refl 4
