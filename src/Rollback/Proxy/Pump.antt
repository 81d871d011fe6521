-- ===== src/Rollback/Proxy/Pump.antt =====
-- What gated_reply_proxy and flush_stashed of nbd-client/src/rollback.rs do leaves a gated write
-- waiting.
use enclavia.Rollback.Proxy.Steps.{pumped, queue_cases, sent_other, still}
use enclavia.Base.{
  ℕ, zero, suc, ◌≡◌, ◌≢◌, refl, ap, subst, ◌==◌, ◌⊎◌, none, List, [], ◌∷◌, ◌++◌, ok, arith,
  Bool-cases, Option-cases, inl, inr,
}
use enclavia.Base.Bytes.{Bytes}
use enclavia.Base.Key.{nat_key, nat_beq_iff}
use enclavia.Base.BTreeMap
use enclavia.Base.BTreeMap.{BTreeMap, get-insert, get-remove}
use enclavia.Machine.{Commitment}
use enclavia.Rollback.{RegionWatch, verify_read, drop_read}
use enclavia.Rollback.Pin.{check}
use enclavia.Rollback.Proxy.{
  Pinner, Reply, ReplyPump, awaiting, flushing, reading, Proxy, keys, nudge, flush_stashed,
  gated_reply, read_reply, gated_reply_proxy, verify_payload,
}
use enclavia.Rollback.Proxy.Held.{
  check_cases, OfPump, check-Unreleased, passed_is_other, free_is_other,
}
use enclavia.Rollback.Proxy.Requests.{Waits, Keeps}

pump_cases :
    (u : ReplyPump)
    → (u ≡ awaiting)
      ⊎ (((handles : List ℕ) × (u ≡ flushing handles)) ⊎ ((reply : Reply) × (u ≡ reading reply)))
pump_cases awaiting = inl refl
pump_cases (flushing handles) = inr (inl (handles, refl))
pump_cases (reading reply) = inr (inr (reply, refl))

nat_cases : (n : ℕ) → (n ≡ 0) ⊎ ((m : ℕ) × (n ≡ suc m))
nat_cases zero = inl refl
nat_cases (suc m) = inr (m, refl)

module _ {P R : Type 0} (p : Pinner P R) (sha256 : Bytes → Commitment) (data_offset : ℕ)
    (handle : ℕ) (c : Commitment) where
  abbrev Waiting : Proxy P R → Type 0
  Waiting = Waits p sha256 data_offset handle c

  abbrev Kept : Proxy P R → Proxy P R → Type 0
  Kept = Keeps p sha256 data_offset handle c

  pub nudge_holds : (st : Proxy P R) → Waiting st → Kept st (nudge p sha256 data_offset st)
  unfolding nudge
  nudge_holds st w =
      let end = nudge p sha256 data_offset st in
      elim (pump_cases st.pump) [
        | inr (inl (handles, f)) ↦
            still p sha256 data_offset handle c st st end w refl (ground arith)
        | inr (inr (reply, r)) ↦ still p sha256 data_offset handle c st st end w refl (ground arith)
        | inl waits ↦ elim (nat_cases st.nudges) [
          | inl nothing ↦ still p sha256 data_offset handle c st st end w refl (ground arith)
          | inr (n, more) ↦
              let st2 = record st { nudges = n; pump = flushing (keys st.stashed) } in
              still p sha256 data_offset handle c st st2 end
                (pumped p sha256 data_offset handle c st st2 w w.gated w.not_a_read tt refl refl
                  refl)
                refl (ground arith)
        ]
      ]

  pub flush_holds :
      (st st' : Proxy P R)
      → Waiting st
      → flush_stashed p sha256 data_offset st ≡ ok st'
      → Kept st st'
  unfolding flush_stashed
  flush_holds st st' w e = elim (pump_cases st.pump) [
    | inl waits ↦ still p sha256 data_offset handle c st st st' w refl (ground arith)
    | inr (inr (reply, r)) ↦ still p sha256 data_offset handle c st st st' w refl (ground arith)
    | inr (inl (handles, f)) ↦ elim (queue_cases handles) [
      | inl done ↦
          let st2 = record st { pump = awaiting } in
          still p sha256 data_offset handle c st st2 st'
            (pumped p sha256 data_offset handle c st st2 w w.gated w.not_a_read tt refl refl refl)
            refl (ground arith)
      | inr (h, rest, more) ↦
          let gate = (check st.gate h).0 in
          let open_ = check-Unreleased p sha256 data_offset handle c st.gate h w.gated in
          let st2 = record st { gate = gate; pump = flushing rest } in
          let waiting =
            pumped p sha256 data_offset handle c st st2 w open_ w.not_a_read tt refl refl refl in
          elim (check_cases (check st.gate h).1) [
            | inl lost ↦ ground arith
            | inr (inl held) ↦
                still p sha256 data_offset handle c st st2 st' waiting refl (ground arith)
            | inr (inr (inr (reason, refused))) ↦ ground arith
            | inr (inr (inl passed)) ↦
                let st3 : Proxy P R = record st2 {
                  stashed = BTreeMap.remove st.stashed h;
                  delivered = st.delivered ++ (h ∷ []);
                } in
                sent_other p sha256 data_offset handle c st st3 st' h
                  (pumped p sha256 data_offset handle c st st3 w open_ w.not_a_read tt refl refl
                    refl)
                  refl (passed_is_other p sha256 data_offset handle c st.gate h w.gated passed)
                  (ground arith)
          ]
    ]
  ]

  gated_reply_holds :
      (st st' : Proxy P R) (reply : Reply)
      → Waiting st
      → gated_reply p sha256 data_offset st reply ≡ ok st'
      → Kept st st'
  unfolding gated_reply
  gated_reply_holds st st' reply w e =
      let h = reply.handle in
      let gate = (check st.gate h).0 in
      let open_ = check-Unreleased p sha256 data_offset handle c st.gate h w.gated in
      let sent : Proxy P R = record st { gate = gate; delivered = st.delivered ++ (h ∷ []) } in
      let waiting =
        pumped p sha256 data_offset handle c st sent w open_ w.not_a_read w.pump refl refl refl in
      elim (check_cases (check st.gate h).1) [
        | inl free ↦
            sent_other p sha256 data_offset handle c st sent st' h waiting refl
              (free_is_other p sha256 data_offset handle c st.gate h w.gated free) (ground arith)
        | inr (inl held) ↦ elim (Bool-cases (reply.error == 0)) [
          | inr errored ↦ ground arith
          | inl fine ↦
              let st2 = record st { gate = gate; stashed = BTreeMap.insert st.stashed h reply } in
              still p sha256 data_offset handle c st st2 st'
                (pumped p sha256 data_offset handle c st st2 w open_ w.not_a_read w.pump refl refl
                  refl)
                refl (ground arith)
        ]
        | inr (inr (inl passed)) ↦ elim (Bool-cases (reply.error == 0)) [
          | inr errored ↦ ground arith
          | inl fine ↦
              sent_other p sha256 data_offset handle c st sent st' h waiting refl
                (passed_is_other p sha256 data_offset handle c st.gate h w.gated passed)
                (ground arith)
        ]
        | inr (inr (inr (reason, refused))) ↦ ground arith
      ]

  read_reply_holds :
      (st : Proxy P R) (reply : Reply)
      → Waiting st
      → reply.handle ≢ handle
      → Kept st (read_reply p sha256 data_offset st reply)
  unfolding read_reply
  read_reply_holds st reply w other =
      let end = read_reply p sha256 data_offset st reply in
      let seen = λ (watch : RegionWatch). record st {
        watch = watch;
        delivered = st.delivered ++ (reply.handle ∷ []);
      } in
      let waiting : (watch : RegionWatch) → Waiting (seen watch) = λ watch.
        pumped p sha256 data_offset handle c st (seen watch) w w.gated w.not_a_read w.pump refl refl
          refl in
      elim (Option-cases (BTreeMap.get st.watch.reads reply.handle)) [
        | inl unwatched ↦
            sent_other p sha256 data_offset handle c st (seen st.watch) end reply.handle
              (waiting st.watch) refl other (ground arith)
        | inr (r, watched) ↦ elim (Bool-cases (reply.error == 0)) [
          | inr errored ↦
              let watch = drop_read st.watch reply.handle in
              sent_other p sha256 data_offset handle c st (seen watch) end reply.handle
                (waiting watch) refl other (ground arith)
          | inl fine ↦
              let st2 = record st { pump = reading reply } in
              still p sha256 data_offset handle c st st2 end
                (pumped p sha256 data_offset handle c st st2 w w.gated w.not_a_read other refl refl
                  refl)
                refl (ground arith)
        ]
      ]

  pub reply_holds :
      (st st' : Proxy P R) (reply : Reply)
      → Waiting st
      → gated_reply_proxy p sha256 data_offset st reply ≡ ok st'
      → Kept st st'
  unfolding gated_reply_proxy
  reply_holds st st' reply w e =
      let taken = record st { inflight = BTreeMap.remove st.inflight reply.handle } in
      let free : BTreeMap.get taken.inflight handle ≡ none =
        grind (arith, get-remove, nat_beq_iff, w.not_a_read) in
      let waiting =
        pumped p sha256 data_offset handle c st taken w w.gated free w.pump refl refl refl in
      let from_taken : Kept taken st' → Kept st st' =
        λ k. record { waiting = k.waiting; silent = k.silent } in
      elim (pump_cases st.pump) [
        | inr (inl (handles, f)) ↦
            still p sha256 data_offset handle c st st st' w refl (ground arith)
        | inr (inr (other, r)) ↦ still p sha256 data_offset handle c st st st' w refl (ground arith)
        | inl waits ↦ elim (Option-cases (BTreeMap.get st.inflight reply.handle)) [
          | inl unread ↦ from_taken (gated_reply_holds taken st' reply waiting (ground arith))
          | inr (len, issued) ↦
              let end : read_reply p sha256 data_offset taken reply ≡ st' = ground arith in
              from_taken (
                subst (Kept taken) end (
                  read_reply_holds taken reply waiting
                    (λ same. ground (arith, ap (BTreeMap.get st.inflight) same, w.not_a_read))))
        ]
      ]

  pub payload_holds :
      (st st' : Proxy P R) (region : Bytes)
      → Waiting st
      → verify_payload p sha256 data_offset st region ≡ ok st'
      → Kept st st'
  unfolding verify_payload
  payload_holds st st' region w e = elim (pump_cases st.pump) [
    | inl waits ↦ still p sha256 data_offset handle c st st st' w refl (ground arith)
    | inr (inl (handles, f)) ↦ still p sha256 data_offset handle c st st st' w refl (ground arith)
    | inr (inr (reply, r)) ↦
        let other : reply.handle ≢ handle = subst (OfPump p sha256 data_offset handle) r w.pump in
        let watch = (verify_read sha256 st.watch reply.handle region).0 in
        let st2 : Proxy P R = record st {
          watch = watch;
          pump = awaiting;
          delivered = st.delivered ++ (reply.handle ∷ []);
        } in
        elim (Bool-cases (verify_read sha256 st.watch reply.handle region).1) [
          | inr mismatch ↦ ground arith
          | inl fresh ↦
              sent_other p sha256 data_offset handle c st st2 st' reply.handle
                (pumped p sha256 data_offset handle c st st2 w w.gated w.not_a_read tt refl refl
                  refl)
                refl other (ground arith)
        ]
  ]
