-- ===== src/Rollback/Proxy/Requests.antt =====
-- What request_proxy of nbd-client/src/main.rs does leaves a gated write of another handle waiting.
use enclavia.Base.{ℕ, ◌≡◌, ◌≢◌, refl, sym, subst, ◌⊎◌, none, [], ◌∷◌, ◌++◌, ok, arith, inl, inr}
use enclavia.Base.Bytes.{Bytes}
use enclavia.Base.Key.{nat_key, nat_beq_iff}
use enclavia.Base.BTreeMap
use enclavia.Base.BTreeMap.{BTreeMap, get-insert, get-remove}
use enclavia.Machine.{Commitment}
use enclavia.Rollback.{
  SbOverlap, disjoint, partial, full, primary_sb_overlap, watch_read, begin_pending,
}
use enclavia.Rollback.Pin.{begin, pending}
use enclavia.Rollback.Proxy.{
  Pinner, PinJob, NbdCommand, read, write, disc, trim, write_zeroes, other_command, Request,
  Capture, idle, capturing, captured, PinActor, receiving, pinning, stopped, Proxy, on_read,
  on_write, on_mutation, request, capture_region, queue_pin,
}
use enclavia.Rollback.Proxy.Held.{
  AllOf-append, replies_of, OfJob, OfCapture, OfPump, Unreleased, IsWaiting, Holds,
  insert-Unreleased, calm, relax,
}

overlap_cases : (o : SbOverlap) → (o ≡ disjoint) ⊎ ((o ≡ partial) ⊎ ((n : ℕ) × (o ≡ full n)))
overlap_cases disjoint = inl refl
overlap_cases partial = inr (inl refl)
overlap_cases (full n) = inr (inr (n, refl))

command_cases :
    (k : NbdCommand)
    → (k ≡ read)
      ⊎ ((k ≡ write) ⊎ ((k ≡ trim) ⊎ ((k ≡ write_zeroes) ⊎ ((k ≡ disc) ⊎ (k ≡ other_command)))))
command_cases read = inl refl
command_cases write = inr (inl refl)
command_cases trim = inr (inr (inl refl))
command_cases write_zeroes = inr (inr (inr (inl refl)))
command_cases disc = inr (inr (inr (inr (inl refl))))
command_cases other_command = inr (inr (inr (inr (inr refl))))

capture_cases :
    (k : Capture)
    → (k ≡ idle) ⊎ (((h : ℕ) × (k ≡ capturing h)) ⊎ ((job : PinJob) × (k ≡ captured job)))
capture_cases idle = inl refl
capture_cases (capturing h) = inr (inl (h, refl))
capture_cases (captured job) = inr (inr (job, refl))

pub actor_cases :
    (a : PinActor) → (a ≡ receiving) ⊎ (((job : PinJob) × (a ≡ pinning job)) ⊎ (a ≡ stopped))
actor_cases receiving = inl refl
actor_cases (pinning job) = inr (inl (job, refl))
actor_cases stopped = inr (inr refl)

module _ {P R : Type 0} (p : Pinner P R) (sha256 : Bytes → Commitment) (data_offset : ℕ)
    (handle : ℕ) (c : Commitment) where
  abbrev pub Waits : Proxy P R → Type 0
  Waits = IsWaiting p sha256 data_offset handle c

  abbrev pub Keeps : Proxy P R → Proxy P R → Type 0
  Keeps = Holds p sha256 data_offset handle c

  quiet :
      (st st2 st' : Proxy P R)
      → Waits st2
      → replies_of handle st2.delivered ≡ replies_of handle st.delivered
      → st2 ≡ st'
      → Keeps st st'
  quiet = calm p sha256 data_offset handle c

  issued_read :
      (st st2 : Proxy P R)
      → Waits st
      → st2.gate ≡ st.gate
      → BTreeMap.get st2.inflight handle ≡ none
      → st2.pump ≡ st.pump
      → st2.capture ≡ st.capture
      → st2.queue ≡ st.queue
      → st2.actor ≡ st.actor
      → Waits st2
  issued_read st st2 w g free pump k q a =
      relax p sha256 data_offset handle c st st2 w
        (subst (Unreleased p sha256 data_offset handle) (sym g) w.gated) free
        (subst (OfPump p sha256 data_offset handle) (sym pump) w.pump) k q a

  read_holds :
      (st st' : Proxy P R) (req : Request) (o : SbOverlap)
      → Waits st
      → req.handle ≢ handle
      → on_read p sha256 data_offset st req o ≡ ok st'
      → Keeps st st'
  unfolding on_read
  read_holds st st' req o w other e =
      let issued = BTreeMap.insert st.inflight req.handle req.length in
      let free : BTreeMap.get issued handle ≡ none =
        grind (arith, get-insert, nat_beq_iff, w.not_a_read) in
      elim (overlap_cases o) [
        | inl d ↦
            let st2 = record st { inflight = issued } in
            quiet st st2 st' (issued_read st st2 w refl free refl refl refl refl) refl
              (ground arith)
        | inr (inl d) ↦
            let st2 = record st { inflight = issued } in
            quiet st st2 st' (issued_read st st2 w refl free refl refl refl refl) refl
              (ground arith)
        | inr (inr (n, d)) ↦
            let st2 = record st { inflight = issued; watch = watch_read st.watch req.handle n } in
            quiet st st2 st' (issued_read st st2 w refl free refl refl refl refl) refl
              (ground arith)
      ]

  write_holds :
      (st st' : Proxy P R) (req : Request) (o : SbOverlap)
      → Waits st
      → req.handle ≢ handle
      → on_write p sha256 data_offset st req o ≡ ok st'
      → Keeps st st'
  unfolding on_write
  write_holds st st' req disjoint w other e = quiet st st st' w refl (ground arith)
  write_holds st st' req partial w other e = ground arith
  write_holds st st' req (full n) w other e =
      let st2 = record st { gate = begin st.gate req.handle; capture = capturing req.handle } in
      let waiting : Waits st2 = record {
        gated =
            insert-Unreleased p sha256 data_offset handle c st.gate req.handle pending other
              w.gated;
        not_a_read = w.not_a_read;
        capture = other;
        queued = w.queued;
        actor = w.actor;
        pump = w.pump;
      } in
      quiet st st2 st' waiting refl (ground arith)

  mutation_holds :
      (st st' : Proxy P R) (o : SbOverlap)
      → Waits st
      → on_mutation p sha256 data_offset st o ≡ ok st'
      → Keeps st st'
  unfolding on_mutation
  mutation_holds st st' disjoint w e = quiet st st st' w refl (ground arith)
  mutation_holds st st' partial w e = ground arith
  mutation_holds st st' (full n) w e = ground arith

  pub request_holds :
      (st st' : Proxy P R) (req : Request)
      → Waits st
      → req.handle ≢ handle
      → request p sha256 data_offset st req ≡ ok st'
      → Keeps st st'
  unfolding request
  request_holds st st' req w other e =
      let o = primary_sb_overlap req.offset req.length data_offset in
      elim (capture_cases st.capture) [
        | inr (inl (h, busy)) ↦ quiet st st st' w refl (ground arith)
        | inr (inr (job, busy)) ↦ quiet st st st' w refl (ground arith)
        | inl free ↦ elim (command_cases req.command) [
          | inl r ↦ read_holds st st' req o w other (ground arith)
          | inr (inl r) ↦ write_holds st st' req o w other (ground arith)
          | inr (inr (inl r)) ↦ mutation_holds st st' o w (ground arith)
          | inr (inr (inr (inl r))) ↦ mutation_holds st st' o w (ground arith)
          | inr (inr (inr (inr (inl r)))) ↦ quiet st st st' w refl (ground arith)
          | inr (inr (inr (inr (inr r)))) ↦ quiet st st st' w refl (ground arith)
        ]
      ]

  pub capture_holds :
      (st : Proxy P R) (region : Bytes)
      → Waits st
      → Keeps st (capture_region p sha256 data_offset st region)
  unfolding capture_region
  capture_holds st region w =
      let end = capture_region p sha256 data_offset st region in
      elim (capture_cases st.capture) [
        | inl free ↦ quiet st st end w refl (ground arith)
        | inr (inr (job, passed)) ↦ quiet st st end w refl (ground arith)
        | inr (inl (h, busy)) ↦
            let other : h ≢ handle =
              subst (OfCapture p sha256 data_offset handle c) busy w.capture in
            let st2 = record st {
              watch = begin_pending st.watch h (sha256 region);
              capture = captured (record { handle = h; commitment = sha256 region });
            } in
            let waiting : Waits st2 = record {
              gated = w.gated;
              not_a_read = w.not_a_read;
              capture = λ same. absurd (other same);
              queued = w.queued;
              actor = w.actor;
              pump = w.pump;
            } in
            quiet st st2 end waiting refl (ground arith)
      ]

  pub queue_holds :
      (st st' : Proxy P R) → Waits st → queue_pin p sha256 data_offset st ≡ ok st' → Keeps st st'
  unfolding queue_pin
  queue_holds st st' w e = elim (capture_cases st.capture) [
    | inl free ↦ quiet st st st' w refl (ground arith)
    | inr (inl (h, busy)) ↦ quiet st st st' w refl (ground arith)
    | inr (inr (job, passed)) ↦
        let of_job : OfJob p sha256 data_offset handle c job =
          subst (OfCapture p sha256 data_offset handle c) passed w.capture in
        let st2 : Proxy P R = record st { capture = idle; queue = st.queue ++ (job ∷ []) } in
        let waiting : Waits st2 = record {
          gated = w.gated;
          not_a_read = w.not_a_read;
          capture = tt;
          queued = AllOf-append handle c st.queue job w.queued of_job;
          actor = w.actor;
          pump = w.pump;
        } in
        elim (actor_cases st.actor) [
          | inl waits ↦ quiet st st2 st' waiting refl (ground arith)
          | inr (inl (j, pins)) ↦ quiet st st2 st' waiting refl (ground arith)
          | inr (inr gone) ↦ ground arith
        ]
  ]
