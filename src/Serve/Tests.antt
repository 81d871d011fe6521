-- ===== src/Serve/Tests.antt =====
-- The replicated handlers at a concrete cluster.
use enclavia.Base.{◌≡◌, refl, false, none, some, [], ◌∷◌}
use enclavia.Base.BTreeMap
use enclavia.Base.BTreeSet
use enclavia.Machine.{StateMachine, init, apply}
use enclavia.Machine
use enclavia.Node.{handle_request}
use enclavia.Wire.{Request, register, register_ok, transition}
use enclavia.Wire.Fixtures.{verifier, upgrade_link, old_key}
use enclavia.Store.{apply_one}
use enclavia.Serve.{
  answer, OpenRaft, failed, elapsed, handle_on_leader, handle_register, deadline_elapsed,
}
use enclavia.Serve.Replicated.{committing, node_of, Agrees, handle_on_leader-Agrees}

-- The session of the key 4, whose control key is 9, registers the commitment 7.
abbrev registration : Request
registration = register 4 7

handle_on_leader-Agrees_example :
    Agrees
      (handle_on_leader committing verifier false init 4 9 (some 1000) registration)
      (handle_request verifier (node_of init false 4 9) 4 (some 1000) registration)
handle_on_leader-Agrees_example = handle_on_leader-Agrees verifier false init 4 9 1000 registration

registered :
    (handle_on_leader committing verifier false init 4 9 none registration).1 ≡ answer register_ok
unfolding handle_on_leader handle_register apply_one apply Machine.observe_attestation BTreeMap.get
    BTreeMap.insert BTreeSet.contains
registered = refl

-- The enclave of the old key, whose control key is 10, registered the commitment 101.
abbrev registered_old : StateMachine
registered_old = record init {
  state = (old_key, record { commitment = 101; version = 0; control_pubkey = 10 }) ∷ [];
}

abbrev cutover : Request
cutover = transition upgrade_link 101

-- A cluster that lost its quorum.
abbrev stalled : OpenRaft StateMachine
stalled = record {
  submit = λ sm op. (sm, elapsed);
  ensure_linearizable = λ sm. (sm, failed);
  state_machine = λ sm. sm;
}

timed_out :
    (handle_on_leader stalled verifier false init 4 9 none registration).1 ≡ deadline_elapsed
unfolding handle_on_leader handle_register
timed_out = refl
