-- ===== src/Lib.antt =====
-- The synchronizer of Enclavia: the replicated service that keeps, for each enclave image, the
-- commitment that the enclave last pinned, so that a host cannot roll its disk back.
--
-- The parts of the program, and the files that model them:
--   * synchronizer/src/lib.rs, the state machine `StateMachine`: Machine.antt. `apply`,
--     `apply_register`, `apply_pin`, `apply_transition`, `apply_revoke`, `observe_attestation`,
--     `observe_transition` and `is_revoked` have the names of the methods; a method that takes
--     `&mut self` returns the new state beside its result. Machine/Spec has the `ValidOp` and
--     `ApplyOp` of the documentation on views, which forget the order of the containers;
--     Machine/Snapshot has the snapshots and the queries; Machine/Run the sequences of inputs.
--   * enclavia-protocol/src/{pin_identity,signing,chain}.rs, what links are made of: Protocol.antt.
--     Protocol/Identity is the identity of an enclave and its key, Protocol/Signing the signing
--     domains and the canonical decoding, Protocol/Chain the links and their payloads.
--   * synchronizer/src/wire.rs, the requests and the verifiers of links: Wire.antt, Wire/Window and
--     Wire/Links. Wire/Links/Authorized and Wire/Links/Structure say what the verifiers accept.
--   * synchronizer/src/node.rs, the handlers of a session's requests: Node.antt. They verify a link
--     with Wire/Links against the control key that Machine froze, and hand operations to `apply`.
--     Node/Sessions has sequences of events: attested connections and requests.
--   * synchronizer/src/raft/store.rs and the replicated operations of raft/mod.rs: Store.antt. Each
--     replica replays the committed entries into its own state machine with `apply_one`.
--   * synchronizer/src/raft/serve.rs, the same requests on the leader of a cluster: Serve.antt. Its
--     handlers submit operations to openraft, which hands them to `apply_one` of every replica.
--     Serve/Replicated relates them to the handlers of Node.antt, Serve/Acknowledged says what an
--     acknowledgement rests on.
--   * the in-memory Raft log of store.rs, `LogStore`: LogStore.antt. LogStore/Contents says what it
--     holds at each index, LogStore/Last which log id it reports as the last one.
--   * synchronizer/src/raft/membership.rs, who is admitted to the cluster: Membership.antt. It is a
--     pure function of the committed voters, which the leader's log then commits.
--   * nbd-client/src/rollback.rs, the client that compares a disk with the pin: Rollback.antt.
--     Rollback/Boot has the decision at boot and the classification of writes, Rollback/Watch the
--     watch over the reads of the superblock region, Rollback/Pin the gate that holds the reply of
--     a superblock write and one attempt to pin it, Rollback/Retry the retries of a pin, and
--     Rollback/BootFlow the boot, `verify_or_register`, with Node.antt as its oracle in
--     Rollback/BootFlow/OnNode.
--   * the tasks of that client, `request_proxy` of nbd-client/src/main.rs, `pin_actor`,
--     `gated_reply_proxy` and `flush_stashed` of rollback.rs: Rollback/Proxy. They share the gate
--     and the watch; an event is what one task does until it next waits, and a run is any
--     sequence of events, in which a failed pin stops the pin actor only.
--   * enclavia-protocol/src/chain.rs, the chain of an enclave's upgrades: UpgradeChain.antt.
--     UpgradeChain/Link is `validate_chain_link`, UpgradeChain/Accepted what it accepts
--     (described without the program's own tests in Accepted/Described and Accepted/Cancelled),
--     UpgradeChain/Ingest the chains that it admits link by link; UpgradeChain/Walk is the loop of
--     `validate_chain`, UpgradeChain/Walk/Lineage what the loop knows of the links behind it;
--     UpgradeChain/Descent is `verify_pcr_descent`, by which a client extends its trust from
--     pinned measurements to those of an upgraded enclave.
--   * Base.antt: Rust's ordered maps and sets, signed integers, byte strings, results.
--
-- Numbers and bounds. A byte array of fixed length (a key, a commitment, a public key, a hash) is
-- the number that its bytes spell, most significant first, so that the derived order of the arrays
-- is the order of the numbers; PCRs and payloads are lists of bytes. A version is a `u64` and
-- wraps, as in a release build; the theorems on histories bound the number of inputs so that it
-- does not. Times are signed and unbounded, in nanoseconds in payloads, in milliseconds where the
-- verifiers compare them (the program compares in `i128`; chrono's range, at whose ends its
-- arithmetic panics, is left out). Every loop is structural recursion, but for the retries of a
-- pin, which have 154 rounds of fuel: more than the three re-establishments and the 150 pauses of
-- two seconds that the budget of five minutes allows.
--
-- Parameters. SHA-256, ECDSA, the CBOR codecs, the validation of an attestation document (which
-- yields the identity it carries), openraft's log ids and memberships, and the trusted time (absent
-- when it cannot be read), hexadecimal, what openraft makes of a submitted operation, and the
-- session of a pin with its clock are arguments of the definitions. The hypotheses made on them are
-- that the decoder of a snapshot reads back what the encoder writes, and that the clock is monotone
-- and a sleep lasts as long as asked for.
--
-- Not modelled: the transport (Noise over vsock, the mesh of nodes), the Raft protocol itself
-- (openraft), attestation documents, metrics and logging, the framing of nbd-client, enclavia-cli,
-- the client library and its bindings, and the programs that start an enclave: they are input and
-- output around the parts above, or libraries that these call. Concurrency in a node is excluded by
-- its lock, so a handler is one step.
pub mod Base
pub mod Machine
pub mod Protocol
pub mod Wire
pub mod Store
pub mod LogStore
pub mod Rollback
pub mod UpgradeChain
pub mod Serve
pub mod Node
pub mod Membership
