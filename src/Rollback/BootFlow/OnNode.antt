-- ===== src/Rollback/BootFlow/OnNode.antt =====
-- The boot flow of nbd-client/src/rollback.rs against the node of synchronizer/src/node.rs: the
-- client of synchronizer/src/client.rs on a session whose key is the booting enclave's. `now` is
-- the trusted time that a transition reads, `unexpected` the error of a response of another kind.
use enclavia.Base.{ℕ, ◌≡◌, refl, Option, some, Result, ok, err, arith}
use enclavia.Base.Bytes.{Bytes}
use enclavia.Machine.{PcrKey, Commitment, Version}
use enclavia.Protocol.Chain.{ChainLink}
use enclavia.Wire.{Request, Response, get_ok, register_ok, pin_ok, transition_ok, revoke_ok, error}
use enclavia.Wire.Links.{Verifier}
use enclavia.Node.{Node, handle_request}
use enclavia.Node.ReadBack.{Reads, read_your_writes}
use enclavia.Rollback.{ClientError, rpc, other, ImageRole}
use enclavia.Rollback.BootFlow.{BootOracle, verify_or_register}
use enclavia.Rollback.BootFlow.Served.{IsTruthful, verify_or_register-Sound}

module _ {E : Type 0} (unexpected : E) where
  -- `Client::get`, `Client::register` and `Client::transition` on a response.
  abbrev pub get_result : Response → Result (Commitment × Version) (ClientError E)
  get_result (get_ok commitment version) = ok (commitment, version)
  get_result (error e) = err (rpc e)
  get_result _ = err (other unexpected)

  abbrev pub register_result : Response → Result (Unit {0}) (ClientError E)
  register_result register_ok = ok tt
  register_result (error e) = err (rpc e)
  register_result _ = err (other unexpected)

  abbrev pub transition_result : Response → Result Version (ClientError E)
  transition_result (transition_ok version) = ok version
  transition_result (error e) = err (rpc e)
  transition_result _ = err (other unexpected)

  get_result_ok :
      (r : Response) (c : Commitment) (w : Version) → get_result r ≡ ok (c, w) → r ≡ get_ok c w
  get_result_ok (get_ok d x) c w h = ground arith
  get_result_ok (error e) c w h = ground arith
  get_result_ok register_ok c w h = ground arith
  get_result_ok (pin_ok x) c w h = ground arith
  get_result_ok (transition_ok x) c w h = ground arith
  get_result_ok revoke_ok c w h = ground arith

  register_result_ok : (r : Response) → register_result r ≡ ok tt → r ≡ register_ok
  register_result_ok register_ok h = refl
  register_result_ok (error e) h = ground arith
  register_result_ok (get_ok d x) h = ground arith
  register_result_ok (pin_ok x) h = ground arith
  register_result_ok (transition_ok x) h = ground arith
  register_result_ok revoke_ok h = ground arith

  module _ (v : Verifier) (own_key : PcrKey) (now : Option ℕ) where
    abbrev asked : Node → Request → Node × Response
    asked node req = handle_request v node own_key now req

    unfoldable pub node_oracle : BootOracle Node E
    node_oracle = record {
      get = λ node k. let (after, r) = asked node (Request.get k) in (after, some (get_result r));
      register = λ node k commitment.
          let (after, r) = asked node (Request.register k commitment) in
          (after, some (register_result r));
      transition = λ node link commitment.
          let (after, r) = asked node (Request.transition link commitment) in
          (after, some (transition_result r));
    }

    -- A later `Get` of the session is answered with the commitment and the version.
    abbrev pub ReadsBack : Node → Commitment → Version → Type 0
    ReadsBack node c w = Reads v node own_key (get_ok c w)

    module _ (sha256 : Bytes → Commitment) (region : Bytes) where
      open v use {crypto, upgrades}

      node-IsTruthful : IsTruthful node_oracle crypto upgrades sha256 own_key region ReadsBack
      unfolding node_oracle
      node-IsTruthful = record {
        read = λ node c w h.
            let r = (asked node (Request.get own_key)).1 in
            let same : r ≡ get_ok c w = get_result_ok r c w (ground arith) in
            read_your_writes v node own_key now (Request.get own_key) (get_ok c w) (ground arith);
        registered = λ node c h.
            let r = (asked node (Request.register own_key c)).1 in
            let same : r ≡ register_ok = register_result_ok r (ground arith) in
            read_your_writes v node own_key now (Request.register own_key c) (get_ok c 0)
              (ground arith);
      }

      -- A volume is served only as the synchronizer holds it. When an enclave boots on a node, in
      -- any state, whatever the image's role and the link that chain-host serves, and the boot
      -- returns a version, then the node answers the `Get`s of the enclave with the commitment of
      -- the volume's region at that version.
      pub served_volume_is_pinned :
          (node : Node) (role : ImageRole) (link : Option ChainLink) (w : Version)
          → (verify_or_register node_oracle crypto upgrades sha256 own_key region node role link).1
            ≡ ok w
          → ReadsBack
              (verify_or_register node_oracle crypto upgrades sha256 own_key region node role
                link).0
              (sha256 region)
              w
      served_volume_is_pinned node role link w h =
          verify_or_register-Sound node_oracle crypto upgrades sha256 own_key region ReadsBack
            node-IsTruthful node role link w h
