-- ===== src/Serve/Acknowledged.antt =====
-- What synchronizer/src/raft/serve.rs acknowledges, whatever openraft does.
use enclavia.Base.{ℕ, ◌≡◌, ◌≢◌, Bool, Option, some}
use enclavia.Base.BTreeMap
use enclavia.Base.Key.{nat_key}
use enclavia.Machine.{PcrKey, Commitment, ControlPubkey, KeyState}
use enclavia.Protocol.Chain.{ChainLink, UpgradePayload, RevocationPayload, timestamp_millis}
use enclavia.Wire.{Request, get, register, pin, transition, revoke, error, RpcError}
use enclavia.Wire.Links.{Verifier}
use enclavia.Wire.Links.Authorized.{IsAuthorized}
use enclavia.Wire.Links.Structure.{IsRevocation, IsStructured}
use enclavia.Protocol.Identity.{key}
use enclavia.Store.{ReplicatedOp, applied}
use enclavia.Serve.{answered, OpenRaft, Answered}

module _ {R : Type 0} (open_raft : OpenRaft R) (v : Verifier) (debug_mode : Bool) where
  open open_raft use {submit, ensure_linearizable, state_machine}
  open v use {crypto, upgrades}

  -- The operation was committed and applied, with this result.
  pub record IsCommitted (r : R) (op : ReplicatedOp) : Type 0 where
    pub state : KeyState
    pub applied_as : (submit r op).1 ≡ answered (applied state)

  abbrev pub IsAck : Answered → Type 0
  IsAck a = (e : RpcError) → a.response ≢ error e

  -- The operation that a transition submits: of the keys, the hash and the deadline of its link,
  -- which the frozen control key of the old key authorizes for this session, at the trusted time.
  pub record IsTransition (r : R) (session_key : PcrKey) (pk : ControlPubkey) (now : Option ℕ)
      (link : ChainLink) (c : Commitment) (op : ReplicatedOp) : Type 0 where
    pub payload : UpgradePayload
    pub old : KeyState
    pub now_ms : ℕ
    pub at : now ≡ some now_ms
    pub structured : IsStructured v link payload
    pub held : BTreeMap.get (state_machine r).state (key crypto payload.from) ≡ some old
    pub authorized : IsAuthorized v link payload session_key old.control_pubkey debug_mode now_ms
    pub submits :
        op
        ≡ ReplicatedOp.transition
            (key crypto payload.from)
            (key crypto payload.to)
            pk
            (crypto.sha256 link.payload)
            (timestamp_millis payload.valid_until)
            c

  -- The operation that a revocation submits: of the link hash that its link names, signed by the
  -- frozen control key of the session's key.
  pub record IsRevoke (r : R) (session_key : PcrKey) (link : ChainLink) (op : ReplicatedOp)
      : Type 0 where
    pub payload : RevocationPayload
    pub own : KeyState
    pub held : BTreeMap.get (state_machine r).state session_key ≡ some own
    pub revocation : IsRevocation v link own.control_pubkey payload
    pub submits : op ≡ ReplicatedOp.revoke session_key payload.revokes_link

  -- The operation that a request of a session submits.
  abbrev pub IsFor : R → PcrKey → ControlPubkey → Option ℕ → Request → ReplicatedOp → Type 0
  IsFor r session_key pk now (get k) op = ⊥
  IsFor r session_key pk now (register k c) op =
      (k ≡ session_key) × (op ≡ ReplicatedOp.register k c pk)
  IsFor r session_key pk now (pin k e c) op = (k ≡ session_key) × (op ≡ ReplicatedOp.pin k e c)
  IsFor r session_key pk now (transition link c) op = IsTransition r session_key pk now link c op
  IsFor r session_key pk now (revoke link) op = IsRevoke r session_key link op

  -- What an acknowledgement rests on: a confirmed read, or a committed operation.
  abbrev pub Rests : R → PcrKey → ControlPubkey → Option ℕ → Request → Type 0
  Rests r session_key pk now (get k) = (k ≡ session_key) × ((ensure_linearizable r).1 ≡ answered tt)
  Rests r session_key pk now req =
      (op : ReplicatedOp) × IsFor r session_key pk now req op × IsCommitted r op
