-- ===== src/Wire.antt =====
-- synchronizer/src/wire.rs: the requests, responses and errors of the synchronizer's protocol. The
-- verifiers of the links that transitions and revocations present are in Wire/Links.
pub mod Window
pub mod Links
pub mod Fixtures
mod Tests
use enclavia.Base.Bytes.{Bytes}
use enclavia.Machine.{PcrKey, Commitment, Version, ValidationError}
use enclavia.Machine
use enclavia.Protocol.Chain.{ChainLink}

pub data Request : Type 0 where
  get : (key : PcrKey) → Request
  register : (key : PcrKey) (commitment : Commitment) → Request
  pin : (key : PcrKey) (expected_version : Version) (commitment : Commitment) → Request
  transition : (link : ChainLink) (commitment : Commitment) → Request
  revoke : (link : ChainLink) → Request

pub data RpcError : Type 0 where
  unauthorized not_found already_registered transition_rejected operation_rejected : RpcError
  version_conflict unavailable transition_revoked revocation_rejected : RpcError
  transition_commitment_mismatch : RpcError

pub data Response : Type 0 where
  get_ok : (commitment : Commitment) (version : Version) → Response
  register_ok : Response
  pin_ok : (version : Version) → Response
  transition_ok : (version : Version) → Response
  revoke_ok : Response
  error : RpcError → Response

-- `From<ValidationError> for RpcError`
abbrev pub rpc_error : ValidationError → RpcError
rpc_error Machine.not_attested = transition_rejected
rpc_error Machine.new_key_not_attested = transition_rejected
rpc_error Machine.no_transition_authorization = transition_rejected
rpc_error Machine.new_key_already_exists = transition_rejected
rpc_error Machine.old_key_equals_new = transition_rejected
rpc_error Machine.transition_revoked = transition_revoked
rpc_error Machine.commitment_mismatch = transition_commitment_mismatch
rpc_error Machine.key_not_current = not_found
rpc_error (Machine.stale_pin _ _) = version_conflict
rpc_error Machine.already_registered = already_registered
rpc_error Machine.key_retired = operation_rejected
