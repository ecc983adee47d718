-- ===== src/Commands.antt =====
-- modules/ecall-commands/src/light_client.rs and commands.rs: what the host asks of the enclave, and
-- the enclave's answers. Texts are their UTF-8 bytes.
use lcp.Base.{Bool, List, Option, none, some}
use lcp.Base.Bytes.{Bytes}
use lcp.Types.Any.{Any}
use lcp.Types.Height.{Height}
use lcp.Crypto.{Address}
use lcp.Commitments.Proof.{CommitmentProof}
use lcp.Store.KvStore.{TxId}
use lcp.LightClient.Path.{ClientId}

pub record InitClientInput (T : Type 0) : Type 0 where
  pub any_client_state : Any
  pub any_consensus_state : Any
  pub current_timestamp : T
  pub signer : Address

pub record UpdateClientInput (T : Type 0) : Type 0 where
  pub client_id : ClientId
  pub any_header : Any
  pub include_state : Bool
  pub current_timestamp : T
  pub signer : Address

pub record AggregateMessagesInput (T : Type 0) : Type 0 where
  pub signer : Address
  pub messages : List Bytes
  pub signatures : List Bytes
  pub current_timestamp : T

pub record CommitmentProofPair : Type 0 where
  pub height : Height
  pub proof : Bytes

pub record VerifyMembershipInput : Type 0 where
  pub client_id : ClientId
  pub prefix : Bytes
  pub path : Bytes
  pub value : Bytes
  pub proof : CommitmentProofPair
  pub signer : Address

pub record VerifyNonMembershipInput : Type 0 where
  pub client_id : ClientId
  pub prefix : Bytes
  pub path : Bytes
  pub proof : CommitmentProofPair
  pub signer : Address

pub record QueryClientInput : Type 0 where
  pub client_id : ClientId

pub data LightClientExecuteCommand (T : Type 0) : Type 0 where
  init_client : InitClientInput T → LightClientExecuteCommand T
  update_client : UpdateClientInput T → LightClientExecuteCommand T
  aggregate_messages : AggregateMessagesInput T → LightClientExecuteCommand T
  verify_membership : VerifyMembershipInput → LightClientExecuteCommand T
  verify_non_membership : VerifyNonMembershipInput → LightClientExecuteCommand T

pub data LightClientQueryCommand : Type 0 where
  query_client : QueryClientInput → LightClientQueryCommand

pub data LightClientCommand (T : Type 0) : Type 0 where
  execute : LightClientExecuteCommand T → LightClientCommand T
  query : LightClientQueryCommand → LightClientCommand T

-- the signer of an execute command
unfoldable pub signer_of : {T : Type 0} → LightClientExecuteCommand T → Address
signer_of (init_client input) = input.signer
signer_of (update_client input) = input.signer
signer_of (aggregate_messages input) = input.signer
signer_of (verify_membership input) = input.signer
signer_of (verify_non_membership input) = input.signer

-- `EnclaveKeySelector::get_enclave_key`
unfoldable pub get_enclave_key : {T : Type 0} → LightClientCommand T → Option Address
unfolding signer_of
get_enclave_key (execute cmd) = some (signer_of cmd)
get_enclave_key (query cmd) = none

pub record InitClientResponse : Type 0 where
  pub client_id : ClientId
  pub proof : CommitmentProof

pub record QueryClientResponse : Type 0 where
  pub any_client_state : Any
  pub any_consensus_state : Any

-- The responses that hold a proof only are that proof.
pub data LightClientResponse : Type 0 where
  init_client_response : InitClientResponse → LightClientResponse
  update_client_response : CommitmentProof → LightClientResponse
  aggregate_messages_response : CommitmentProof → LightClientResponse
  verify_membership_response : CommitmentProof → LightClientResponse
  verify_non_membership_response : CommitmentProof → LightClientResponse
  query_client_response : QueryClientResponse → LightClientResponse

-- `SK` is the type of sealed enclave keys.
pub record CommandContext (T SK : Type 0) : Type 0 where
  pub current_timestamp : T
  pub sealed_ek : Option SK
  pub tx_id : TxId
