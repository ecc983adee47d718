-- ===== src/Examples/Client.antt =====
-- A client of modules/lcp-client from its creation on, with the concrete libraries.
use lcp.Base.{ℕ, refl, true, false, none, some, [], ◌∷◌, ◌++◌, All-replicate, ◌<◌, replicate, arith}
use lcp.Base.Bytes.{Bytes, codes}
use lcp.Types.Height.{Height, zero_height}
use lcp.Commitments.Context.{empty}
use lcp.Commitments.StateId.{IsStateId, default_state_id}
use lcp.Commitments.Message.UpdateState.{UpdateStateProxyMessage}
use lcp.Store.Memory.{InnerMemStore, memory_KvStore}
use lcp.LightClient.Path.{ClientId, NoSlash}
use lcp.LightClient.Context.{Context}
use lcp.LcpClient.ClientState.{ClientState}
use lcp.LcpClient.ClientState.RoundTrip.{IsClientState}
use lcp.Commitments.Message.Misbehaviour.{MisbehaviourProxyMessage}
use lcp.Commitments.Message.VerifyMembership
use lcp.Commitments.Message.VerifyMembership.{VerifyMembershipProxyMessage}
use lcp.Commitments.Message.Proxy
use lcp.LcpClient.Message.{UpdateClientMessage, register_enclave_key}
use lcp.LcpClient.Client.{initialise, update, update_state, submit_misbehaviour}
use lcp.AttestationReport.{EndorsedAttestationVerificationReport}
use lcp.Crypto.{Address, as_address}
use lcp.Examples.Clock.{clock}
use lcp.Examples.Keys.{client_libs}

abbrev pub client_id : ClientId
client_id = codes "lcp-0"

pub client_id-NoSlash : NoSlash client_id
client_id-NoSlash = ground arith

abbrev pub initial : ClientState
initial = record {
  mr_enclave = replicate 32 9;
  key_expiration = record { secs = 1000; subsec_nanos = 0 };
  latest_height = zero_height;
  frozen = false;
}

abbrev pub empty_store : InnerMemStore
empty_store = record {
  running_tx_exists = false;
  latest_tx_id = 0;
  uncommitted_data = [];
  committed_data = [];
}

-- The host's clock stands at five seconds.
abbrev pub start : Context ℕ InnerMemStore
start = record { store = empty_store; current_timestamp = some 5000000000 }

abbrev pub created : Context ℕ InnerMemStore
created =
    (initialise client_libs client_id initial
      (record { state_id = default_state_id; timestamp = 0 }) start).1

abbrev pub eavr : EndorsedAttestationVerificationReport
eavr = record { avr = []; signature = []; signing_cert = [] }

abbrev pub registered : Context ℕ InnerMemStore
registered = (update client_libs client_id (register_enclave_key eavr) created).1

abbrev pub post_height : Height
post_height = record { revision_number = 0; revision_height = 10 }

abbrev pub message : UpdateStateProxyMessage ℕ
message = record {
  prev_height = none;
  prev_state_id = none;
  post_height = post_height;
  post_state_id = replicate 32 1;
  timestamp = 2500000000;
  context = empty;
  emitted_states =
      record { height = post_height; state = record { type_url = []; value = 5 ∷ [] } } ∷ [];
}

-- The address of key 7.
abbrev pub signer : Address
signer = as_address client_libs.secp 7

abbrev pub signature : Bytes
signature = replicate 64 7 ++ (0 ∷ [])

pub initial-IsClientState : IsClientState initial
initial-IsClientState = (
  All-replicate (λ b. b < 256) 32 9 (omega arith),
  (omega arith, omega arith),
  (omega arith, omega arith),
)

pub message-state_id : IsStateId (replicate 32 1)
message-state_id = (refl, All-replicate (λ b. b < 256) 32 1 (omega arith))

-- After the first update.
abbrev pub updated : Context ℕ InnerMemStore
updated = (update_state client_libs client_id initial message signer signature registered).1

abbrev pub at_ten : ClientState
at_ten = record initial { latest_height = post_height }

abbrev pub evidence : MisbehaviourProxyMessage ℕ
evidence = record {
  prev_states = record { height = post_height; state_id = replicate 32 1 } ∷ [];
  context = empty;
  client_message = record { type_url = []; value = 6 ∷ [] };
}

abbrev pub at_ten_frozen : ClientState
at_ten_frozen = record at_ten { frozen = true }

abbrev pub frozen_context : Context ℕ InnerMemStore
frozen_context =
    (submit_misbehaviour client_libs client_id at_ten evidence signer signature updated).1

abbrev pub membership : VerifyMembershipProxyMessage
membership = record {
  prefix = codes "ibc";
  path = codes "acks/1";
  value = some (client_libs.secp.keccak256 (1 ∷ 2 ∷ []));
  height = post_height;
  state_id = replicate 32 1;
}

abbrev pub membership_proof : Bytes
membership_proof = client_libs.abi.commitment_proof.encode (record {
  message = client_libs.abi.headered_message.encode (record {
    header = Proxy.header {T = ℕ} (Proxy.verify_membership membership);
    message = VerifyMembership.ethabi_encode client_libs.abi membership;
  });
  signer = signer;
  signature = signature;
})

pub at_ten-IsClientState : IsClientState at_ten
at_ten-IsClientState = (
  All-replicate (λ b. b < 256) 32 9 (omega arith),
  (omega arith, omega arith),
  (omega arith, omega arith),
)

abbrev pub update_message : UpdateClientMessage ℕ
update_message = record {
  signer = signer;
  signature = signature;
  proxy_message = Proxy.update_state message;
}
