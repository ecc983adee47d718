-- ===== src/Examples/Enclave.antt =====
-- An enclave with one light client, for the examples of the command handler.
use lcp.Base.{ℕ, true, none, some, [], ◌∷◌, Result, ok, err, panic, replicate, if◌then◌else◌, false}
use lcp.Base.Equality.{◌==◌}
use lcp.Base.Bytes.{Bytes, codes, bytes_PartialEq}
use lcp.Types.Any.{Any}
use lcp.Types.Height.{Height}
use lcp.Crypto.{CryptoError, Signer, sealed_signer}
use lcp.Commitments.Message.UpdateState.{UpdateStateProxyMessage}
use lcp.Commitments.Message.Proxy
use lcp.Commitments.Proof.{new_with_no_signature}
use lcp.Store.Memory.{InnerMemStore, memory_KvStore}
use lcp.LightClient.Client.{LightClient, UpdateStateData, state_updated}
use lcp.LightClient.Context.{Context}
use lcp.Commands.{
  InitClientInput, UpdateClientInput, AggregateMessagesInput, LightClientResponse,
  update_client_response, CommandContext,
}
use lcp.Handler.{Env}
use lcp.Handler.Errors.{Error}
use lcp.Handler.Init.{init_client}
use lcp.Examples.Abi.{libs, bincode}
use lcp.Examples.Clock.{clock}
use lcp.Examples.Keys.{secp}
use lcp.Examples.Client.{message, membership, post_height, signer, signature, empty_store}

abbrev pub any : ℕ → Any
any n = record { type_url = codes "/toy"; value = n ∷ [] }

abbrev pub next_height : Height
next_height = record { revision_number = 0; revision_height = 11 }

abbrev pub next_message : UpdateStateProxyMessage ℕ
next_message = record message {
  prev_height = some post_height;
  prev_state_id = some (replicate 32 1);
  post_height = next_height;
  post_state_id = replicate 32 2;
  emitted_states = [];
}

abbrev pub update_data : UpdateStateData ℕ
update_data = record {
  new_any_client_state = any 2;
  new_any_consensus_state = any 3;
  height = next_height;
  message = next_message;
  prove = true;
}

-- It starts at height 10 and is updated to height 11 by any header.
abbrev pub toy : LightClient ℕ InnerMemStore
toy = record {
  client_type = codes "toy-client";
  latest_height = λ ctx id. ok next_height;
  create_client = λ ctx client consensus.
      ok (record { height = post_height; message = Proxy.update_state message; prove = true });
  update_client = λ ctx id header. ok (state_updated update_data);
  verify_membership = λ ctx id prefix path value height proof. ok (record { message = membership });
  verify_non_membership = λ ctx id prefix path height proof. ok (record { message = membership });
}

abbrev pub env : Env ℕ ℕ ℕ InnerMemStore
env = record {
  abi = libs;
  bincode = bincode;
  secp = secp;
  unicode_alphanumeric = λ c. false;
  get_light_client = λ url. if url == codes "/toy" then some toy else none;
}

-- A sealed key is the key itself.
abbrev pub unseal : ℕ → Result CryptoError ℕ
unseal k = ok k

abbrev pub ek : Signer ℕ
ek = sealed_signer secp unseal 7

abbrev pub start : Context ℕ InnerMemStore
start = record { store = empty_store; current_timestamp = none }

abbrev pub command_context : CommandContext ℕ ℕ
command_context = record { current_timestamp = 5000000000; sealed_ek = some 7; tx_id = 1 }

abbrev pub init_input : InitClientInput ℕ
init_input = record {
  any_client_state = any 0;
  any_consensus_state = any 1;
  current_timestamp = 5000000000;
  signer = signer;
}

abbrev pub toy_id : Bytes
toy_id = codes "toy-client-0"

abbrev pub update_input : UpdateClientInput ℕ
update_input = record {
  client_id = toy_id;
  any_header = any 9;
  include_state = true;
  current_timestamp = 6000000000;
  signer = signer;
}

abbrev bytes_of : UpdateStateProxyMessage ℕ → Bytes
bytes_of m = elim (Proxy.to_bytes libs (Proxy.update_state m)) [
  | ok bz ↦ bz
  | err e ↦ []
  | panic ↦ []
]

abbrev pub aggregate_input : AggregateMessagesInput ℕ
aggregate_input = record {
  signer = signer;
  messages = bytes_of message ∷ bytes_of next_message ∷ [];
  signatures = signature ∷ signature ∷ [];
  current_timestamp = 5000000000;
}

-- the response of a run that has one
abbrev pub response_of : Result (Error ℕ) LightClientResponse → LightClientResponse
response_of (ok response) = response
response_of (err e) = update_client_response (new_with_no_signature [])
response_of panic = update_client_response (new_with_no_signature [])

abbrev pub created : Context ℕ InnerMemStore
created = (init_client env ek init_input start).1
