-- ===== src/Examples/Handler.antt =====
-- The command handler and the registry, at concrete inputs.
use lcp.Base.{ℕ, ◌<◌, ◌≡◌, refl, true, some, none, List, [], ◌∷◌, ok, arith}
use lcp.Base.Equality
use lcp.Base.HashMap
use lcp.Base.Decimal
use lcp.Base.Bytes.{Bytes, codes, to_be_bytes, from_be_bytes}
use lcp.Base.Utf8.{is_utf8, chars}
use lcp.Types.Time
use lcp.Types.Any
use lcp.Types.Any.{IsAny}
use lcp.Types.Host
use lcp.Crypto
use lcp.Commitments.Context
use lcp.Commitments.Message.UpdateState
use lcp.Commitments.Message.Proxy
use lcp.Commitments.StateId
use lcp.Commitments.Proof
use lcp.Commitments.Proof.{CommitmentProof}
use lcp.Store.Memory
use lcp.Store.Memory.{memory_KvStore}
use lcp.LightClient.Path
use lcp.LightClient.Path.{NoSlash, client_path}
use lcp.LightClient.Context as HostContext
use lcp.LightClient.Context.{client_state}
use lcp.LightClient.Registry.{
  MapLightClientRegistry, empty_registry, get_light_client, put_light_client,
}
use lcp.LightClient.Registry.Calls.{put-lasting, calls-sealed, calls, puts, seals}
use lcp.Commands
use lcp.Commands.{
  CommandContext, LightClientCommand, LightClientResponse, execute, init_client,
  query_client_response,
}
use lcp.Handler
use lcp.Handler.Messages
use lcp.Handler.Aggregate.{aggregate_messages}
use lcp.Handler.Aggregate.Sound.{Aggregated, aggregate_messages-ok}
use lcp.Handler.Init
use lcp.Handler.Fresh.{Fresh-empty}
use lcp.Handler.Init.Stored.{Created, init_client-ok}
use lcp.Handler.Update
use lcp.Handler.State.{query_client}
use lcp.Handler.Update.Stored.{query_client-update_client}
use lcp.Handler.Router
use lcp.Handler.Router.{dispatch}
use lcp.Handler.Router.Signed.{Vouched, dispatch-Vouched, proof_of}
use lcp.Handler.Fresh.Run.{run, step, init_client-keeps}
use lcp.Examples.Abi.{bincode}
use lcp.Examples.Keys.{secp}
use lcp.Examples.Clock.{clock}
use lcp.Examples.Enclave.{
  any, toy, env, unseal, ek, start, command_context, init_input, toy_id, update_input, update_data,
  aggregate_input, response_of, created,
}
use lcp.Examples.Client.{empty_store}

abbrev init_response : LightClientResponse
init_response =
    response_of
      (dispatch env unseal command_context (execute (init_client init_input)) (λ t. empty_store)).0

abbrev init_proof : CommitmentProof
init_proof = elim (proof_of init_response) [
  | some proof ↦ proof
  | none ↦ Proof.new_with_no_signature []
]

abbrev inits : List (CommandContext ℕ ℕ × LightClientCommand ℕ)
inits = (command_context, execute (init_client init_input)) ∷ []

runs :
    ((aggregate_messages env ek aggregate_input start).0
      ≡ ok (response_of (aggregate_messages env ek aggregate_input start).0))
    × ((Init.init_client env ek init_input start).0
        ≡ ok (response_of (Init.init_client env ek init_input start).0))
    × (client_state env.bincode created toy_id ≡ ok (any 0))
    × ((dispatch env unseal command_context (execute (init_client init_input)) (λ t. empty_store)).0
        ≡ ok init_response)
    × (proof_of init_response ≡ some init_proof)
    × (Memory.get (run env unseal inits empty_store) (Path.client_state_path toy_id)
        ≡ some (bincode.encode (any 0)))
    × (Commands.signer_of (init_client init_input) ≡ Crypto.as_address secp 7)
unfolding aggregate_messages Messages.parse_messages Messages.check_messages Messages.verify_message
    Init.init_client Init.advance_counter Init.gen_client_id Handler.make_proof Equality.option_eq
    Equality.list_eq is_utf8 chars Proof.prove_commitment HostContext.client_counter
    HostContext.set_timestamp HostContext.host_timestamp HostContext.increase_client_counter
    HostContext.store_client_type Path.client_type_path HostContext.new Host.from_str
    Host.validate_identifier Host.contains Host.all_valid Host.is_alphanumeric
    Host.valid_special_chars Proxy.from_bytes Proxy.decode_payload Proxy.to_update_state
    Proxy.validate StateId.try_from StateId.is_zero UpdateState.ethabi_decode UpdateState.from_abi
    UpdateState.to_emitted_list UpdateState.to_emitted UpdateState.aggregate_messages
    UpdateState.aggregate_from UpdateState.aggregate UpdateState.same
    Context.parse_context_type_from_header Context.decode_payload dispatch Router.dispatch_execute
    Commands.signer_of Context.validate Context.aggregate Context.ethabi_encode
    Context.ethabi_decode Context.header Any.try_from Time.from_unix_timestamp_nanos
    Crypto.enclave_sign Crypto.verify Path.client_path Path.client_state_path
    Path.client_consensus_state_path HostContext.set HostContext.client_state
    HostContext.store_any_client_state HostContext.store_any_consensus_state Crypto.as_address
    Crypto.verify_signature Memory.get Memory.set HashMap.get HashMap.insert
    Time.as_unix_timestamp_nanos UpdateState.validate UpdateState.ethabi_encode UpdateState.to_abi
    Proxy.to_bytes Proxy.encode_payload Proxy.header to_be_bytes from_be_bytes Decimal.to_string
    Decimal.emit
runs = (refl, refl, refl, refl, refl, refl, refl)

toy_found : env.get_light_client (codes "/toy") ≡ some toy
unfolding Equality.list_eq
toy_found = refl

get-empty_store : (key : Bytes) → Memory.get empty_store key ≡ none
unfolding Memory.get HashMap.get
get-empty_store key = refl

toy_put : (put_light_client {L = ℕ} (codes "/toy") 1 empty_registry).0 ≡ ok tt
unfolding put_light_client get_light_client HashMap.get
toy_put = refl

aggregate_messages-ok_example :
    Aggregated env ek aggregate_input
      (response_of (aggregate_messages env ek aggregate_input start).0)
aggregate_messages-ok_example = aggregate_messages-ok env start ek aggregate_input runs.0

any-IsAny : (n : ℕ) → n < 256 → IsAny (any n)
unfolding is_utf8
any-IsAny n h = (omega arith, (h, tt), refl)

init_client-ok_example :
    Created env start created ek init_input
      (response_of (Init.init_client env ek init_input start).0)
init_client-ok_example =
    init_client-ok env start ek init_input 0 (omega arith) (Fresh-empty start get-empty_store)
      (any-IsAny 0 (omega arith)) (any-IsAny 1 (omega arith)) runs.1

toy_id-NoSlash : NoSlash toy_id
toy_id-NoSlash = ground arith

query_client-update_client_example :
    let ctx = (Update.update_client env ek update_input created).1 in
    query_client env (record { client_id = toy_id }) ctx ≡ (
      ok (query_client_response (record { any_client_state = any 2; any_consensus_state = any 3 })),
      ctx,
    )
query_client-update_client_example =
    query_client-update_client env created ek update_input (any 0) toy toy update_data
      toy_id-NoSlash (any-IsAny 2 (omega arith)) (any-IsAny 3 (omega arith)) runs.2 toy_found refl
      toy_found refl

dispatch-Vouched_example : Vouched env (Commands.signer_of (init_client init_input)) init_proof
dispatch-Vouched_example =
    dispatch-Vouched env unseal 7 7 refl command_context (init_client init_input) (λ t. empty_store)
      refl runs.6 runs.3 runs.4

init_client-keeps_example :
    let s = run env unseal inits empty_store in
    Memory.get
      (step env unseal command_context (execute (init_client init_input)) s)
      (client_path toy_id (codes "clientState"))
    ≡ Memory.get s (client_path toy_id (codes "clientState"))
init_client-keeps_example =
    init_client-keeps env unseal empty_store inits command_context init_input toy_id
      (codes "clientState") get-empty_store (omega arith) toy_id-NoSlash runs.5

put-lasting_example :
    get_light_client {L = ℕ} (codes "/toy") (
      calls
        (puts (codes "/toy") 2 ∷ seals ∷ puts (codes "/other") 3 ∷ [])
        (put_light_client (codes "/toy") 1 empty_registry).1)
    ≡ some 1
put-lasting_example =
    put-lasting empty_registry (codes "/toy") 1
      (puts (codes "/toy") 2 ∷ seals ∷ puts (codes "/other") 3 ∷ []) toy_put

abbrev sealed_registry : MapLightClientRegistry ℕ
sealed_registry = record { registry = (codes "/toy", 1) ∷ []; sealed = true }

calls-sealed_example :
    calls (puts (codes "/other") 3 ∷ seals ∷ []) sealed_registry ≡ sealed_registry
calls-sealed_example = calls-sealed sealed_registry (puts (codes "/other") 3 ∷ seals ∷ []) refl
