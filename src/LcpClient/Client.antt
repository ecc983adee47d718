-- ===== src/LcpClient/Client.antt =====
-- modules/lcp-client/src/client_def.rs: the operations of `LCPClient` that write. What was written
-- stays written after an error or a panic.
pub mod Update
pub mod Checks
pub mod Writes
pub mod Freeze
pub mod Register
pub mod Lasting
pub mod Membership
use lcp.Base.{
  ℕ, ◌≡◌, ◌<◌, Bool, true, false, not, ◌&&◌, Option, none, some, List, [], ◌∷◌, Result, ok, err,
  panic, map_err, unwrap, expect, assert, length, if◌then◌else◌,
}
use lcp.Base.Action.{Action, gets, lift, fail, modify, ◌>>=◌, ◌>>◌}
use lcp.Base.Equality.{◌==◌, ℕ_PartialEq}
use lcp.Base.Bytes.{Bytes, bytes_PartialEq}
use lcp.Types.Time.{TmTime, add, as_unix_timestamp_secs}
use lcp.Types.Height
use lcp.Types.Height.{Height}
use lcp.Crypto.{Address, verify_signature_address}
use lcp.Commitments.Context
use lcp.Commitments.Message.UpdateState
use lcp.Commitments.Message.UpdateState.{UpdateStateProxyMessage, is_none}
use lcp.Commitments.Message.Misbehaviour
use lcp.Commitments.Message.Misbehaviour.{MisbehaviourProxyMessage, PrevState}
use lcp.Commitments.Message.Proxy
use lcp.Commitments.Message.Proxy.{ProxyMessage}
use lcp.Store.KvStore.{KvStore}
use lcp.LightClient.Path.{ClientId}
use lcp.LightClient.Context as Host
use lcp.LightClient.Context.{
  Context, host_timestamp, store_any_client_state, store_any_consensus_state,
}
use lcp.AttestationReport.{EndorsedAttestationVerificationReport}
use lcp.LcpClient.Errors.{Error, time, crypto_error, commitment_proof, unexpected_header_type}
use lcp.LcpClient.ClientState
use lcp.LcpClient.ClientState.{ClientState, with_header, with_frozen}
use lcp.LcpClient.ConsensusState
use lcp.LcpClient.ConsensusState.{ConsensusState}
use lcp.LcpClient.Message.{ClientMessage, register_enclave_key, update_client}
use lcp.LcpClient.Reader
use lcp.LcpClient.Reader.{
  ClientLibs, client_state, consensus_state, check_prev, check_prev_states, contains_enclave_key,
  add_enclave_key, verify_report,
}

module _ {T PK SK S : Type 0} ⦃tm : TmTime T⦄ ⦃kv : KvStore S⦄ (libs : ClientLibs T PK SK) where
  unfoldable pub initialise :
      ClientId → ClientState → ConsensusState T → Action (Context T S) (Error T) Unit
  initialise client_id state consensus = do
    lift (assert (not (state.key_expiration.secs == 0 && state.key_expiration.subsec_nanos == 0)))
    lift (assert (Height.is_zero state.latest_height))
    lift (assert (length state.mr_enclave == 32))
    is_empty ← lift (ConsensusState.is_empty consensus)
    lift (assert is_empty)
    modify
        (store_any_client_state libs.bincode client_id (ClientState.to_any libs.client_state state))
    any ← lift (ConsensusState.to_any libs.consensus_state consensus)
    modify (store_any_consensus_state libs.bincode client_id state.latest_height any)

  -- The two writes at the end of `update_state`.
  unfoldable pub write_update :
      ClientId → ClientState → UpdateStateProxyMessage T → Action (Context T S) (Error T) Unit
  write_update client_id state message = do
    modify (
        store_any_client_state libs.bincode client_id
          (ClientState.to_any libs.client_state (with_header state message)))
    any ← lift (
        ConsensusState.to_any libs.consensus_state
          (record { state_id = message.post_state_id; timestamp = message.timestamp }))
    modify (store_any_consensus_state libs.bincode client_id message.post_height any)

  unfoldable pub update_state :
      ClientId
      → ClientState
      → UpdateStateProxyMessage T
      → Address
      → Bytes
      → Action (Context T S) (Error T) Unit
  update_state client_id state message signer signature = do
    lift (map_err commitment_proof (UpdateState.validate message))
    lift (assert (not state.frozen))
    gets (λ ctx. check_prev libs ctx client_id state message)
    gets (λ ctx. assert (contains_enclave_key libs ctx client_id signer))
    bz ← lift (map_err commitment_proof (Proxy.to_bytes libs.abi (Proxy.update_state message)))
    signer2 ← lift (unwrap (verify_signature_address libs.secp bz signature))
    lift (assert (signer == signer2))
    now ← gets host_timestamp
    lift (map_err commitment_proof (Context.validate message.context now))
    write_update client_id state message

  unfoldable pub register :
      ClientId
      → ClientState
      → EndorsedAttestationVerificationReport
      → Action (Context T S) (Error T) Unit
  register client_id state eavr = do
    now ← gets host_timestamp
    (key, attestation_time) ← lift (verify_report libs now state eavr)
    expired_at ← lift (map_err time (add attestation_time state.key_expiration))
    secs ← lift (as_unix_timestamp_secs expired_at)
    modify (add_enclave_key libs client_id key secs)

  unfoldable pub submit_misbehaviour :
      ClientId
      → ClientState
      → MisbehaviourProxyMessage T
      → Address
      → Bytes
      → Action (Context T S) (Error T) Unit
  submit_misbehaviour client_id state message signer signature = do
    lift (map_err commitment_proof (Misbehaviour.validate message))
    lift (assert (not state.frozen))
    gets (λ ctx. check_prev_states libs ctx client_id message.prev_states)
    gets (λ ctx. assert (contains_enclave_key libs ctx client_id signer))
    now ← gets host_timestamp
    lift (map_err commitment_proof (Context.validate message.context now))
    bz ← lift (map_err commitment_proof (Proxy.to_bytes libs.abi (Proxy.misbehaviour message)))
    signer2 ← lift (map_err crypto_error (verify_signature_address libs.secp bz signature))
    lift (assert (signer == signer2))
    modify (
        store_any_client_state libs.bincode client_id
          (ClientState.to_any libs.client_state (with_frozen state)))

  -- The inner `match` of `update_client`, on the proxy message
  unfoldable pub handle_proxy :
      ClientId
      → ClientState
      → ProxyMessage T
      → Address
      → Bytes
      → Action (Context T S) (Error T) Unit
  handle_proxy client_id state (Proxy.update_state m) signer signature =
      update_state client_id state m signer signature
  handle_proxy client_id state (Proxy.misbehaviour m) signer signature =
      submit_misbehaviour client_id state m signer signature
  handle_proxy client_id state (Proxy.verify_membership m) signer signature =
      fail unexpected_header_type

  -- The outer `match`
  unfoldable pub handle :
      ClientId → ClientState → ClientMessage T → Action (Context T S) (Error T) Unit
  handle client_id state (register_enclave_key msg) = register client_id state msg
  handle client_id state (update_client msg) =
      handle_proxy client_id state msg.proxy_message msg.signer msg.signature

  unfoldable pub update : ClientId → ClientMessage T → Action (Context T S) (Error T) Unit
  update client_id message = do
    state ← gets (λ ctx. client_state libs ctx client_id)
    handle client_id state message
