-- ===== src/Handler/Update.antt =====
-- enclave-modules/ecall-handler/src/light_client/update_client.rs
pub mod Cases
pub mod Stored
use lcp.Base.{Bool, ◌&&◌, List, [], ◌∷◌, map_err, length, if◌then◌else◌}
use lcp.Base.Equality.{◌==◌, ℕ_PartialEq}
use lcp.Base.Action.{Action, gets, lift, modify, pure, ◌>>=◌, ◌>>◌}
use lcp.Types.Time.{TmTime}
use lcp.Crypto.{Signer}
use lcp.Commitments.Message.UpdateState.{UpdateStateProxyMessage}
use lcp.Commitments.Message.Proxy
use lcp.Commitments.Proof.{prove_commitment}
use lcp.Store.KvStore.{KvStore}
use lcp.LightClient.Client.{
  UpdateStateData, MisbehaviourData, UpdateClientResult, state_updated, misbehaved,
}
use lcp.LightClient.Context.{
  Context, set_timestamp, store_any_client_state, store_any_consensus_state,
}
use lcp.Commands.{UpdateClientInput, LightClientResponse, update_client_response}
use lcp.Handler.{Env, get_light_client_by_client_id, make_proof}
use lcp.Handler.Errors.{Error, light_client, commitment}

-- The message to be proved: with the new state if that is asked for and none is emitted.
unfoldable pub emitting : {T : Type 0} → Bool → UpdateStateData T → UpdateStateProxyMessage T
emitting include_state data_ =
    if include_state && length data_.message.emitted_states == 0
    then record data_.message {
      emitted_states = record { height = data_.height; state = data_.new_any_client_state } ∷ [];
    }
    else data_.message

module _ {T PK SK S : Type 0} ⦃tm : TmTime T⦄ ⦃kv : KvStore S⦄ (env : Env T PK SK S) where
  -- the two branches of the `match`
  unfoldable pub apply_result :
      Signer PK
      → UpdateClientInput T
      → UpdateClientResult T
      → Action (Context T S) (Error T) LightClientResponse
  apply_result ek input (state_updated data_) = do
    modify (store_any_client_state env.bincode input.client_id data_.new_any_client_state)
    modify (
        store_any_consensus_state env.bincode input.client_id data_.height
          data_.new_any_consensus_state)
    proof ← lift (
        make_proof env ek input.signer (Proxy.update_state (emitting input.include_state data_))
          data_.prove)
    pure (update_client_response proof)
  apply_result ek input (misbehaved data_) = do
    modify (store_any_client_state env.bincode input.client_id data_.new_any_client_state)
    proof ← lift (
        map_err commitment
          (prove_commitment env.abi ek input.signer (Proxy.misbehaviour data_.message)))
    pure (update_client_response proof)

  unfoldable pub update_client :
      Signer PK → UpdateClientInput T → Action (Context T S) (Error T) LightClientResponse
  update_client ek input = do
    modify (λ ctx. set_timestamp ctx input.current_timestamp)
    lc ← gets (λ ctx. get_light_client_by_client_id env ctx input.client_id)
    result ←
        gets (λ ctx. map_err light_client (lc.update_client ctx input.client_id input.any_header))
    apply_result ek input result
