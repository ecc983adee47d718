-- ===== src/Handler/State.antt =====
-- enclave-modules/ecall-handler/src/light_client/verify_state.rs and query.rs: the commands that only
-- read the store.
pub mod Cases
use lcp.Base.{map_err}
use lcp.Base.Action.{Action, gets, lift, pure, ◌>>=◌, ◌>>◌}
use lcp.Types.Time.{TmTime}
use lcp.Crypto.{Signer}
use lcp.Commitments.Message.Proxy
use lcp.Commitments.Proof.{prove_commitment}
use lcp.Store.KvStore.{KvStore}
use lcp.LightClient.Context.{Context, client_state, consensus_state}
use lcp.Commands.{
  VerifyMembershipInput, VerifyNonMembershipInput, QueryClientInput, LightClientResponse,
  verify_membership_response, verify_non_membership_response, query_client_response,
}
use lcp.Handler.{Env, get_light_client_by_client_id}
use lcp.Handler.Errors.{Error, light_client, commitment}

module _ {T PK SK S : Type 0} ⦃tm : TmTime T⦄ ⦃kv : KvStore S⦄ (env : Env T PK SK S) where
  unfoldable pub verify_membership :
      Signer PK → VerifyMembershipInput → Action (Context T S) (Error T) LightClientResponse
  verify_membership ek input = do
    lc ← gets (λ ctx. get_light_client_by_client_id env ctx input.client_id)
    res ← gets (λ ctx. map_err light_client (
        lc.verify_membership ctx input.client_id input.prefix input.path input.value
          input.proof.height input.proof.proof))
    proof ← lift (
        map_err commitment
          (prove_commitment env.abi ek input.signer (Proxy.verify_membership res.message)))
    pure (verify_membership_response proof)

  unfoldable pub verify_non_membership :
      Signer PK → VerifyNonMembershipInput → Action (Context T S) (Error T) LightClientResponse
  verify_non_membership ek input = do
    lc ← gets (λ ctx. get_light_client_by_client_id env ctx input.client_id)
    res ← gets (λ ctx. map_err light_client (
        lc.verify_non_membership ctx input.client_id input.prefix input.path input.proof.height
          input.proof.proof))
    proof ← lift (
        map_err commitment
          (prove_commitment env.abi ek input.signer (Proxy.verify_membership res.message)))
    pure (verify_non_membership_response proof)

  unfoldable pub query_client :
      QueryClientInput → Action (Context T S) (Error T) LightClientResponse
  query_client input = do
    lc ← gets (λ ctx. get_light_client_by_client_id env ctx input.client_id)
    any_client_state ←
        gets (λ ctx. map_err light_client (client_state env.bincode ctx input.client_id))
    height ← gets (λ ctx. map_err light_client (lc.latest_height ctx input.client_id))
    any_consensus_state ←
        gets (λ ctx. map_err light_client (consensus_state env.bincode ctx input.client_id height))
    pure (
        query_client_response (record {
          any_client_state = any_client_state;
          any_consensus_state = any_consensus_state;
        }))
