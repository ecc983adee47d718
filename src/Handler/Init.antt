-- ===== src/Handler/Init.antt =====
-- enclave-modules/ecall-handler/src/light_client/init_client.rs
pub mod Cases
pub mod Stored
use lcp.Base.{ℕ, ◌∷◌, ◌++◌, Result, ok, err, panic, map_err, expect}
use lcp.Base.Bytes.{Bytes}
use lcp.Base.Decimal.{to_string}
use lcp.Base.Action.{Action, gets, lift, modify, pure, ◌>>=◌, ◌>>◌}
use lcp.Types.Time.{TmTime}
use lcp.Types.Host
use lcp.Crypto.{Signer}
use lcp.Store.KvStore.{KvStore}
use lcp.LightClient.Path.{ClientId}
use lcp.LightClient.Context.{
  Context, set_timestamp, client_counter, store_client_type, store_any_client_state,
  store_any_consensus_state, increase_client_counter,
}
use lcp.Commands.{InitClientInput, LightClientResponse, init_client_response}
use lcp.Handler.{Env, make_proof}
use lcp.Handler.Errors.{Error, light_client, lcp_type}

module _ {T S : Type 0} ⦃kv : KvStore S⦄ where
  -- `ctx.increase_client_counter()`
  unfoldable pub advance_counter : Action (Context T S) (Error T) Unit
  advance_counter ctx = elim (increase_client_counter ctx) [
    | ok ctx' ↦ (ok tt, ctx')
    | err e ↦ (err (light_client e), ctx)
    | panic ↦ (panic, ctx)
  ]

module _ {T PK SK S : Type 0} ⦃tm : TmTime T⦄ ⦃kv : KvStore S⦄ (env : Env T PK SK S) where
  -- `format!("{}-{}", client_type, counter)`, then `from_str`
  unfoldable pub gen_client_id : Bytes → ℕ → Result (Error T) ClientId
  gen_client_id client_type counter =
      map_err lcp_type
        (Host.from_str env.unicode_alphanumeric (client_type ++ (b'-' ∷ to_string counter)))

  unfoldable pub init_client :
      Signer PK → InitClientInput T → Action (Context T S) (Error T) LightClientResponse
  unfolding advance_counter
  init_client ek input = do
    modify (λ ctx. set_timestamp ctx input.current_timestamp)
    lc ← lift (expect (env.get_light_client input.any_client_state.type_url))
    res ← gets (λ ctx.
        map_err light_client
          (lc.create_client ctx input.any_client_state input.any_consensus_state))
    counter ← gets (λ ctx. map_err light_client (client_counter ctx))
    client_id ← lift (gen_client_id lc.client_type counter)
    modify (store_client_type client_id lc.client_type)
    modify (store_any_client_state env.bincode client_id input.any_client_state)
    modify (store_any_consensus_state env.bincode client_id res.height input.any_consensus_state)
    advance_counter
    proof ← lift (make_proof env ek input.signer res.message res.prove)
    pure (init_client_response (record { client_id = client_id; proof = proof }))
