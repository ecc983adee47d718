-- ===== src/Handler/Update/Stored.antt =====
-- What `update_client` leaves in the store, and what a query then answers
-- (enclave-modules/ecall-handler/src/light_client/update_client.rs and query.rs).
use lcp.Base.{◌≡◌, refl, ap, ◌∙◌, some, ok, map_ok}
use lcp.Types.Time.{TmTime}
use lcp.Types.Any.{Any, IsAny}
use lcp.Types.Height.{Height}
use lcp.Crypto.{Signer}
use lcp.Store.KvStore.{KvStore}
use lcp.LightClient.Path.{NoSlash}
use lcp.LightClient.Client.{LightClient, UpdateStateData, UpdateClientResult, state_updated}
use lcp.LightClient.Context.{
  Context, set_timestamp, client_state, consensus_state, store_any_client_state,
}
use lcp.LightClient.Context.Laws.{client_state-store, consensus_state-store, client_state-consensus}
use lcp.Commands.{
  UpdateClientInput, QueryClientInput, update_client_response, query_client_response,
}
use lcp.Handler.{Env, get_light_client_by_client_id}
use lcp.Handler.State.{query_client}
use lcp.Handler.Update.{update_client}
use lcp.Handler.Update.Cases.{write_result, prove_result, apply_result_lem}

module _ {T PK SK S : Type 0} ⦃tm : TmTime T⦄ ⦃kv : KvStore S⦄ (env : Env T PK SK S) where
  -- A run whose light client has answered.
  update_client-run :
      (ctx : Context T S) (ek : Signer PK) (input : UpdateClientInput T) (any : Any)
      (lc : LightClient T S) (res : UpdateClientResult T)
      → client_state env.bincode ctx input.client_id ≡ ok any
      → env.get_light_client any.type_url ≡ some lc
      → lc.update_client
          (set_timestamp ctx input.current_timestamp)
          input.client_id
          input.any_header
        ≡ ok res
      → update_client env ek input ctx ≡ (
        map_ok update_client_response (prove_result env ek input res),
        write_result env input.client_id res (set_timestamp ctx input.current_timestamp),
      )
  unfolding update_client get_light_client_by_client_id client_state set_timestamp
  update_client-run ctx ek input any lc res a b c =
      rw (a, b, c) (apply_result_lem env ek input res (set_timestamp ctx input.current_timestamp))

  query_client-run :
      (ctx : Context T S) (input : QueryClientInput) (any consensus : Any) (lc : LightClient T S)
      (height : Height)
      → client_state env.bincode ctx input.client_id ≡ ok any
      → env.get_light_client any.type_url ≡ some lc
      → lc.latest_height ctx input.client_id ≡ ok height
      → consensus_state env.bincode ctx input.client_id height ≡ ok consensus
      → query_client env input ctx ≡ (
        ok (
            query_client_response
              (record { any_client_state = any; any_consensus_state = consensus })),
        ctx,
      )
  unfolding query_client get_light_client_by_client_id
  query_client-run ctx input any consensus lc height a b c e = rw (a, b) (rw (a, c) (rw e refl))

  -- For a client identifier without a slash, of a client with a state whose light client answers an
  -- update with new states of the Rust type: after `update_client`, whether it could prove the
  -- update or not, a query answers these two states, if the light client of the new state then
  -- names the update's height as its latest.
  pub query_client-update_client :
      (ctx : Context T S) (ek : Signer PK) (input : UpdateClientInput T) (any : Any)
      (lc lc' : LightClient T S) (d : UpdateStateData T)
      → NoSlash input.client_id
      → IsAny d.new_any_client_state
      → IsAny d.new_any_consensus_state
      → client_state env.bincode ctx input.client_id ≡ ok any
      → env.get_light_client any.type_url ≡ some lc
      → lc.update_client
          (set_timestamp ctx input.current_timestamp)
          input.client_id
          input.any_header
        ≡ ok (state_updated d)
      → env.get_light_client d.new_any_client_state.type_url ≡ some lc'
      → lc'.latest_height (update_client env ek input ctx).1 input.client_id ≡ ok d.height
      → let ctx' = (update_client env ek input ctx).1 in
        query_client env (record { client_id = input.client_id }) ctx' ≡ (
          ok (
              query_client_response (record {
                any_client_state = d.new_any_client_state;
                any_consensus_state = d.new_any_consensus_state;
              })),
          ctx',
        )
  query_client-update_client ctx ek input any lc lc' d safe v w a b c b' height =
      let ctx1 = set_timestamp ctx input.current_timestamp in
      let stated = store_any_client_state env.bincode input.client_id d.new_any_client_state ctx1 in
      let same = ap (λ x. x.1) (update_client-run ctx ek input any lc (state_updated d) a b c) in
      query_client-run (update_client env ek input ctx).1 (record { client_id = input.client_id })
        d.new_any_client_state d.new_any_consensus_state lc' d.height
        (rw same (
          client_state-consensus env.bincode stated input.client_id d.height
            d.new_any_consensus_state safe
          ∙ client_state-store env.bincode ctx1 input.client_id d.new_any_client_state v))
        b' height
        (rw same (
          consensus_state-store env.bincode stated input.client_id d.height
            d.new_any_consensus_state w))
