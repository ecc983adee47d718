-- ===== src/Handler/Update/Cases.antt =====
-- Every way in which `update_client` can end
-- (enclave-modules/ecall-handler/src/light_client/update_client.rs).
use lcp.Base.{
  ◌≡◌, ◌≢◌, ◌⊎◌, refl, inl, inr, some, Option-cases, Result, Result-cases, ok, map_ok, map_err,
  arith,
}
use lcp.Base.Action.{lift-pure}
use lcp.Types.Time.{TmTime}
use lcp.Types.Any.{Any}
use lcp.Crypto.{Signer}
use lcp.Commitments.Message.Proxy
use lcp.Commitments.Proof.{CommitmentProof, prove_commitment}
use lcp.Store.KvStore.{KvStore}
use lcp.LightClient.Path.{ClientId}
use lcp.LightClient.Client.{LightClient, UpdateClientResult, state_updated, misbehaved}
use lcp.LightClient.Context.{
  Context, set_timestamp, client_state, store_any_client_state, store_any_consensus_state,
}
use lcp.Commands.{UpdateClientInput, LightClientResponse, update_client_response}
use lcp.Handler.{Env, get_light_client_by_client_id, make_proof}
use lcp.Handler.Errors.{Error, commitment}
use lcp.Handler.Update.{emitting, apply_result, update_client}

module _ {T PK SK S : Type 0} ⦃tm : TmTime T⦄ ⦃kv : KvStore S⦄ (env : Env T PK SK S) where
  -- what a light client's answer writes
  abbrev pub write_result : ClientId → UpdateClientResult T → Context T S → Context T S
  write_result id (state_updated d) ctx =
      store_any_consensus_state env.bincode id d.height d.new_any_consensus_state
        (store_any_client_state env.bincode id d.new_any_client_state ctx)
  write_result id (misbehaved d) ctx =
      store_any_client_state env.bincode id d.new_any_client_state ctx

  -- the proof made of it
  abbrev pub prove_result :
      Signer PK → UpdateClientInput T → UpdateClientResult T → Result (Error T) CommitmentProof
  prove_result ek input (state_updated d) =
      make_proof env ek input.signer (Proxy.update_state (emitting input.include_state d)) d.prove
  prove_result ek input (misbehaved d) =
      map_err commitment (prove_commitment env.abi ek input.signer (Proxy.misbehaviour d.message))

  pub apply_result_lem :
      (ek : Signer PK) (input : UpdateClientInput T) (res : UpdateClientResult T)
      (ctx : Context T S)
      → apply_result env ek input res ctx ≡ (
        map_ok update_client_response (prove_result ek input res),
        write_result input.client_id res ctx,
      )
  unfolding apply_result
  apply_result_lem ek input (state_updated d) ctx =
      lift-pure (prove_result ek input (state_updated d)) update_client_response
        (write_result input.client_id (state_updated d) ctx)
  apply_result_lem ek input (misbehaved d) ctx =
      lift-pure (prove_result ek input (misbehaved d)) update_client_response
        (write_result input.client_id (misbehaved d) ctx)

  -- A run that has written: the client's state, its light client, and what that answered.
  pub record Updates (ctx : Context T S) (input : UpdateClientInput T) : Type 0 where
    pub any_client_state : Any
    pub lc : LightClient T S
    pub res : UpdateClientResult T
    pub stored : client_state env.bincode ctx input.client_id ≡ ok any_client_state
    pub found : env.get_light_client any_client_state.type_url ≡ some lc
    pub updated :
        lc.update_client
          (set_timestamp ctx input.current_timestamp)
          input.client_id
          input.any_header
        ≡ ok res

  abbrev pub after_update :
      (ctx : Context T S) (input : UpdateClientInput T) → Updates ctx input → Context T S
  after_update ctx input u =
      write_result input.client_id u.res (set_timestamp ctx input.current_timestamp)

  -- Either what the light client answered is written and what is left is to make the proof, or
  -- nothing is written and there is no response.
  pub update_client-cases :
      (ctx : Context T S) (ek : Signer PK) (input : UpdateClientInput T)
      → let (r, ctx') = update_client env ek input ctx in
        ((u : Updates ctx input) × (ctx' ≡ after_update ctx input u)
          × (r ≡ map_ok update_client_response (prove_result ek input u.res)))
        ⊎ ((ctx' ≡ set_timestamp ctx input.current_timestamp)
            × ((response : LightClientResponse) → r ≢ ok response))
  unfolding update_client get_light_client_by_client_id client_state set_timestamp
  update_client-cases ctx ek input =
      let ctx1 = set_timestamp ctx input.current_timestamp in
      elim (Result-cases (client_state env.bincode ctx1 input.client_id)) [
        | inr a ↦ inr (ground arith)
        | inl (any, a) ↦ elim (Option-cases (env.get_light_client any.type_url)) [
          | inl b ↦ inr (ground arith)
          | inr (lc, b) ↦
              elim (Result-cases (lc.update_client ctx1 input.client_id input.any_header)) [
                | inr c ↦ inr (ground arith)
                | inl (res, c) ↦
                    let e = apply_result_lem ek input res ctx1 in
                    inl (
                      record {
                        any_client_state = any;
                        lc = lc;
                        res = res;
                        stored = a;
                        found = b;
                        updated = c;
                      },
                      rw (a, b, c, e) refl,
                      rw (a, b, c, e) refl,
                    )
              ]
        ]
      ]
