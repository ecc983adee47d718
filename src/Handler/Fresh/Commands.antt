-- ===== src/Handler/Fresh/Commands.antt =====
-- Every command keeps the free names (enclave-modules/ecall-handler/src/light_client).
use lcp.Base.{ℕ, suc, ◌<◌, ◌≡◌, ◌∙◌, none, ok, inl, inr, arith}
use lcp.Base.Bytes.{codes}
use lcp.Base.Codec.{Codec}
use lcp.Base.Decimal.{u64_bound}
use lcp.Types.Time.{TmTime}
use lcp.Types.Any.{Any, IsAny}
use lcp.Crypto.{Signer}
use lcp.Store.KvStore.{KvStore}
use lcp.LightClient.Path.{ClientId, client_path, client_state_path, client_consensus_state_path}
use lcp.LightClient.Path.Names.{after, client_path-before}
use lcp.LightClient.Client.{UpdateClientResult, state_updated, misbehaved}
use lcp.LightClient.Context
use lcp.LightClient.Context.{
  Context, get, set_timestamp, client_state, client_counter, store_any_client_state,
  store_any_consensus_state,
}
use lcp.Commands.{
  UpdateClientInput, LightClientExecuteCommand, init_client, update_client, aggregate_messages,
  verify_membership, verify_non_membership, LightClientQueryCommand, query_client,
}
use lcp.Handler.{Env}
use lcp.Handler.Aggregate.Sound.{aggregate_messages-context}
use lcp.Handler.Init.Cases.{client_counter-set}
use lcp.Handler.State.Cases.{
  verify_membership-cases, verify_non_membership-cases, query_client-Keeps,
}
use lcp.Handler.Update
use lcp.Handler.Update.Cases.{write_result, update_client-cases}
use lcp.Handler.Router.{dispatch_execute, dispatch_query}
use lcp.Handler.Fresh.{
  Unused, Fresh, IsUsed, store_any_client_state-Unused, store_any_consensus_state-Unused,
}
use lcp.Handler.Fresh.Init.{init_client-Fresh}

module _ {T S : Type 0} ⦃kv : KvStore S⦄ where
  pub Fresh-weaken : {ctx : Context T S} (k : ℕ) → Fresh k ctx → Fresh (suc k) ctx
  Fresh-weaken k f = record {
    counter = f.counter;
    counted = f.counted;
    few = omega (arith, f.few);
    unused = f.unused;
  }

  set_timestamp-Fresh :
      (ctx : Context T S) (t : T) (k : ℕ) → Fresh k ctx → Fresh k (set_timestamp ctx t)
  unfolding set_timestamp client_counter
  set_timestamp-Fresh ctx t k f = record {
    counter = f.counter;
    counted = f.counted;
    few = f.few;
    unused = f.unused;
  }

  pub Fresh-new :
      {ctx : Context T S} {k : ℕ} → Fresh k ctx → Fresh {T = T} k (Context.new ctx.store)
  unfolding Context.new client_counter
  Fresh-new f = record { counter = f.counter; counted = f.counted; few = f.few; unused = f.unused }

  -- A client whose state is read has a name that is in use.
  stored-IsUsed :
      (bincode : Codec IsAny) (ctx : Context T S) (n : ℕ) (id : ClientId) {any : Any}
      → Unused ctx n
      → client_state bincode ctx id ≡ ok any
      → IsUsed id n
  unfolding client_state client_state_path
  stored-IsUsed bincode ctx n id u h client_type m safe le lt e =
      let free = u client_type m (after id (codes "clientState")) safe le lt in
      let key = client_path-before id (codes "clientState") in
      let gone : get ctx (client_path id (codes "clientState")) ≡ none = rw (key, e) free in
      cc (rw gone at h)

module _ {T PK SK S : Type 0} ⦃tm : TmTime T⦄ ⦃kv : KvStore S⦄ (env : Env T PK SK S) where
  write_result-Unused :
      (ctx : Context T S) (n : ℕ) (id : ClientId) (res : UpdateClientResult T)
      → IsUsed id n
      → Unused ctx n
      → Unused (write_result env id res ctx) n
  write_result-Unused ctx n id (state_updated d) used u =
      store_any_consensus_state-Unused env.bincode
        (store_any_client_state env.bincode id d.new_any_client_state ctx) n id d.height
        d.new_any_consensus_state used
        (store_any_client_state-Unused env.bincode ctx n id d.new_any_client_state used u)
  write_result-Unused ctx n id (misbehaved d) used u =
      store_any_client_state-Unused env.bincode ctx n id d.new_any_client_state used u

  write_result-counter :
      (ctx : Context T S) (id : ClientId) (res : UpdateClientResult T)
      → client_counter (write_result env id res ctx) ≡ client_counter ctx
  unfolding store_any_consensus_state store_any_client_state client_state_path
      client_consensus_state_path
  write_result-counter ctx id (state_updated d) =
      client_counter-set _ id _ _ ∙ client_counter-set ctx id _ _
  write_result-counter ctx id (misbehaved d) = client_counter-set ctx id _ _

  update_client-Fresh :
      (ctx : Context T S) (ek : Signer PK) (input : UpdateClientInput T) (k : ℕ)
      → Fresh k ctx
      → Fresh k (Update.update_client env ek input ctx).1
  unfolding set_timestamp client_counter
  update_client-Fresh ctx ek input k f =
      let ctx1 = set_timestamp ctx input.current_timestamp in
      elim (update_client-cases env ctx ek input) [
        | inr (same, none_) ↦ rw same (set_timestamp-Fresh ctx input.current_timestamp k f)
        | inl (u, same, made) ↦ rw same (record {
          counter = f.counter;
          counted = write_result-counter ctx1 input.client_id u.res ∙ f.counted;
          few = f.few;
          unused =
              write_result-Unused ctx1 f.counter input.client_id u.res
                (stored-IsUsed env.bincode ctx f.counter input.client_id f.unused u.stored)
                f.unused;
        })
      ]

  pub dispatch_execute-Fresh :
      (ctx : Context T S) (ek : Signer PK) (cmd : LightClientExecuteCommand T) (k : ℕ)
      → suc k < u64_bound
      → Fresh k ctx
      → Fresh (suc k) (dispatch_execute env ek cmd ctx).1
  unfolding dispatch_execute
  dispatch_execute-Fresh ctx ek (init_client input) k small f =
      init_client-Fresh env ctx ek input k small f
  dispatch_execute-Fresh ctx ek (update_client input) k small f =
      Fresh-weaken k (update_client-Fresh ctx ek input k f)
  dispatch_execute-Fresh ctx ek (aggregate_messages input) k small f =
      rw (aggregate_messages-context env ctx ek input)
        (Fresh-weaken k (set_timestamp-Fresh ctx input.current_timestamp k f))
  dispatch_execute-Fresh ctx ek (verify_membership input) k small f =
      rw ((verify_membership-cases env ctx ek input).0) (Fresh-weaken k f)
  dispatch_execute-Fresh ctx ek (verify_non_membership input) k small f =
      rw ((verify_non_membership-cases env ctx ek input).0) (Fresh-weaken k f)

  pub dispatch_query-Keeps :
      (ctx : Context T S) (cmd : LightClientQueryCommand) → (dispatch_query env cmd ctx).1 ≡ ctx
  unfolding dispatch_query
  dispatch_query-Keeps ctx (query_client input) = query_client-Keeps env input ctx
