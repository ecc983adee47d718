-- ===== src/Handler/Router.antt =====
-- enclave-modules/ecall-handler/src/light_client/router.rs: from a command to its handler.
pub mod Signed
use lcp.Base.{none, some, Option, Result, err}
use lcp.Base.Action.{Action}
use lcp.Types.Time.{TmTime}
use lcp.Crypto.{CryptoError, Signer, sealed_signer}
use lcp.Store.KvStore.{KvStore, TxId}
use lcp.LightClient.Context
use lcp.LightClient.Context.{Context}
use lcp.Commands.{
  CommandContext, LightClientCommand, execute, query, LightClientExecuteCommand, init_client,
  update_client, aggregate_messages, verify_membership, verify_non_membership,
  LightClientQueryCommand, query_client, LightClientResponse,
}
use lcp.Handler.{Env}
use lcp.Handler.Errors.{Error, sealed_enclave_key_not_found}
use lcp.Handler.Aggregate
use lcp.Handler.Init
use lcp.Handler.Update
use lcp.Handler.State

module _ {T PK SK S : Type 0} ⦃tm : TmTime T⦄ ⦃kv : KvStore S⦄ (env : Env T PK SK S) where
  unfoldable pub dispatch_execute :
      Signer PK → LightClientExecuteCommand T → Action (Context T S) (Error T) LightClientResponse
  dispatch_execute ek (init_client input) = Init.init_client env ek input
  dispatch_execute ek (update_client input) = Update.update_client env ek input
  dispatch_execute ek (aggregate_messages input) = Aggregate.aggregate_messages env ek input
  dispatch_execute ek (verify_membership input) = State.verify_membership env ek input
  dispatch_execute ek (verify_non_membership input) = State.verify_non_membership env ek input

  unfoldable pub dispatch_query :
      LightClientQueryCommand → Action (Context T S) (Error T) LightClientResponse
  dispatch_query (query_client input) = State.query_client env input

  -- `env.new_store(cctx.tx_id)` is the environment's: the parameter `store`. What is left of the
  -- context is its store.
  module _ {SealedKey : Type 0} (unseal : SealedKey → Result CryptoError SK) where
    unfoldable pub dispatch :
        CommandContext T SealedKey
        → LightClientCommand T
        → (TxId → S)
        → Result (Error T) LightClientResponse × S
    dispatch cctx (execute cmd) new_store = elim cctx.sealed_ek [
      | none ↦ (err sealed_enclave_key_not_found, new_store cctx.tx_id)
      | some sealed_ek ↦
          let (r, ctx) =
            dispatch_execute (sealed_signer env.secp unseal sealed_ek) cmd
              (Context.new (new_store cctx.tx_id)) in
          (r, ctx.store)
    ]
    dispatch cctx (query cmd) new_store =
        let (r, ctx) = dispatch_query cmd (Context.new (new_store cctx.tx_id)) in (r, ctx.store)
