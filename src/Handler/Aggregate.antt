-- ===== src/Handler/Aggregate.antt =====
-- enclave-modules/ecall-handler/src/light_client/aggregate_messages.rs
pub mod Sound
use lcp.Base.{not, ensure, map_err, ltb, length}
use lcp.Base.Equality.{◌==◌, ℕ_PartialEq}
use lcp.Base.Bytes.{codes}
use lcp.Base.Action.{Action, gets, lift, modify, pure, ◌>>=◌, ◌>>◌}
use lcp.Types.Time.{TmTime}
use lcp.Crypto.{Signer}
use lcp.Commitments.Message.UpdateState
use lcp.Commitments.Message.Proxy
use lcp.Commitments.Proof.{prove_commitment}
use lcp.Store.KvStore.{KvStore}
use lcp.LightClient.Context.{Context, set_timestamp}
use lcp.Commands.{AggregateMessagesInput, LightClientResponse, aggregate_messages_response}
use lcp.Handler.{Env}
use lcp.Handler.Messages.{parse_messages, check_messages}
use lcp.Handler.Errors.{Error, invalid_argument, commitment, crypto}

module _ {T PK SK S : Type 0} ⦃tm : TmTime T⦄ ⦃kv : KvStore S⦄ (env : Env T PK SK S) where
  unfoldable pub aggregate_messages :
      Signer PK → AggregateMessagesInput T → Action (Context T S) (Error T) LightClientResponse
  aggregate_messages ek input = do
    modify (λ ctx. set_timestamp ctx input.current_timestamp)
    lift (
        ensure (not (ltb (length input.messages) 2))
          (invalid_argument (codes "messages and signatures must have at least 2 elements")))
    lift (
        ensure (length input.messages == length input.signatures)
          (invalid_argument (codes "messages and signatures must have the same length")))
    pk ← lift (map_err crypto ek.pubkey)
    parsed ← lift (parse_messages env input.messages)
    messages ← gets (λ ctx. check_messages env ctx pk parsed input.signatures)
    message ← lift (map_err commitment (UpdateState.aggregate_messages messages))
    proof ←
        lift (
          map_err commitment
            (prove_commitment env.abi ek input.signer (Proxy.update_state message)))
    pure (aggregate_messages_response proof)
