-- ===== src/Handler/Messages.antt =====
-- The two passes over the messages in
-- enclave-modules/ecall-handler/src/light_client/aggregate_messages.rs: parsing, then checking.
use lcp.Base.{List, [], ◌∷◌, Result, ok, ◌>>=◌, ◌>>◌, map_err}
use lcp.Base.Bytes.{Bytes}
use lcp.Types.Time.{TmTime}
use lcp.Crypto.{verify}
use lcp.Commitments.Context
use lcp.Commitments.Message.UpdateState.{UpdateStateProxyMessage}
use lcp.Commitments.Message.Proxy
use lcp.LightClient.Context.{Context, host_timestamp}
use lcp.Handler.{Env}
use lcp.Handler.Errors.{Error, commitment, crypto}

module _ {T PK SK S : Type 0} ⦃tm : TmTime T⦄ (env : Env T PK SK S) where
  unfoldable pub verify_message :
      PK → UpdateStateProxyMessage T → Bytes → Result (Error T) (Unit {0})
  verify_message verifier message signature = do
    message_bytes ← map_err commitment (Proxy.to_bytes env.abi (Proxy.update_state message))
    map_err crypto (verify env.secp verifier message_bytes signature)

  -- `.map(|m| ProxyMessage::from_bytes(&m)?.try_into()).collect()`
  unfoldable pub parse_messages : List Bytes → Result (Error T) (List (UpdateStateProxyMessage T))
  parse_messages [] = ok []
  parse_messages (bz ∷ bzs) = do
    message ← map_err commitment (Proxy.from_bytes env.abi bz)
    m ← map_err commitment (Proxy.to_update_state message)
    ms ← parse_messages bzs
    ok (m ∷ ms)

  -- the closure over the messages zipped with the signatures
  unfoldable pub check_messages :
      Context T S
      → PK
      → List (UpdateStateProxyMessage T)
      → List Bytes
      → Result (Error T) (List (UpdateStateProxyMessage T))
  check_messages ctx pk [] ss = ok []
  check_messages ctx pk (m ∷ ms) [] = ok []
  check_messages ctx pk (m ∷ ms) (s ∷ ss) = do
    verify_message pk m s
    now ← host_timestamp ctx
    map_err commitment (Context.validate m.context now)
    rest ← check_messages ctx pk ms ss
    ok (m ∷ rest)
