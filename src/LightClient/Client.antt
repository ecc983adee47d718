-- ===== src/LightClient/Client.antt =====
-- modules/light-client/src/client.rs: the interface of a light client to its host, and the results
-- of its operations. A light client only reads the host's context; the host writes the results.
use lcp.Base.{Bool, Result}
use lcp.Base.Bytes.{Bytes}
use lcp.Types.Any.{Any}
use lcp.Types.Height.{Height}
use lcp.Commitments.Message.Proxy.{ProxyMessage}
use lcp.Commitments.Message.UpdateState.{UpdateStateProxyMessage}
use lcp.Commitments.Message.Misbehaviour.{MisbehaviourProxyMessage}
use lcp.Commitments.Message.VerifyMembership.{VerifyMembershipProxyMessage}
use lcp.LightClient.Errors.{Error}
use lcp.LightClient.Path.{ClientId}
use lcp.LightClient.Context.{Context}

pub record CreateClientResult (T : Type 0) : Type 0 where
  pub height : Height
  pub message : ProxyMessage T
  pub prove : Bool

pub record UpdateStateData (T : Type 0) : Type 0 where
  pub new_any_client_state : Any
  pub new_any_consensus_state : Any
  pub height : Height
  pub message : UpdateStateProxyMessage T
  pub prove : Bool

pub record MisbehaviourData (T : Type 0) : Type 0 where
  pub new_any_client_state : Any
  pub message : MisbehaviourProxyMessage T

pub data UpdateClientResult (T : Type 0) : Type 0 where
  state_updated : UpdateStateData T → UpdateClientResult T
  misbehaved : MisbehaviourData T → UpdateClientResult T

pub record VerifyMembershipResult : Type 0 where
  pub message : VerifyMembershipProxyMessage

pub record VerifyNonMembershipResult : Type 0 where
  pub message : VerifyMembershipProxyMessage

-- `trait LightClient`; `&dyn HostClientReader` is the context, which is not changed.
pub record LightClient (T S : Type 0) : Type 0 where
  pub client_type : Bytes
  pub latest_height : Context T S → ClientId → Result (Error T) Height
  pub create_client : Context T S → Any → Any → Result (Error T) (CreateClientResult T)
  pub update_client : Context T S → ClientId → Any → Result (Error T) (UpdateClientResult T)
  -- prefix, path, value, proof height and proof
  pub verify_membership :
      Context T S
      → ClientId
      → Bytes
      → Bytes
      → Bytes
      → Height
      → Bytes
      → Result (Error T) VerifyMembershipResult
  -- prefix, path, proof height and proof
  pub verify_non_membership :
      Context T S
      → ClientId
      → Bytes
      → Bytes
      → Height
      → Bytes
      → Result (Error T) VerifyNonMembershipResult
