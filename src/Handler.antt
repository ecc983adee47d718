-- ===== src/Handler.antt =====
-- enclave-modules/ecall-handler/src/light_client: what the enclave does for each command on light
-- clients. Each operation is an `Action` on the context: what it wrote stays beside an error.
pub mod Errors
pub mod Messages
pub mod Aggregate
pub mod Init
pub mod Update
pub mod State
pub mod Router
pub mod Fresh
use lcp.Base.{ℕ, Bool, Option, Result, ok, ◌>>=◌, map_err, ok_or, if◌then◌else◌}
use lcp.Base.Bytes.{Bytes}
use lcp.Base.Codec.{Codec}
use lcp.Types.Time.{TmTime}
use lcp.Types.Any.{IsAny}
use lcp.Crypto.{Address, Signer, Secp256k1}
use lcp.Commitments.Abi.{Libs}
use lcp.Commitments.Message.Proxy
use lcp.Commitments.Message.Proxy.{ProxyMessage}
use lcp.Commitments.Proof.{CommitmentProof, prove_commitment, new_with_no_signature}
use lcp.Store.KvStore.{KvStore}
use lcp.LightClient.Errors.{type_url_not_found}
use lcp.LightClient.Path.{ClientId}
use lcp.LightClient.Client.{LightClient}
use lcp.LightClient.Context.{Context, client_state}
use Errors.{Error, light_client, light_client_registry, commitment}

-- The other crates that the handler calls, and the registry of its environment.
pub record Env (T PK SK S : Type 0) : Type 0 where
  pub abi : Libs
  pub bincode : Codec IsAny
  pub secp : Secp256k1 PK SK
  pub unicode_alphanumeric : ℕ → Bool
  pub get_light_client : Bytes → Option (LightClient T S)

module _ {T PK SK S : Type 0} ⦃kv : KvStore S⦄ (env : Env T PK SK S) where
  unfoldable pub get_light_client_by_client_id :
      Context T S → ClientId → Result (Error T) (LightClient T S)
  get_light_client_by_client_id ctx client_id = do
    any_client_state ← map_err light_client (client_state env.bincode ctx client_id)
    ok_or (env.get_light_client any_client_state.type_url)
        (light_client_registry (type_url_not_found any_client_state.type_url))

module _ {T PK SK S : Type 0} ⦃tm : TmTime T⦄ (env : Env T PK SK S) where
  -- `prove_commitment`, or the message alone where nothing is to be proved
  unfoldable pub make_proof :
      Signer PK → Address → ProxyMessage T → Bool → Result (Error T) CommitmentProof
  make_proof ek signer message prove =
      if prove then map_err commitment (prove_commitment env.abi ek signer message) else (do
        bz ← map_err commitment (Proxy.to_bytes env.abi message)
        ok (new_with_no_signature bz))
