-- ===== src/Handler/Errors.antt =====
-- enclave-modules/ecall-handler/src/light_client/errors.rs
use lcp.Base.Bytes.{Bytes}
use lcp.Types.Errors.{TypeError}
use lcp.Crypto.{CryptoError}
use lcp.Commitments.Errors
use lcp.LightClient.Errors.{RegistryError}
use lcp.LightClient.Errors as LightClientErrors

pub data Error (T : Type 0) : Type 0 where
  invalid_argument : Bytes → Error T
  sealed_enclave_key_not_found : Error T
  light_client : LightClientErrors.Error T → Error T
  light_client_registry : RegistryError → Error T
  commitment : Errors.Error T → Error T
  crypto : CryptoError → Error T
  lcp_type : TypeError → Error T
