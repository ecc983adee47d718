-- ===== src/LightClient/Errors.antt =====
-- modules/light-client/src/errors.rs: the variants that the modelled code returns.
use lcp.Base.Bytes.{Bytes}
use lcp.Types.Height.{Height}
use lcp.Commitments.Errors

pub data Error (T : Type 0) : Type 0 where
  commitment : Errors.Error T → Error T
  client_type_not_found : Bytes → Error T
  client_state_not_found : Bytes → Error T
  consensus_state_not_found : Bytes → Height → Error T
  -- the error of the light client itself, by its text
  light_client_specific : Bytes → Error T

pub data RegistryError : Type 0 where
  type_url_not_found : Bytes → RegistryError
  type_url_already_exists : Bytes → RegistryError
  already_sealed : RegistryError
