-- ===== src/LightClient/Registry.antt =====
-- modules/light-client/src/registry.rs: the light clients of an enclave by the type URL of their
-- client states.
pub mod Calls
use lcp.Base.{Bool, true, false, Option, none, some, [], ok, err, panic, if◌then◌else◌}
use lcp.Base.Bytes.{Bytes}
use lcp.Base.Action.{Action}
use lcp.Base.HashMap
use lcp.Base.HashMap.{HashMap}
use lcp.LightClient.Errors.{RegistryError, already_sealed, type_url_already_exists}

pub record MapLightClientRegistry (L : Type 0) : Type 0 where
  pub registry : HashMap L
  pub sealed : Bool

module _ {L : Type 0} where
  -- `MapLightClientRegistry::new`
  abbrev pub empty_registry : MapLightClientRegistry L
  empty_registry = record { registry = []; sealed = false }

  unfoldable pub seal : Action (MapLightClientRegistry L) RegistryError Unit
  seal r = if r.sealed then (err already_sealed, r) else (ok tt, record r { sealed = true })

  unfoldable pub get_light_client : Bytes → MapLightClientRegistry L → Option L
  get_light_client client_state_type_url r = HashMap.get client_state_type_url r.registry

  -- `assert!(!self.sealed)` first, then the test for an entry of the same name
  unfoldable pub put_light_client : Bytes → L → Action (MapLightClientRegistry L) RegistryError Unit
  unfolding get_light_client
  put_light_client client_state_type_url lc r =
      if r.sealed then (panic, r) else elim (get_light_client client_state_type_url r) [
        | some other ↦ (err (type_url_already_exists client_state_type_url), r)
        | none ↦ (ok tt, record r { registry = HashMap.insert client_state_type_url lc r.registry })
      ]
