-- ===== src/LightClient/Context.antt =====
-- modules/light-client/src/context.rs and modules/context/src/context.rs: a store with the host's
-- time, and what light clients read from it and write to it.
pub mod Laws
use lcp.Base.{
  ℕ, ◌+◌, ◌%◌, ◌^◌, ◌≡◌, refl, Bool, Option, none, some, Result, ok, err, panic, ◌>>=◌, ok_or,
  expect, unwrap, assert, length, if◌then◌else◌, arith,
}
use lcp.Base.Equality.{◌==◌, ℕ_PartialEq}
use lcp.Base.Bytes.{Bytes, to_be_bytes, from_be_bytes}
use lcp.Base.Codec.{Codec}
use lcp.Base.Utf8.{is_utf8}
use lcp.Types.Any.{Any, IsAny}
use lcp.Types.Height.{Height}
use lcp.Store.KvStore.{KvStore}
use lcp.LightClient.Errors.{
  Error, client_type_not_found, client_state_not_found, consensus_state_not_found,
}
use lcp.LightClient.Path.{
  ClientId, client_type_path, client_state_path, client_consensus_state_path, next_client_sequence,
}

-- The registry and the enclave key of a `Context` are passed to the code that uses them.
pub record Context (T S : Type 0) : Type 0 where
  pub store : S
  pub current_timestamp : Option T

module _ {T S : Type 0} where
  unfoldable pub new : S → Context T S
  new store = record { store = store; current_timestamp = none }

  unfoldable pub set_timestamp : Context T S → T → Context T S
  set_timestamp ctx timestamp = record ctx { current_timestamp = some timestamp }

  unfoldable pub host_timestamp {ℓ} : {E : Type ℓ} → Context T S → Result E T
  host_timestamp ctx = expect ctx.current_timestamp

module _ {T S : Type 0} ⦃kv : KvStore S⦄ where
  -- `impl KVStore for Context`
  abbrev pub get : Context T S → Bytes → Option Bytes
  get ctx key = kv.get ctx.store key

  unfoldable pub set : Context T S → Bytes → Bytes → Context T S
  set ctx key value = record ctx { store = kv.set ctx.store key value }

  unfoldable pub remove : Context T S → Bytes → Context T S
  remove ctx key = record ctx { store = kv.remove ctx.store key }

  unfoldable pub client_type : Context T S → ClientId → Result (Error T) Bytes
  client_type ctx client_id = do
    value ← ok_or (get ctx (client_type_path client_id)) (client_type_not_found client_id)
    if is_utf8 value then ok value else panic

  unfoldable pub client_counter : Context T S → Result (Error T) ℕ
  client_counter ctx = elim (get ctx next_client_sequence) [
    | some bz ↦ if length bz == 8 then ok (from_be_bytes bz) else panic
    | none ↦ ok 0
  ]

  unfoldable pub store_client_type : ClientId → Bytes → Context T S → Context T S
  store_client_type client_id client_type ctx = set ctx (client_type_path client_id) client_type

  -- The counter is an `u64`; the release build wraps around.
  unfoldable pub increase_client_counter : Context T S → Result (Error T) (Context T S)
  increase_client_counter ctx = do
    n ← unwrap (client_counter ctx)
    ok (set ctx next_client_sequence (to_be_bytes 8 ((n + 1) % 2 ^ 64)))

  -- `bincode` encodes an `Any`.
  module _ (bincode : Codec IsAny) where
    unfoldable pub client_state : Context T S → ClientId → Result (Error T) Any
    client_state ctx client_id = do
      value ← ok_or (get ctx (client_state_path client_id)) (client_state_not_found client_id)
      expect (bincode.decode value)

    unfoldable pub consensus_state : Context T S → ClientId → Height → Result (Error T) Any
    consensus_state ctx client_id height = do
      value ←
          ok_or (get ctx (client_consensus_state_path client_id height))
            (consensus_state_not_found client_id height)
      expect (bincode.decode value)

    unfoldable pub store_any_client_state : ClientId → Any → Context T S → Context T S
    store_any_client_state client_id client_state ctx =
        set ctx (client_state_path client_id) (bincode.encode client_state)

    unfoldable pub store_any_consensus_state : ClientId → Height → Any → Context T S → Context T S
    store_any_consensus_state client_id height consensus_state ctx =
        set ctx (client_consensus_state_path client_id height) (bincode.encode consensus_state)
