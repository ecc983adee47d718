-- ===== src/Store/KvStore.antt =====
-- `trait KVStore` and `TxId` of modules/store/src/store.rs.
use lcp.Base.{ℕ, ◌+◌, ◌≡◌, Option, none, some, Result, ok, err, ltb, if◌then◌else◌}
use lcp.Base.Equality.{◌==◌}
use lcp.Base.Bytes.{Bytes, bytes_PartialEq}
use lcp.Base.Decimal.{u64_bound}

-- The three operations, with what a client relies on: a value is read until the next write to its
-- key, and a write to one key leaves the others.
pub record KvStore (S : Type 0) : Type 0 where
  pub get : S → Bytes → Option Bytes
  pub set : S → Bytes → Bytes → S
  pub remove : S → Bytes → S
  pub get-set : (s : S) (k j v : Bytes) → get (set s k v) j ≡ (if k == j then some v else get s j)
  pub get-remove : (s : S) (k j : Bytes) → get (remove s k) j ≡ (if k == j then none else get s j)

abbrev pub TxId : Type 0
TxId = ℕ

-- modules/store/src/errors.rs: the variants that the modelled code returns
pub data StoreError : Type 0 where
  tx_id_overflow : StoreError
  tx_id_not_found : TxId → StoreError
  commit_tx : Bytes → StoreError
  invalid_update_key_length : ℕ → StoreError

-- `checked_add(1)`
unfoldable pub safe_incr : TxId → Result StoreError TxId
safe_incr id = if ltb (id + 1) u64_bound then ok (id + 1) else err tx_id_overflow
