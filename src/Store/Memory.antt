-- ===== src/Store/Memory.antt =====
-- `InnerMemStore` of modules/store/src/memory.rs: writes go to a buffer while a transaction runs.
-- `MemStore` wraps it in a mutex and passes every call on.
pub mod Transaction
use lcp.Base.{
  ℕ, ◌≡◌, refl, Bool, true, false, not, Option, none, some, List, [], ◌∷◌, Result, ok, err, panic,
  ◌>>=◌, ◌>>◌, assert, if◌then◌else◌, arith,
}
use lcp.Base.Equality.{◌==◌, ==_iff}
use lcp.Base.Bytes.{Bytes, bytes_PartialEq}
use lcp.Base.HashMap
use lcp.Base.HashMap.{HashMap, get-insert, get-remove}
use lcp.Store.KvStore.{KvStore, StoreError, TxId, safe_incr}

pub record InnerMemStore : Type 0 where
  pub running_tx_exists : Bool
  pub latest_tx_id : TxId
  pub uncommitted_data : HashMap (Option Bytes)
  pub committed_data : HashMap Bytes

-- What a buffered write says of its key, over what is committed.
abbrev pub overlay : Option (Option Bytes) → Option Bytes → Option Bytes
overlay none below = below
overlay (some v) below = v

unfoldable pub get : InnerMemStore → Bytes → Option Bytes
get s key =
    if s.running_tx_exists
    then overlay (HashMap.get key s.uncommitted_data) (HashMap.get key s.committed_data)
    else HashMap.get key s.committed_data

unfoldable pub set : InnerMemStore → Bytes → Bytes → InnerMemStore
set s key value =
    if s.running_tx_exists
    then record s { uncommitted_data = HashMap.insert key (some value) s.uncommitted_data }
    else record s { committed_data = HashMap.insert key value s.committed_data }

unfoldable pub remove : InnerMemStore → Bytes → InnerMemStore
remove s key =
    if s.running_tx_exists
    then record s { uncommitted_data = HashMap.insert key none s.uncommitted_data }
    else record s { committed_data = HashMap.remove key s.committed_data }

unfoldable pub create_transaction : InnerMemStore → Result StoreError (TxId × InnerMemStore)
create_transaction s = do id ← safe_incr s.latest_tx_id; ok (id, record s { latest_tx_id = id })

unfoldable pub begin : InnerMemStore → Result StoreError InnerMemStore
begin s = do assert (not s.running_tx_exists); ok (record s { running_tx_exists = true })

-- The loop of `commit` over the buffered writes.
unfoldable pub write_all : HashMap (Option Bytes) → HashMap Bytes → HashMap Bytes
write_all [] committed = committed
write_all ((k, some v) ∷ m) committed = write_all m (HashMap.insert k v committed)
write_all ((k, none) ∷ m) committed = write_all m (HashMap.remove k committed)

unfoldable pub commit : InnerMemStore → Result StoreError InnerMemStore
commit s = do
  assert s.running_tx_exists
  ok (record s {
    running_tx_exists = false;
    uncommitted_data = [];
    committed_data = write_all s.uncommitted_data s.committed_data;
  })

unfoldable pub rollback : InnerMemStore → Result StoreError InnerMemStore
rollback s = do
  assert s.running_tx_exists
  ok (record s { running_tx_exists = false; uncommitted_data = [] })

-- In and out of a transaction, the store reads what was last written.
pub get-set :
    (s : InnerMemStore) (k j v : Bytes) → get (set s k v) j ≡ (if k == j then some v else get s j)
unfolding get set
get-set s k j v =
    ground (arith, get-insert j k (some v) s.uncommitted_data, get-insert j k v s.committed_data)

pub get-remove_lem :
    (s : InnerMemStore) (k j : Bytes) → get (remove s k) j ≡ (if k == j then none else get s j)
unfolding get remove
get-remove_lem s k j =
    ground (arith, get-insert j k none s.uncommitted_data, get-remove j k s.committed_data)

-- The in-memory store is a `KVStore`.
instance abbrev pub memory_KvStore : KvStore InnerMemStore
memory_KvStore = record {
  get = get;
  set = set;
  remove = remove;
  get-set = get-set;
  get-remove = get-remove_lem;
}
