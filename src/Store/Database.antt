-- ===== src/Store/Database.antt =====
-- What modules/store/src/rocksdb.rs asks of the crate rocksdb: a database with transactions, one
-- opened for reading, snapshots, and pessimistic transactions. Reads do not fail here; a write, a
-- commit and a rollback may. Locks on keys are part of the database.
use lcp.Base.{◌≡◌, Option, none, some, Result, ok, if◌then◌else◌}
use lcp.Base.Equality.{◌==◌}
use lcp.Base.Bytes.{Bytes, bytes_PartialEq}
use lcp.Store.Memory.{overlay}

-- `TransactionDB`, `DB`, `Transaction` and the snapshots of the first two. A write is of a value, or
-- of `none` for a deletion.
pub record RocksDb (Db ReadDb Txn Snapshot : Type 0) : Type 0 where
  pub get : Db → Bytes → Option Bytes
  pub write : Db → Bytes → Option Bytes → Option Db
  pub snapshot : Db → Snapshot
  pub get_ro : ReadDb → Bytes → Option Bytes
  pub write_ro : ReadDb → Bytes → Option Bytes → Option ReadDb
  pub snapshot_ro : ReadDb → Snapshot
  pub get_snapshot : Snapshot → Bytes → Option Bytes
  -- `transaction_opt` with `set_snapshot(true)`
  pub transaction : Db → Txn
  -- through the transaction's own snapshot
  pub get_txn : Txn → Bytes → Option Bytes
  pub write_txn : Txn → Bytes → Option Bytes → Db → Option (Txn × Db)
  pub commit_txn : Txn → Db → Result Bytes (Unit {0}) × Db
  pub rollback_txn : Txn → Db → Option Db
  pub get_snapshot-snapshot : (d : Db) (k : Bytes) → get_snapshot (snapshot d) k ≡ get d k
  pub get_snapshot-snapshot_ro :
      (d : ReadDb) (k : Bytes) → get_snapshot (snapshot_ro d) k ≡ get_ro d k
  -- what the transaction has written, and what it reads beneath
  pub pending : Txn → Bytes → Option (Option Bytes)
  pub base : Txn → Bytes → Option Bytes
  pub pending-transaction : (d : Db) (k : Bytes) → pending (transaction d) k ≡ none
  pub base-transaction : (d : Db) (k : Bytes) → base (transaction d) k ≡ get d k
  pub get_txn-eq : (t : Txn) (k : Bytes) → get_txn t k ≡ overlay (pending t k) (base t k)
  pub write_txn-pending :
      (t t' : Txn) (k : Bytes) (v : Option Bytes) (d d' : Db) (j : Bytes)
      → write_txn t k v d ≡ some (t', d')
      → pending t' j ≡ (if k == j then some v else pending t j)
  pub write_txn-base :
      (t t' : Txn) (k : Bytes) (v : Option Bytes) (d d' : Db) (j : Bytes)
      → write_txn t k v d ≡ some (t', d')
      → base t' j ≡ base t j
  pub write_txn-get :
      (t t' : Txn) (k : Bytes) (v : Option Bytes) (d d' : Db) (j : Bytes)
      → write_txn t k v d ≡ some (t', d')
      → get d' j ≡ get d j
  pub commit_txn-get :
      (t : Txn) (d : Db) (k : Bytes)
      → (commit_txn t d).0 ≡ ok tt
      → get (commit_txn t d).1 k ≡ overlay (pending t k) (get d k)
  pub rollback_txn-get :
      (t : Txn) (d d' : Db) (k : Bytes) → rollback_txn t d ≡ some d' → get d' k ≡ get d k
