-- ===== src/Store/RocksDb.antt =====
-- `StoreTransaction` and its kinds of modules/store/src/rocksdb.rs: reads from a snapshot, and
-- writes to a buffer or to a transaction of the database.
pub mod Store
pub mod Contents
pub mod Locks
use lcp.Base.{
  ◌≡◌, refl, ◌⊎◌, inl, inr, Option, none, some, [], Result, ok, err, panic, ◌>>=◌, expect, map_err,
}
use lcp.Base.Bytes.{Bytes}
use lcp.Base.HashMap
use lcp.Base.HashMap.{HashMap}
use lcp.Store.KvStore.{StoreError, commit_tx}
use lcp.Store.Memory.{overlay}
use lcp.Store.Database.{RocksDb}

pub data InnerDb (Db ReadDb : Type 0) : Type 0 where
  transaction_db : Db → InnerDb Db ReadDb
  read_only_db : ReadDb → InnerDb Db ReadDb

-- To split on a database and keep the equation.
pub InnerDb-cases :
    {Db ReadDb : Type 0} (db : InnerDb Db ReadDb)
    → ((d : Db) × (db ≡ transaction_db d)) ⊎ ((r : ReadDb) × (db ≡ read_only_db r))
InnerDb-cases (transaction_db d) = inl (d, refl)
InnerDb-cases (read_only_db r) = inr (r, refl)

-- `ReadTransaction` and `ReadSnapshot`, which differ in the database of their snapshot
pub record ReadTransaction (Snapshot : Type 0) : Type 0 where
  pub snapshot : Snapshot
  pub buffer : HashMap (Option Bytes)

pub data StoreTransaction (Txn Snapshot : Type 0) : Type 0 where
  read : ReadTransaction Snapshot → StoreTransaction Txn Snapshot
  update : Txn → StoreTransaction Txn Snapshot
  read_snapshot : ReadTransaction Snapshot → StoreTransaction Txn Snapshot

module _ {Db ReadDb Txn Snapshot : Type 0} (lib : RocksDb Db ReadDb Txn Snapshot) where
  -- `KVStore for ReadTransaction` and for `ReadSnapshot`
  unfoldable pub get_read : ReadTransaction Snapshot → Bytes → Option Bytes
  get_read stx key = overlay (HashMap.get key stx.buffer) (lib.get_snapshot stx.snapshot key)

  -- `set` with a value, `remove` with `none`
  abbrev pub write_read : Bytes → Option Bytes → ReadTransaction Snapshot → ReadTransaction Snapshot
  write_read key value stx = record stx { buffer = HashMap.insert key value stx.buffer }

  -- `KVStore for StoreTransaction`
  unfoldable pub get_tx : StoreTransaction Txn Snapshot → Bytes → Option Bytes
  unfolding get_read
  get_tx (read stx) key = get_read stx key
  get_tx (update txn) key = lib.get_txn txn key
  get_tx (read_snapshot stx) key = get_read stx key

  -- `unwrap` on what the database's transaction answers
  abbrev pub written :
      Option (Txn × Db) → Result StoreError (StoreTransaction Txn Snapshot × InnerDb Db ReadDb)
  written none = panic
  written (some (txn, db)) = ok (update txn, transaction_db db)

  -- `set` and `remove`; an update transaction exists over a `TransactionDB` only.
  unfoldable pub write_tx :
      Bytes
      → Option Bytes
      → StoreTransaction Txn Snapshot
      → InnerDb Db ReadDb
      → Result StoreError (StoreTransaction Txn Snapshot × InnerDb Db ReadDb)
  write_tx key value (read stx) db = ok (read (write_read key value stx), db)
  write_tx key value (update txn) (transaction_db db) = written (lib.write_txn txn key value db)
  write_tx key value (update txn) (read_only_db db) = panic
  write_tx key value (read_snapshot stx) db = ok (read_snapshot (write_read key value stx), db)

  unfoldable pub commit_stx :
      StoreTransaction Txn Snapshot
      → InnerDb Db ReadDb
      → Result StoreError (Unit {0}) × InnerDb Db ReadDb
  commit_stx (update txn) (transaction_db db) =
      let (r, db') = lib.commit_txn txn db in (map_err commit_tx r, transaction_db db')
  commit_stx stx db = (ok tt, db)

  unfoldable pub rollback_stx :
      StoreTransaction Txn Snapshot
      → InnerDb Db ReadDb
      → Result StoreError (Unit {0}) × InnerDb Db ReadDb
  rollback_stx (update txn) (transaction_db db) = elim (lib.rollback_txn txn db) [
    | some db' ↦ (ok tt, transaction_db db')
    | none ↦ (panic, transaction_db db)
  ]
  rollback_stx stx db = (ok tt, db)

  -- `InnerDB::get`, and `set` and `remove` with their `unwrap`
  unfoldable pub get_db : InnerDb Db ReadDb → Bytes → Option Bytes
  get_db (transaction_db db) key = lib.get db key
  get_db (read_only_db db) key = lib.get_ro db key

  unfoldable pub write_db :
      InnerDb Db ReadDb → Bytes → Option Bytes → Result StoreError (InnerDb Db ReadDb)
  write_db (transaction_db db) key value = do
    db' ← expect (lib.write db key value)
    ok (transaction_db db')
  write_db (read_only_db db) key value = do
    db' ← expect (lib.write_ro db key value)
    ok (read_only_db db')

  -- the transaction that `begin` makes
  unfoldable pub begin_stx : Option Bytes → InnerDb Db ReadDb → StoreTransaction Txn Snapshot
  begin_stx update_key (read_only_db db) =
      read_snapshot (record { snapshot = lib.snapshot_ro db; buffer = [] })
  begin_stx (some key) (transaction_db db) = update (lib.transaction db)
  begin_stx none (transaction_db db) = read (record { snapshot = lib.snapshot db; buffer = [] })
