-- ===== src/Store/RocksDb/Store.antt =====
-- `RocksDBStore` and `RocksDBTx` of modules/store/src/rocksdb.rs: transactions by number, and a mutex
-- for each update key in use. A mutex is shared by reference counts (`Rc`), which are on a heap here.
use lcp.Base.{
  ℕ, ◌+◌, ◌-◌, Bool, true, false, Option, none, some, Result, ok, err, panic, length, if◌then◌else◌,
}
use lcp.Base.Equality.{◌==◌, ℕ_PartialEq}
use lcp.Base.Bytes.{Bytes, bytes_PartialEq}
use lcp.Base.Family.{update}
use lcp.Base.Action.{Action, ◌>>◌}
use lcp.Store.KvStore.{StoreError, TxId, safe_incr, tx_id_not_found, invalid_update_key_length}
use lcp.Store.Database.{RocksDb}
use lcp.Store.RocksDb.{
  InnerDb, transaction_db, read_only_db, StoreTransaction, get_tx, write_tx, commit_stx,
  rollback_stx, begin_stx,
}

abbrev pub MutexId : Type 0
MutexId = ℕ

-- `Rc<Mutex<()>>`, as its allocation
pub record RcMutex : Type 0 where
  pub strong_count : ℕ
  pub locked : Bool

pub record RocksDbStore (Db ReadDb Txn Snapshot : Type 0) : Type 0 where
  pub db : InnerDb Db ReadDb
  pub latest_tx_id : TxId
  pub txs : TxId → Option (StoreTransaction Txn Snapshot)
  pub mutex : Bytes → Option MutexId
  pub heap : MutexId → RcMutex
  pub next_mutex : MutexId

-- `RocksDBTx`, created or prepared: `guarded` where it holds the guard of its mutex
pub record RocksDbTx : Type 0 where
  pub id : TxId
  pub update_key : Option Bytes
  pub mutex : Option MutexId
  pub guarded : Bool

abbrev pub new_read_tx : TxId → RocksDbTx
new_read_tx id = record { id = id; update_key = none; mutex = none; guarded = false }

abbrev pub new_update_tx : TxId → Bytes → MutexId → RocksDbTx
new_update_tx id key m = record { id = id; update_key = some key; mutex = some m; guarded = false }

module _ {Db ReadDb Txn Snapshot : Type 0} where
  abbrev pub empty_store : InnerDb Db ReadDb → RocksDbStore Db ReadDb Txn Snapshot
  empty_store db = record {
    db = db;
    latest_tx_id = 0;
    txs = λ id. none;
    mutex = λ key. none;
    heap = λ m. record { strong_count = 0; locked = false };
    next_mutex = 0;
  }

  abbrev pub set_heap :
      MutexId → RcMutex → RocksDbStore Db ReadDb Txn Snapshot → RocksDbStore Db ReadDb Txn Snapshot
  set_heap m v s = record s { heap = update s.heap m v }

  -- `Rc::clone`, and the drop of a reference
  unfoldable pub clone_mutex :
      MutexId → RocksDbStore Db ReadDb Txn Snapshot → RocksDbStore Db ReadDb Txn Snapshot
  clone_mutex m s = set_heap m (record (s.heap m) { strong_count = (s.heap m).strong_count + 1 }) s

  unfoldable pub drop_mutex :
      MutexId → RocksDbStore Db ReadDb Txn Snapshot → RocksDbStore Db ReadDb Txn Snapshot
  drop_mutex m s = set_heap m (record (s.heap m) { strong_count = (s.heap m).strong_count - 1 }) s

  -- `if !mutex.contains_key(&update_key) { mutex.insert(update_key, Rc::new(Mutex::new(()))) }`
  unfoldable pub insert_mutex :
      Bytes → RocksDbStore Db ReadDb Txn Snapshot → RocksDbStore Db ReadDb Txn Snapshot
  insert_mutex key s = elim (s.mutex key) [
    | some m ↦ s
    | none ↦
        set_heap s.next_mutex (record { strong_count = 1; locked = false })
          (record s {
            mutex = update s.mutex key (some s.next_mutex);
            next_mutex = s.next_mutex + 1;
          })
  ]

  -- an update transaction over the mutex of its key
  unfoldable pub create_update :
      TxId → Bytes → Action (RocksDbStore Db ReadDb Txn Snapshot) StoreError RocksDbTx
  create_update id key s =
      if length key == 0
      then (err (invalid_update_key_length 0), s)
      else (let s1 = insert_mutex key s in
          elim (s1.mutex key) [
            | none ↦ (panic, s1)
            | some m ↦ (ok (new_update_tx id key m), clone_mutex m s1)
          ])

  unfoldable pub create_numbered :
      TxId → Option Bytes → Action (RocksDbStore Db ReadDb Txn Snapshot) StoreError RocksDbTx
  create_numbered id update_key s = elim s.db [
    | read_only_db db ↦ (ok (new_read_tx id), s)
    | transaction_db db ↦ elim update_key [
      | none ↦ (ok (new_read_tx id), s)
      | some key ↦ create_update id key s
    ]
  ]

  unfoldable pub create_transaction :
      Option Bytes → Action (RocksDbStore Db ReadDb Txn Snapshot) StoreError RocksDbTx
  create_transaction update_key s = elim (safe_incr s.latest_tx_id) [
    | err e ↦ (err e, s)
    | panic ↦ (panic, s)
    | ok id ↦ create_numbered id update_key (record s { latest_tx_id = id })
  ]

  -- `prepare`: `none` while another guard of the mutex exists, for which the caller waits
  unfoldable pub prepare :
      RocksDbTx
      → RocksDbStore Db ReadDb Txn Snapshot
      → Option (RocksDbTx × RocksDbStore Db ReadDb Txn Snapshot)
  prepare tx s = elim tx.mutex [
    | none ↦ some (tx, s)
    | some m ↦
        if (s.heap m).locked
        then none
        else some (record tx { guarded = true }, set_heap m (record (s.heap m) { locked = true }) s)
  ]

  -- the end of a handle: its guard is released and its reference dropped
  unfoldable pub drop_tx :
      RocksDbTx → RocksDbStore Db ReadDb Txn Snapshot → RocksDbStore Db ReadDb Txn Snapshot
  drop_tx tx s = elim tx.mutex [
    | none ↦ s
    | some m ↦
        drop_mutex m (if tx.guarded then set_heap m (record (s.heap m) { locked = false }) s else s)
  ]

  -- the entry of `mutex` goes if only it and the transaction itself refer to the mutex
  unfoldable pub release_key :
      Bytes → Action (RocksDbStore Db ReadDb Txn Snapshot) StoreError (Unit {0})
  release_key key s = elim (s.mutex key) [
    | none ↦ (panic, s)
    | some m ↦
        if (s.heap m).strong_count == 2
        then (ok tt, drop_mutex m (record s { mutex = update s.mutex key none }))
        else (ok tt, s)
  ]

  module _ (lib : RocksDb Db ReadDb Txn Snapshot) where
    unfoldable pub begin :
        RocksDbTx → RocksDbStore Db ReadDb Txn Snapshot → RocksDbStore Db ReadDb Txn Snapshot
    begin tx s = record s { txs = update s.txs tx.id (some (begin_stx lib tx.update_key s.db)) }

    -- `tx_get`, by `run_in_tx`
    unfoldable pub tx_get :
        TxId → Bytes → RocksDbStore Db ReadDb Txn Snapshot → Result StoreError (Option Bytes)
    tx_get tx_id key s = elim (s.txs tx_id) [
      | none ↦ err (tx_id_not_found tx_id)
      | some stx ↦ ok (get_tx lib stx key)
    ]

    -- `tx_set` and, with `none`, `tx_remove`, by `run_in_mut_tx`
    unfoldable pub tx_write :
        TxId
        → Bytes
        → Option Bytes
        → Action (RocksDbStore Db ReadDb Txn Snapshot) StoreError (Unit {0})
    tx_write tx_id key value s = elim (s.txs tx_id) [
      | none ↦ (err (tx_id_not_found tx_id), s)
      | some stx ↦ elim (write_tx lib key value stx s.db) [
        | err e ↦ (err e, s)
        | panic ↦ (panic, s)
        | ok (stx', db') ↦ (ok tt, record s { txs = update s.txs tx_id (some stx'); db = db' })
      ]
    ]

  -- the end of a transaction by `f`, which takes it with the database; then its handle is dropped
  unfoldable pub end_tx :
      RocksDbTx
      → (StoreTransaction Txn Snapshot
          → InnerDb Db ReadDb
          → Result StoreError (Unit {0}) × InnerDb Db ReadDb)
      → Action (RocksDbStore Db ReadDb Txn Snapshot) StoreError (Unit {0})
  end_tx tx f s = elim (s.txs tx.id) [
    | none ↦ (panic, s)
    | some stx ↦
        let (r, db') = f stx s.db in
        (r, drop_tx tx (record s { txs = update s.txs tx.id none; db = db' }))
  ]

  unfoldable pub finalize_tx :
      RocksDbTx
      → (StoreTransaction Txn Snapshot
          → InnerDb Db ReadDb
          → Result StoreError (Unit {0}) × InnerDb Db ReadDb)
      → Action (RocksDbStore Db ReadDb Txn Snapshot) StoreError (Unit {0})
  finalize_tx tx f s = elim tx.update_key [
    | none ↦ end_tx tx f s
    | some key ↦ (release_key key >> end_tx tx f) s
  ]

  module _ (lib : RocksDb Db ReadDb Txn Snapshot) where
    unfoldable pub commit :
        RocksDbTx → Action (RocksDbStore Db ReadDb Txn Snapshot) StoreError (Unit {0})
    commit tx = finalize_tx tx (commit_stx lib)

    unfoldable pub rollback :
        RocksDbTx → Action (RocksDbStore Db ReadDb Txn Snapshot) StoreError (Unit {0})
    rollback tx = finalize_tx tx (rollback_stx lib)
