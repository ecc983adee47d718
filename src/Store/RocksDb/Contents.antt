-- ===== src/Store/RocksDb/Contents.antt =====
-- What a transaction of modules/store/src/rocksdb.rs holds: the writes made in it over what the
-- database held when it began.
pub mod Session
use lcp.Base.{
  ◌≡◌, refl, ◌∙◌, inl, inr, Bool, true, false, Option, none, some, Option-cases, List, [], ◌∷◌,
  Result, ok, map_err-eq-ok, if◌then◌else◌, arith,
}
use lcp.Base.Equality.{◌==◌}
use lcp.Base.Bytes.{Bytes, bytes_PartialEq}
use lcp.Base.HashMap
use lcp.Base.HashMap.{get-insert}
use lcp.Store.KvStore.{StoreError, commit_tx}
use lcp.Store.Memory.{overlay}
use lcp.Store.Database.{RocksDb}
use lcp.Store.RocksDb.{
  InnerDb, transaction_db, read_only_db, StoreTransaction, read, update, read_snapshot, get_read,
  get_tx, write_tx, commit_stx, rollback_stx, get_db, begin_stx, ReadTransaction,
}

module _ {Db ReadDb Txn Snapshot : Type 0} (lib : RocksDb Db ReadDb Txn Snapshot) where
  abbrev pub pending_of : StoreTransaction Txn Snapshot → Bytes → Option (Option Bytes)
  pending_of (read stx) j = HashMap.get j stx.buffer
  pending_of (update txn) j = lib.pending txn j
  pending_of (read_snapshot stx) j = HashMap.get j stx.buffer

  abbrev pub base_of : StoreTransaction Txn Snapshot → Bytes → Option Bytes
  base_of (read stx) j = lib.get_snapshot stx.snapshot j
  base_of (update txn) j = lib.base txn j
  base_of (read_snapshot stx) j = lib.get_snapshot stx.snapshot j

  -- whether a commit writes to the database
  abbrev pub writes_back : StoreTransaction Txn Snapshot → InnerDb Db ReadDb → Bool
  writes_back (update txn) (transaction_db db) = true
  writes_back (update txn) (read_only_db db) = false
  writes_back (read stx) db = false
  writes_back (read_snapshot stx) db = false

  pub get_tx-overlay :
      (stx : StoreTransaction Txn Snapshot) (j : Bytes)
      → get_tx lib stx j ≡ overlay (pending_of stx j) (base_of stx j)
  unfolding get_tx get_read
  get_tx-overlay (read stx) j = refl
  get_tx-overlay (update txn) j = lib.get_txn-eq txn j
  get_tx-overlay (read_snapshot stx) j = refl

  -- A transaction begins with nothing written, over the database as it is.
  pub begin_stx-shows :
      (update_key : Option Bytes) (db : InnerDb Db ReadDb) (j : Bytes)
      → (pending_of (begin_stx lib update_key db) j ≡ none)
        × (base_of (begin_stx lib update_key db) j ≡ get_db lib db j)
  unfolding begin_stx get_db HashMap.get
  begin_stx-shows none (transaction_db db) j = (refl, lib.get_snapshot-snapshot db j)
  begin_stx-shows (some key) (transaction_db db) j =
      (lib.pending-transaction db j, lib.base-transaction db j)
  begin_stx-shows update_key (read_only_db db) j = (refl, lib.get_snapshot-snapshot_ro db j)

  -- What a write changes.
  pub record Writes (key : Bytes) (value : Option Bytes) (stx stx' : StoreTransaction Txn Snapshot)
      (db db' : InnerDb Db ReadDb) : Type 0 where
    pub pending :
        (j : Bytes) → pending_of stx' j ≡ (if key == j then some value else pending_of stx j)
    pub base : (j : Bytes) → base_of stx' j ≡ base_of stx j
    pub contents : (j : Bytes) → get_db lib db' j ≡ get_db lib db j
    pub kind : writes_back stx' db' ≡ writes_back stx db

  pub write_tx-Writes :
      (key : Bytes) (value : Option Bytes) (stx stx' : StoreTransaction Txn Snapshot)
      (db db' : InnerDb Db ReadDb)
      → write_tx lib key value stx db ≡ ok (stx', db')
      → Writes key value stx stx' db db'
  unfolding write_tx get_db
  write_tx-Writes key value (read stx) stx' db db' h =
      let p : read (record stx { buffer = HashMap.insert key value stx.buffer }) ≡ stx' =
        ground arith in
      let q : db ≡ db' = ground arith in
      rw (← p, ← q)
        (record {
          pending = λ j. get-insert j key value stx.buffer;
          base = λ j. refl;
          contents = λ j. refl;
          kind = refl;
        })
  write_tx-Writes key value (read_snapshot stx) stx' db db' h =
      let p : read_snapshot (record stx { buffer = HashMap.insert key value stx.buffer }) ≡ stx' =
        ground arith in
      let q : db ≡ db' = ground arith in
      rw (← p, ← q)
        (record {
          pending = λ j. get-insert j key value stx.buffer;
          base = λ j. refl;
          contents = λ j. refl;
          kind = refl;
        })
  write_tx-Writes key value (update txn) stx' (read_only_db db) db' h = cc
  write_tx-Writes key value (update txn) stx' (transaction_db db) db' h =
      elim (Option-cases (lib.write_txn txn key value db)) [
        | inl e ↦ absurd (ground arith)
        | inr ((txn', d), e) ↦
            let p : update txn' ≡ stx' = ground arith in
            let q : transaction_db d ≡ db' = ground arith in
            rw (← p, ← q)
              (record {
                pending = λ j. lib.write_txn-pending txn txn' key value db d j e;
                base = λ j. lib.write_txn-base txn txn' key value db d j e;
                contents = λ j. lib.write_txn-get txn txn' key value db d j e;
                kind = refl;
              })
      ]

  -- What a commit that succeeds leaves in the database.
  pub commit_stx-get :
      (stx : StoreTransaction Txn Snapshot) (db : InnerDb Db ReadDb) (j : Bytes)
      → (commit_stx lib stx db).0 ≡ ok tt
      → get_db lib (commit_stx lib stx db).1 j ≡ (
          if writes_back stx db
          then overlay (pending_of stx j) (get_db lib db j)
          else get_db lib db j)
  unfolding commit_stx get_db
  commit_stx-get (read stx) db j h = refl
  commit_stx-get (read_snapshot stx) db j h = refl
  commit_stx-get (update txn) (read_only_db db) j h = refl
  commit_stx-get (update txn) (transaction_db db) j h =
      lib.commit_txn-get txn db j (map_err-eq-ok commit_tx (lib.commit_txn txn db).0 h)

  pub rollback_stx-get :
      (stx : StoreTransaction Txn Snapshot) (db : InnerDb Db ReadDb) (j : Bytes)
      → get_db lib (rollback_stx lib stx db).1 j ≡ get_db lib db j
  unfolding rollback_stx get_db
  rollback_stx-get (read stx) db j = refl
  rollback_stx-get (read_snapshot stx) db j = refl
  rollback_stx-get (update txn) (read_only_db db) j = refl
  rollback_stx-get (update txn) (transaction_db db) j =
      elim (Option-cases (lib.rollback_txn txn db)) [
        | inl e ↦ ground arith
        | inr (d, e) ↦ ground (arith, lib.rollback_txn-get txn db d j e)
      ]
