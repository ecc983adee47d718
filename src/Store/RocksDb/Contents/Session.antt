-- ===== src/Store/RocksDb/Contents/Session.antt =====
-- A transaction from its begin to its end, whatever else happens to the store in between
-- (modules/store/src/rocksdb.rs).
use lcp.Base.{
  ◌≡◌, refl, ap, ◌∙◌, inl, inr, Bool-cases, true, Option, none, some, Option-cases, List, [], ◌∷◌,
  Result, Result-cases, ok, if◌then◌else◌, arith,
}
use lcp.Base.Equality.{◌==◌, ℕ_PartialEq}
use lcp.Base.Bytes.{Bytes, bytes_PartialEq}
use lcp.Base.Action.{Action, pure, ◌>>◌}
use lcp.Base.Family
use lcp.Base.Family.{update-same}
use lcp.Store.KvStore.{StoreError, TxId}
use lcp.Store.Memory.{overlay}
use lcp.Store.Database.{RocksDb}
use lcp.Store.RocksDb.{
  InnerDb, transaction_db, StoreTransaction, write_tx, commit_stx, rollback_stx, get_db, begin_stx,
}
use lcp.Store.RocksDb.Store.{
  RocksDbTx, RocksDbStore, tx_get, tx_write, end_tx, release_key, finalize_tx, commit, rollback,
  drop_tx, drop_mutex,
}
use lcp.Store.RocksDb.Contents.{
  pending_of, base_of, writes_back, get_tx-overlay, begin_stx-shows, write_tx-Writes,
  commit_stx-get, rollback_stx-get,
}

-- The last write to a key, and a later one over an earlier one.
abbrev pub last : List (Bytes × Option Bytes) → Bytes → Option (Option Bytes)
last [] j = none
last ((key, value) ∷ ws) j = elim (last ws j) [
  | some v ↦ some v
  | none ↦ if key == j then some value else none
]

abbrev pub later : Option (Option Bytes) → Option (Option Bytes) → Option (Option Bytes)
later none p = p
later (some v) p = some v

module _ {Db ReadDb Txn Snapshot : Type 0} (lib : RocksDb Db ReadDb Txn Snapshot) where
  -- writes in one transaction, up to the first that fails
  abbrev pub tx_writes :
      TxId
      → List (Bytes × Option Bytes)
      → Action (RocksDbStore Db ReadDb Txn Snapshot) StoreError (Unit {0})
  tx_writes id [] = pure tt
  tx_writes id ((key, value) ∷ ws) = tx_write lib id key value >> tx_writes id ws

  -- The transaction after writes: they are pending, the database reads as before.
  record Written (id : TxId) (ws : List (Bytes × Option Bytes))
      (stx : StoreTransaction Txn Snapshot) (s s' : RocksDbStore Db ReadDb Txn Snapshot)
      : Type 0 where
    stx' : StoreTransaction Txn Snapshot
    there : s'.txs id ≡ some stx'
    pending : (j : Bytes) → pending_of lib stx' j ≡ later (last ws j) (pending_of lib stx j)
    base : (j : Bytes) → base_of lib stx' j ≡ base_of lib stx j
    contents : (j : Bytes) → get_db lib s'.db j ≡ get_db lib s.db j
    kind : writes_back lib stx' s'.db ≡ writes_back lib stx s.db

  tx_write-step :
      (id : TxId) (key : Bytes) (value : Option Bytes) (s : RocksDbStore Db ReadDb Txn Snapshot)
      {stx : StoreTransaction Txn Snapshot}
      → s.txs id ≡ some stx
      → (tx_write lib id key value s).0 ≡ ok tt
      → (stx' : StoreTransaction Txn Snapshot) × (db' : InnerDb Db ReadDb) × (write_tx lib key value
            stx s.db
          ≡ ok (stx', db'))
        × (tx_write lib id key value s
            ≡ (ok tt, record s { txs = Family.update s.txs id (some stx'); db = db' }))
  unfolding tx_write
  tx_write-step id key value s {stx} e h = elim (Result-cases (write_tx lib key value stx s.db)) [
    | inl ((stx', db'), f) ↦ (stx', db', f, ground (arith, e, f))
    | inr f ↦ absurd (ground arith)
  ]

  tx_writes-Written :
      (id : TxId) (ws : List (Bytes × Option Bytes)) (s s' : RocksDbStore Db ReadDb Txn Snapshot)
      {stx : StoreTransaction Txn Snapshot}
      → s.txs id ≡ some stx
      → tx_writes id ws s ≡ (ok tt, s')
      → Written id ws stx s s'
  tx_writes-Written id [] s s' {stx} e h =
      let q : s ≡ s' = ap (λ x. x.1) h in
      rw (← q) (record {
        stx' = stx;
        there = e;
        pending = λ j. refl;
        base = λ j. refl;
        contents = λ j. refl;
        kind = refl;
      })
  tx_writes-Written id ((key, value) ∷ ws) s s' {stx} e h =
      elim (Result-cases (tx_write lib id key value s).0) [
        | inr f ↦ absurd (ground arith)
        | inl (u, f) ↦
            let (stx', db', made, run) = tx_write-step id key value s e f in
            let w = write_tx-Writes lib key value stx stx' s.db db' made in
            let s1 : RocksDbStore Db ReadDb Txn Snapshot = record s {
              txs = Family.update s.txs id (some stx');
              db = db';
            } in
            let r =
              tx_writes-Written id ws s1 s' (update-same s.txs id (some stx')) (rw run at h) in
            record {
              stx' = r.stx';
              there = r.there;
              pending = λ j. ground (arith, r.pending j, w.pending j);
              base = λ j. r.base j ∙ w.base j;
              contents = λ j. r.contents j ∙ w.contents j;
              kind = r.kind ∙ w.kind;
            }
      ]

  -- Writes in a transaction leave what the database holds.
  pub tx_writes-contents :
      (id : TxId) (ws : List (Bytes × Option Bytes)) (s s' : RocksDbStore Db ReadDb Txn Snapshot)
      {stx : StoreTransaction Txn Snapshot}
      → s.txs id ≡ some stx
      → tx_writes id ws s ≡ (ok tt, s')
      → (j : Bytes) → get_db lib s'.db j ≡ get_db lib s.db j
  tx_writes-contents id ws s s' e h j = (tx_writes-Written id ws s s' e h).contents j

  pub drop_tx-db :
      (tx : RocksDbTx) (s : RocksDbStore Db ReadDb Txn Snapshot) → (drop_tx tx s).db ≡ s.db
  unfolding drop_tx drop_mutex
  drop_tx-db tx s = elim (Option-cases tx.mutex) [
    | inl e ↦ ground arith
    | inr (m, e) ↦ elim (Bool-cases tx.guarded) [ inl g ↦ ground arith | inr g ↦ ground arith ]
  ]

  end_tx-run :
      (tx : RocksDbTx) (s : RocksDbStore Db ReadDb Txn Snapshot)
      (f : StoreTransaction Txn Snapshot
        → InnerDb Db ReadDb
        → Result StoreError (Unit {0}) × InnerDb Db ReadDb)
      {stx : StoreTransaction Txn Snapshot}
      → s.txs tx.id ≡ some stx
      → ((end_tx tx f s).0 ≡ (f stx s.db).0) × ((end_tx tx f s).1.db ≡ (f stx s.db).1)
  unfolding end_tx
  end_tx-run tx s f {stx} e =
      let ended : RocksDbStore Db ReadDb Txn Snapshot = record s {
        txs = Family.update s.txs tx.id none;
        db = (f stx s.db).1;
      } in
      let q : end_tx tx f s ≡ ((f stx s.db).0, drop_tx tx ended) = ground (arith, e) in
      (ap (λ x. x.0) q, ap (λ x. x.1.db) q ∙ drop_tx-db tx ended)

  -- The end of a transaction that succeeds is that of the transaction itself.
  finalize_tx-db :
      (tx : RocksDbTx) (s : RocksDbStore Db ReadDb Txn Snapshot)
      (f : StoreTransaction Txn Snapshot
        → InnerDb Db ReadDb
        → Result StoreError (Unit {0}) × InnerDb Db ReadDb)
      {stx : StoreTransaction Txn Snapshot}
      → s.txs tx.id ≡ some stx
      → (finalize_tx tx f s).0 ≡ ok tt
      → ((finalize_tx tx f s).1.db ≡ (f stx s.db).1) × ((f stx s.db).0 ≡ ok tt)
  unfolding finalize_tx release_key drop_mutex
  finalize_tx-db tx s f {stx} e h = elim (Option-cases tx.update_key) [
    | inl k ↦
        let (p, q) = end_tx-run tx s f e in
        let same : finalize_tx tx f s ≡ end_tx tx f s = ground (arith, k) in
        (ap (λ x. x.1.db) same ∙ q, ground (arith, p, same, h))
    | inr (key, k) ↦ elim (Option-cases (s.mutex key)) [
      | inl m ↦ absurd (ground (arith, k, m, h))
      | inr (n, m) ↦ elim (Bool-cases ((s.heap n).strong_count == 2)) [
        | inl c ↦
            let freed = drop_mutex n (record s { mutex = Family.update s.mutex key none }) in
            let (p, q) = end_tx-run tx freed f e in
            let same : finalize_tx tx f s ≡ end_tx tx f freed = ground (arith, k, m, c) in
            (ap (λ x. x.1.db) same ∙ q, ground (arith, p, same, h))
        | inr c ↦
            let (p, q) = end_tx-run tx s f e in
            let same : finalize_tx tx f s ≡ end_tx tx f s = ground (arith, k, m, c) in
            (ap (λ x. x.1.db) same ∙ q, ground (arith, p, same, h))
      ]
    ]
  ]

  -- A transaction that began when the store was `s0`, and then wrote `ws` without an error from a
  -- store `s1` on, whose database may be another by then, reads its own last write to a key, and for
  -- a key it has not written what the database held when it began.
  pub tx_get-isolated :
      (tx : RocksDbTx) (ws : List (Bytes × Option Bytes))
      (s0 s1 s2 : RocksDbStore Db ReadDb Txn Snapshot) (j : Bytes)
      → s1.txs tx.id ≡ some (begin_stx lib tx.update_key s0.db)
      → tx_writes tx.id ws s1 ≡ (ok tt, s2)
      → tx_get lib tx.id j s2 ≡ ok (overlay (last ws j) (get_db lib s0.db j))
  unfolding tx_get
  tx_get-isolated tx ws s0 s1 s2 j begun h =
      let w = tx_writes-Written tx.id ws s1 s2 begun h in
      let (p, q) = begin_stx-shows lib tx.update_key s0.db j in
      let o = get_tx-overlay lib w.stx' j in ground (arith, w.there, w.pending j, w.base j, p, q, o)

  -- If such a transaction of an update key on a database that is not read-only then commits with no
  -- error, the database holds its last write to each key it has written, and for the other keys what
  -- it held before the writes.
  pub commit-writes :
      (tx : RocksDbTx) (ws : List (Bytes × Option Bytes))
      (s0 s1 s2 : RocksDbStore Db ReadDb Txn Snapshot) (key : Bytes) (d0 d1 : Db) (j : Bytes)
      → tx.update_key ≡ some key
      → s0.db ≡ transaction_db d0
      → s1.db ≡ transaction_db d1
      → s1.txs tx.id ≡ some (begin_stx lib tx.update_key s0.db)
      → tx_writes tx.id ws s1 ≡ (ok tt, s2)
      → (commit lib tx s2).0 ≡ ok tt
      → get_db lib (commit lib tx s2).1.db j ≡ overlay (last ws j) (get_db lib s1.db j)
  unfolding commit begin_stx
  commit-writes tx ws s0 s1 s2 key d0 d1 j k a b begun h done_ =
      let w = tx_writes-Written tx.id ws s1 s2 begun h in
      let (p, q) = begin_stx-shows lib tx.update_key s0.db j in
      let (same, fine) = finalize_tx-db tx s2 (commit_stx lib) w.there done_ in
      let back : writes_back lib w.stx' s2.db ≡ true = w.kind ∙ rw (k, a, b) refl in
      let g = commit_stx-get lib w.stx' s2.db j fine in
      rw same (ground (arith, g, back, w.pending j, p, w.contents j))

  -- A rollback with no error leaves the database as it was before the writes, whatever the kind of
  -- the transaction.
  pub rollback-leaves :
      (tx : RocksDbTx) (ws : List (Bytes × Option Bytes))
      (s0 s1 s2 : RocksDbStore Db ReadDb Txn Snapshot) (j : Bytes)
      → s1.txs tx.id ≡ some (begin_stx lib tx.update_key s0.db)
      → tx_writes tx.id ws s1 ≡ (ok tt, s2)
      → (rollback lib tx s2).0 ≡ ok tt
      → get_db lib (rollback lib tx s2).1.db j ≡ get_db lib s1.db j
  unfolding rollback
  rollback-leaves tx ws s0 s1 s2 j begun h done_ =
      let w = tx_writes-Written tx.id ws s1 s2 begun h in
      let (same, fine) = finalize_tx-db tx s2 (rollback_stx lib) w.there done_ in
      rw same (rollback_stx-get lib w.stx' s2.db j ∙ w.contents j)
