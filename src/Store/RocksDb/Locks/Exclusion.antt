-- ===== src/Store/RocksDb/Locks/Exclusion.antt =====
-- Callers that create, prepare, use, end and drop transactions in any order, and that at most one of
-- an update key is prepared at a time (modules/store/src/rocksdb.rs).
use lcp.Base.{
  ◌≤◌, ◌≡◌, append_assoc, inl, inr, Bool-cases, true, false, Option, some, Option-cases, List, [],
  ◌∷◌, ◌++◌, Result-cases, ok, err, arith,
}
use lcp.Base.Equality.{==_refl, ℕ_PartialEq}
use lcp.Base.Bytes.{Bytes}
use lcp.Store.KvStore.{StoreError, TxId}
use lcp.Store.Database.{RocksDb}
use lcp.Store.RocksDb.{InnerDb, StoreTransaction, write_tx, commit_stx, rollback_stx}
use lcp.Store.RocksDb.Store.{
  RocksDbTx, RocksDbStore, empty_store, create_transaction, drop_tx, prepare, begin, tx_write,
  commit, rollback,
}
use lcp.Store.RocksDb.Locks.{guard, guards, guards-append, reads, updates, Inv-empty}
use lcp.Store.RocksDb.Locks.Changes.{Inv-Owned}
use lcp.Store.RocksDb.Locks.Operations.{
  Valid, create_transaction-Creates, prepare-Valid, drop_tx-Valid, finalize_tx-Valid,
}

-- A store with the handles that its callers hold.
pub record System (Db ReadDb Txn Snapshot : Type 0) : Type 0 where
  pub store : RocksDbStore Db ReadDb Txn Snapshot
  pub live : List RocksDbTx

module _ {Db ReadDb Txn Snapshot : Type 0} (lib : RocksDb Db ReadDb Txn Snapshot) where
  -- `prepare` is a step once the mutex is free. A transaction is ended only after it has begun.
  pub data Step (s : System Db ReadDb Txn Snapshot) : System Db ReadDb Txn Snapshot → Type 0 where
    creates :
        (key : Option Bytes) {tx : RocksDbTx} {st : RocksDbStore Db ReadDb Txn Snapshot}
        → create_transaction key s.store ≡ (ok tx, st)
        → Step s (record { store = st; live = tx ∷ s.live })
    refuses :
        (key : Option Bytes) {e : StoreError} {st : RocksDbStore Db ReadDb Txn Snapshot}
        → create_transaction key s.store ≡ (err e, st)
        → Step s (record { store = st; live = s.live })
    prepares :
        (xs ys : List RocksDbTx) (tx : RocksDbTx) {tx' : RocksDbTx}
        {st : RocksDbStore Db ReadDb Txn Snapshot}
        → s.live ≡ xs ++ (tx ∷ ys)
        → prepare tx s.store ≡ some (tx', st)
        → Step s (record { store = st; live = xs ++ (tx' ∷ ys) })
    begins : (tx : RocksDbTx) → Step s (record s { store = begin lib tx s.store })
    writes :
        (id : TxId) (key : Bytes) (value : Option Bytes)
        → Step s (record s { store = (tx_write lib id key value s.store).1 })
    commits :
        (xs ys : List RocksDbTx) (tx : RocksDbTx) {stx : StoreTransaction Txn Snapshot}
        → s.live ≡ xs ++ (tx ∷ ys)
        → s.store.txs tx.id ≡ some stx
        → Step s (record { store = (commit lib tx s.store).1; live = xs ++ ys })
    rolls_back :
        (xs ys : List RocksDbTx) (tx : RocksDbTx) {stx : StoreTransaction Txn Snapshot}
        → s.live ≡ xs ++ (tx ∷ ys)
        → s.store.txs tx.id ≡ some stx
        → Step s (record { store = (rollback lib tx s.store).1; live = xs ++ ys })
    drops :
        (xs ys : List RocksDbTx) (tx : RocksDbTx)
        → s.live ≡ xs ++ (tx ∷ ys)
        → Step s (record { store = drop_tx tx s.store; live = xs ++ ys })

  pub data Reach (db : InnerDb Db ReadDb) : System Db ReadDb Txn Snapshot → Type 0 where
    start : Reach db (record { store = empty_store db; live = [] })
    later : {s t : System Db ReadDb Txn Snapshot} → Reach db s → Step s t → Reach db t

  -- A write in a transaction leaves the mutexes.
  tx_write-frame :
      (id : TxId) (key : Bytes) (value : Option Bytes) (s : RocksDbStore Db ReadDb Txn Snapshot)
      → let s' = (tx_write lib id key value s).1 in
        (s'.mutex ≡ s.mutex) × (s'.heap ≡ s.heap) × (s'.next_mutex ≡ s.next_mutex)
  unfolding tx_write
  tx_write-frame id key value s = elim (Option-cases (s.txs id)) [
    | inl e ↦ (ground arith, ground arith, ground arith)
    | inr (stx, e) ↦ elim (Result-cases (write_tx lib key value stx s.db)) [
      | inl (r, f) ↦ (ground arith, ground arith, ground arith)
      | inr (inl (x, f)) ↦ (ground arith, ground arith, ground arith)
      | inr (inr f) ↦ (ground arith, ground arith, ground arith)
    ]
  ]

  pub Step-Valid :
      {s t : System Db ReadDb Txn Snapshot} → Step s t → Valid s.store s.live → Valid t.store t.live
  unfolding begin commit rollback
  Step-Valid {s} (creates key h) v = rw h at (create_transaction-Creates key s.store s.live v)
  Step-Valid {s} (refuses key h) v = rw h at (create_transaction-Creates key s.store s.live v)
  Step-Valid {s} (prepares xs ys tx e h) v = prepare-Valid xs ys tx s.store (rw e at v) h
  Step-Valid (begins tx) v = v
  Step-Valid {s} (writes id key value) v =
      let (p, q, r) = tx_write-frame id key value s.store in rw (p, q, r) v
  Step-Valid {s} (commits xs ys tx e b) v =
      finalize_tx-Valid xs ys tx s.store (commit_stx lib) (rw e at v) b
  Step-Valid {s} (rolls_back xs ys tx e b) v =
      finalize_tx-Valid xs ys tx s.store (rollback_stx lib) (rw e at v) b
  Step-Valid {s} (drops xs ys tx e) v = drop_tx-Valid xs ys tx s.store (rw e at v)

  pub Reach-Valid :
      {db : InnerDb Db ReadDb} {s : System Db ReadDb Txn Snapshot}
      → Reach db s
      → Valid s.store s.live
  Reach-Valid start = Inv-empty _
  Reach-Valid (later r st) = Step-Valid st (Reach-Valid r)

  -- In every state that callers can reach from a fresh store over any database, of two different
  -- handles with the same update key at most one is prepared: while one holds the guard, no other
  -- does, although the entries of the map of mutexes come and go.
  pub exclusive :
      {db : InnerDb Db ReadDb} {s : System Db ReadDb Txn Snapshot} (xs ys zs : List RocksDbTx)
      (t u : RocksDbTx) (key : Bytes)
      → Reach db s
      → s.live ≡ xs ++ (t ∷ (ys ++ (u ∷ zs)))
      → t.update_key ≡ some key
      → u.update_key ≡ some key
      → t.guarded ≡ true
      → u.guarded ≡ false
  exclusive {s} xs ys zs t u key r e kt ku g =
      let v = rw e at (Reach-Valid r) in
      let w = rw (← append_assoc xs (t ∷ ys) (u ∷ zs)) at v in
      elim (Inv-Owned xs (ys ++ (u ∷ zs)) t v) [
        | reads a b ↦ absurd (ground (arith, a, kt))
        | updates k m a b c ↦ elim (Inv-Owned (xs ++ (t ∷ ys)) zs u w) [
          | reads a' b' ↦ absurd (ground (arith, a', ku))
          | updates k' m' a' b' c' ↦ elim (Bool-cases u.guarded) [
            | inr f ↦ f
            | inl f ↦
                let same_key : k' ≡ k = ground (arith, a, kt, a', ku) in
                let same : m' ≡ m = ground (arith, c, rw same_key at c') in
                let one : guard m t ≡ 1 = ground (arith, g, b, ==_refl m) in
                let two : guard m u ≡ 1 = ground (arith, f, b', same, ==_refl m) in
                let most : guards m (xs ++ (t ∷ (ys ++ (u ∷ zs)))) ≤ 1 =
                  ground (arith, v.locked k m c) in
                absurd (
                  omega (
                    arith,
                    most,
                    guards-append m xs (t ∷ (ys ++ (u ∷ zs))),
                    guards-append m ys (u ∷ zs),
                    one,
                    two,
                  ))
          ]
        ]
      ]
