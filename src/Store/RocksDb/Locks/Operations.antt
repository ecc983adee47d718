-- ===== src/Store/RocksDb/Locks/Operations.antt =====
-- Each operation on handles keeps the mutexes in order (modules/store/src/rocksdb.rs).
use lcp.Base.{
  ◌-◌, ◌≡◌, ◌≢◌, ◌⊎◌, refl, ◌∙◌, inl, inr, Bool-cases, Option-cases, Result-cases, true, false,
  Option, none, some, List, ◌∷◌, ◌++◌, Result, ok, err, panic, length, if◌then◌else◌, arith,
}
use lcp.Base.Equality.{◌==◌, ==_iff, ==_refl, ℕ_PartialEq}
use lcp.Base.Bytes.{Bytes, bytes_PartialEq}
use lcp.Base.Family.{update, update-same, update-other}
use lcp.Store.KvStore.{StoreError, TxId, safe_incr}
use lcp.Store.RocksDb.{InnerDb, InnerDb-cases, transaction_db, read_only_db, StoreTransaction}
use lcp.Store.RocksDb.Store.{
  MutexId, RocksDbTx, RocksDbStore, insert_mutex, create_update, create_numbered,
  create_transaction, clone_mutex, drop_mutex, drop_tx, release_key, end_tx, finalize_tx, prepare,
  new_read_tx, set_heap,
}
use lcp.Store.RocksDb.Locks.{reads, updates, Inv, Inv-insert, Inv-clone, Inv-read}
use lcp.Store.RocksDb.Locks.Changes.{Inv-lock, Inv-drop, Inv-forget, Inv-drop_read, Inv-Owned}

module _ {Db ReadDb Txn Snapshot : Type 0} where
  abbrev pub Valid : RocksDbStore Db ReadDb Txn Snapshot → List RocksDbTx → Type 0
  Valid s live = Inv s.mutex s.heap s.next_mutex live

  insert_mutex-Valid :
      (key : Bytes) (s : RocksDbStore Db ReadDb Txn Snapshot) (live : List RocksDbTx)
      → Valid s live
      → Valid (insert_mutex key s) live
        × ((m : MutexId) × ((insert_mutex key s).mutex key ≡ some m))
  unfolding insert_mutex
  insert_mutex-Valid key s live v = elim (Option-cases (s.mutex key)) [
    | inl e ↦
        rw (e, insert_mutex)
          (Inv-insert v key e, (s.next_mutex, update-same s.mutex key (some s.next_mutex)))
    | inr (m, e) ↦ rw (e, insert_mutex) (v, (m, e))
  ]

  -- A created handle is one more, and else the mutexes are in order as before.
  abbrev pub Creates :
      Result StoreError RocksDbTx × RocksDbStore Db ReadDb Txn Snapshot → List RocksDbTx → Type 0
  Creates (ok tx, s) live = Valid s (tx ∷ live)
  Creates (err e, s) live = Valid s live
  Creates (panic, s) live = Valid s live

  create_update-Creates :
      (id : TxId) (key : Bytes) (s : RocksDbStore Db ReadDb Txn Snapshot) (live : List RocksDbTx)
      → Valid s live
      → Creates (create_update id key s) live
  unfolding create_update clone_mutex
  create_update-Creates id key s live v = elim (Bool-cases (length key == 0)) [
    | inl e ↦ rw (e) v
    | inr e ↦
        let (v', (m, f)) = insert_mutex-Valid key s live v in rw (e, f) (Inv-clone v' id key m f)
  ]

  create_numbered-update :
      (id : TxId) (key : Bytes) (s : RocksDbStore Db ReadDb Txn Snapshot) {d : Db}
      → s.db ≡ transaction_db d
      → create_numbered id (some key) s ≡ create_update id key s
  unfolding create_numbered
  create_numbered-update id key s e = ground (arith, e)

  create_numbered-read :
      (id : TxId) (update_key : Option Bytes) (s : RocksDbStore Db ReadDb Txn Snapshot)
      → (update_key ≡ none) ⊎ ((d : ReadDb) × (s.db ≡ read_only_db d))
      → create_numbered id update_key s ≡ (ok (new_read_tx id), s)
  unfolding create_numbered
  create_numbered-read id update_key s (inl e) = elim (InnerDb-cases s.db) [
    | inl (d, f) ↦ ground (arith, e, f)
    | inr (d, f) ↦ ground (arith, e, f)
  ]
  create_numbered-read id update_key s (inr (d, e)) = ground (arith, e)

  create_numbered-Creates :
      (id : TxId) (update_key : Option Bytes) (s : RocksDbStore Db ReadDb Txn Snapshot)
      (live : List RocksDbTx)
      → Valid s live
      → Creates (create_numbered id update_key s) live
  create_numbered-Creates id none s live v =
      rw (create_numbered-read id none s (inl refl)) (Inv-read v id)
  create_numbered-Creates id (some key) s live v = elim (InnerDb-cases s.db) [
    | inl (d, e) ↦ rw (create_numbered-update id key s e) (create_update-Creates id key s live v)
    | inr (d, e) ↦ rw (create_numbered-read id (some key) s (inr (d, e))) (Inv-read v id)
  ]

  pub create_transaction-Creates :
      (update_key : Option Bytes) (s : RocksDbStore Db ReadDb Txn Snapshot) (live : List RocksDbTx)
      → Valid s live
      → Creates (create_transaction update_key s) live
  create_transaction-Creates update_key s live v = elim (Result-cases (safe_incr s.latest_tx_id)) [
    | inl (id, e) ↦
        let s1 = record s { latest_tx_id = id } in
        let q : create_transaction update_key s ≡ create_numbered id update_key s1 =
          unfold create_transaction in ground (arith, e) in
        rw q (create_numbered-Creates id update_key s1 live v)
    | inr (inl (x, e)) ↦
        let q : create_transaction update_key s ≡ (err x, s) =
          unfold create_transaction in ground (arith, e) in
        rw (q) v
    | inr (inr e) ↦
        let q : create_transaction update_key s ≡ (panic, s) =
          unfold create_transaction in ground (arith, e) in
        rw (q) v
  ]

  -- Locking: the guard is new, and it is the only one of the mutex.
  pub prepare-Valid :
      (xs ys : List RocksDbTx) (tx : RocksDbTx) (s : RocksDbStore Db ReadDb Txn Snapshot)
      {tx' : RocksDbTx} {s' : RocksDbStore Db ReadDb Txn Snapshot}
      → Valid s (xs ++ (tx ∷ ys))
      → prepare tx s ≡ some (tx', s')
      → Valid s' (xs ++ (tx' ∷ ys))
  unfolding prepare
  prepare-Valid xs ys tx s {tx'} {s'} v h = elim (Option-cases tx.mutex) [
    | inl e ↦
        let p : tx ≡ tx' = ground (arith, e, h) in
        let q : s ≡ s' = ground (arith, e, h) in rw (← p, ← q) v
    | inr (m, e) ↦ elim (Bool-cases (s.heap m).locked) [
      | inl f ↦ absurd (ground (arith, e, f, h))
      | inr f ↦
          let p : record tx { guarded = true } ≡ tx' = ground (arith, e, f, h) in
          let q : record s { heap = update s.heap m (record (s.heap m) { locked = true }) } ≡ s' =
            ground (arith, e, f, h) in
          rw (← p, ← q) (Inv-lock xs ys tx v m e f)
    ]
  ]

  -- What dropping a handle does to the heap, for any store with the same heap at other places.
  pub dropped :
      RocksDbTx
      → MutexId
      → RocksDbStore Db ReadDb Txn Snapshot
      → RocksDbStore Db ReadDb Txn Snapshot
  unfolding drop_mutex
  dropped tx m s =
      drop_mutex m (if tx.guarded then set_heap m (record (s.heap m) { locked = false }) s else s)

  drop_tx-dropped :
      (tx : RocksDbTx) (s : RocksDbStore Db ReadDb Txn Snapshot) (m : MutexId)
      → tx.mutex ≡ some m
      → drop_tx tx s ≡ dropped tx m s
  unfolding drop_tx dropped
  drop_tx-dropped tx s m e = ground (arith, e)

  -- Away from the mutex the heap is as before, and the map is.
  dropped-frame :
      (tx : RocksDbTx) (m : MutexId) (s : RocksDbStore Db ReadDb Txn Snapshot)
      → ((dropped tx m s).mutex ≡ s.mutex)
        × ((dropped tx m s).next_mutex ≡ s.next_mutex)
        × (((dropped tx m s).heap m).strong_count ≡ (s.heap m).strong_count - 1)
        × (((dropped tx m s).heap m).locked ≡ (if tx.guarded then false else (s.heap m).locked))
  unfolding dropped drop_mutex update
  dropped-frame tx m s = elim (Bool-cases tx.guarded) [
    | inl e ↦ rw e (
      ground (arith, ==_refl m),
      ground (arith, ==_refl m),
      ground (arith, ==_refl m),
      ground (arith, ==_refl m),
    )
    | inr e ↦ rw e (
      ground (arith, ==_refl m),
      ground (arith, ==_refl m),
      ground (arith, ==_refl m),
      ground (arith, ==_refl m),
    )
  ]

  dropped-others :
      (tx : RocksDbTx) (m n : MutexId) (s : RocksDbStore Db ReadDb Txn Snapshot)
      → m ≢ n
      → (dropped tx m s).heap n ≡ s.heap n
  unfolding dropped drop_mutex update
  dropped-others tx m n s ne = ground (arith, ==_iff m n)

  pub drop_tx-Valid :
      (xs ys : List RocksDbTx) (tx : RocksDbTx) (s : RocksDbStore Db ReadDb Txn Snapshot)
      → Valid s (xs ++ (tx ∷ ys))
      → Valid (drop_tx tx s) (xs ++ ys)
  drop_tx-Valid xs ys tx s v = elim (Option-cases tx.mutex) [
    | inl e ↦
        let q : drop_tx tx s ≡ s = unfold drop_tx in ground (arith, e) in
        rw q (Inv-drop_read xs ys tx v e)
    | inr (m, e) ↦
        let (p, q, c, l) = dropped-frame tx m s in
        rw (drop_tx-dropped tx s m e, p, q)
          (Inv-drop xs ys tx v m e (dropped tx m s).heap (λ n ne. dropped-others tx m n s ne) c l)
  ]

  -- A transaction that has begun ends with its handle, by whatever its end does to the database.
  pub finalize_tx-Valid :
      (xs ys : List RocksDbTx) (tx : RocksDbTx) (s : RocksDbStore Db ReadDb Txn Snapshot)
      (f : StoreTransaction Txn Snapshot
        → InnerDb Db ReadDb
        → Result StoreError (Unit {0}) × InnerDb Db ReadDb)
      {stx : StoreTransaction Txn Snapshot}
      → Valid s (xs ++ (tx ∷ ys))
      → s.txs tx.id ≡ some stx
      → Valid (finalize_tx tx f s).1 (xs ++ ys)
  unfolding drop_mutex
  finalize_tx-Valid xs ys tx s f {stx} v begun =
      let ended : RocksDbStore Db ReadDb Txn Snapshot = record s {
        txs = update s.txs tx.id none;
        db = (f stx s.db).1;
      } in
      elim (Inv-Owned xs ys tx v) [
        | reads a b ↦
            let q : (finalize_tx tx f s).1 ≡ drop_tx tx ended =
              unfold finalize_tx end_tx in ground (arith, a, begun) in
            rw q (drop_tx-Valid xs ys tx ended v)
        | updates key m a b c ↦ elim (Bool-cases ((s.heap m).strong_count == 2)) [
          | inr e ↦
              let q : (finalize_tx tx f s).1 ≡ drop_tx tx ended =
                unfold finalize_tx end_tx release_key in ground (arith, a, begun, c, e) in
              rw q (drop_tx-Valid xs ys tx ended v)
          | inl e ↦
              let freed = drop_mutex m (record s { mutex = update s.mutex key none }) in
              let ended' : RocksDbStore Db ReadDb Txn Snapshot = record freed {
                txs = update s.txs tx.id none;
                db = (f stx s.db).1;
              } in
              let q : (finalize_tx tx f s).1 ≡ drop_tx tx ended' =
                unfold finalize_tx end_tx release_key in ground (arith, a, begun, c, e) in
              let (p, p', count, lock) = dropped-frame tx m ended' in
              rw (q, drop_tx-dropped tx ended' m b, p, p')
                (Inv-forget xs ys tx v m b (dropped tx m ended').heap
                  (λ n ne. dropped-others tx m n ended' ne ∙ update-other s.heap m _ n ne) key c
                  ((==_iff (s.heap m).strong_count 2).0 e))
        ]
      ]
