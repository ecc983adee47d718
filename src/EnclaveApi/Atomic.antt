-- ===== src/EnclaveApi/Atomic.antt =====
-- A command of the host takes effect as a whole or not at all (modules/enclave-api/src/enclave.rs and
-- api/primitive.rs).
use lcp.Base.{
  ℕ, ◌≡◌, ap, ◌∙◌, sym, inl, inr, Bool-cases, Option, some, Option-cases, List, Result,
  Result-cases, ok, err, panic, length, arith,
}
use lcp.Base.Equality.{◌==◌, ℕ_PartialEq}
use lcp.Base.Bytes.{Bytes}
use lcp.Base.Family.{update-same}
use lcp.Commands.{CommandContext}
use lcp.Store.KvStore.{safe_incr}
use lcp.Store.Memory.{overlay}
use lcp.Store.Database.{RocksDb}
use lcp.Store.RocksDb.{transaction_db, get_db, begin_stx}
use lcp.Store.RocksDb.Store.{
  RocksDbTx, RocksDbStore, create_update, create_numbered, create_transaction, insert_mutex,
  clone_mutex, prepare, begin,
}
use lcp.Store.RocksDb.Contents.Session.{
  tx_writes, last, drop_tx-db, tx_writes-contents, commit-writes, rollback-leaves,
}
use lcp.EnclaveApi.{
  ApiError, Libs, raw_execute_command, command_context, begin_tx, settle, run_in, execute_command,
}

pair-eq : {A B : Type 0} {p : A × B} {a : A} → p.0 ≡ a → p ≡ (a, p.1)
pair-eq {p = p} e = ap (λ x. (x, p.1)) e

module _ {Db ReadDb Txn Snapshot : Type 0} where
  insert_mutex-db :
      (key : Bytes) (s : RocksDbStore Db ReadDb Txn Snapshot) → (insert_mutex key s).db ≡ s.db
  unfolding insert_mutex
  insert_mutex-db key s = elim (Option-cases (s.mutex key)) [
    | inl e ↦ ground arith
    | inr (m, e) ↦ ground arith
  ]

  -- A created transaction of an update key names it, and the database is as before.
  create_update-ok :
      (id : ℕ) (key : Bytes) (s : RocksDbStore Db ReadDb Txn Snapshot) {tx : RocksDbTx}
      {s' : RocksDbStore Db ReadDb Txn Snapshot}
      → create_update id key s ≡ (ok tx, s')
      → (tx.update_key ≡ some key) × (s'.db ≡ s.db)
  unfolding create_update clone_mutex
  create_update-ok id key s {tx} {s'} h = elim (Bool-cases (length key == 0)) [
    | inl e ↦ absurd (ground arith)
    | inr e ↦ elim (Option-cases ((insert_mutex key s).mutex key)) [
      | inl f ↦ absurd (ground arith)
      | inr (m, f) ↦ let d = insert_mutex-db key s in (ground arith, ground arith)
    ]
  ]

  create_transaction-ok :
      (key : Bytes) (s : RocksDbStore Db ReadDb Txn Snapshot) {d : Db} {tx : RocksDbTx}
      {s' : RocksDbStore Db ReadDb Txn Snapshot}
      → s.db ≡ transaction_db d
      → create_transaction (some key) s ≡ (ok tx, s')
      → (tx.update_key ≡ some key) × (s'.db ≡ s.db)
  unfolding create_transaction create_numbered
  create_transaction-ok key s {d} {tx} {s'} e h = elim (Result-cases (safe_incr s.latest_tx_id)) [
    | inl (id, f) ↦
        let s1 : RocksDbStore Db ReadDb Txn Snapshot = record s { latest_tx_id = id } in
        let q : create_transaction (some key) s ≡ create_update id key s1 = ground (arith, e, f) in
        create_update-ok id key s1 (sym q ∙ h)
    | inr (inl (x, f)) ↦ absurd (ground arith)
    | inr (inr f) ↦ absurd (ground arith)
  ]

  prepare-ok :
      (tx : RocksDbTx) (s : RocksDbStore Db ReadDb Txn Snapshot) {tx' : RocksDbTx}
      {s' : RocksDbStore Db ReadDb Txn Snapshot}
      → prepare tx s ≡ some (tx', s')
      → (tx'.update_key ≡ tx.update_key) × (s'.db ≡ s.db)
  unfolding prepare
  prepare-ok tx s {tx'} {s'} h = elim (Option-cases tx.mutex) [
    | inl e ↦ (ground arith, ground arith)
    | inr (m, e) ↦ elim (Bool-cases (s.heap m).locked) [
      | inl l ↦ absurd (ground arith)
      | inr l ↦ (ground arith, ground arith)
    ]
  ]

module _ {Db ReadDb Txn Snapshot : Type 0} (lib : RocksDb Db ReadDb Txn Snapshot) where
  -- A transaction that has begun for an update key shows the database as it is.
  begin_tx-ok :
      {X : Type 0} (key : Bytes) (s : RocksDbStore Db ReadDb Txn Snapshot) (d : Db) {tx : RocksDbTx}
      {s' : RocksDbStore Db ReadDb Txn Snapshot}
      → s.db ≡ transaction_db d
      → begin_tx lib {X = X} (some key) s ≡ some (ok tx, s')
      → (tx.update_key ≡ some key)
        × (s'.db ≡ transaction_db d)
        × (s'.txs tx.id ≡ some (begin_stx lib tx.update_key s'.db))
  unfolding begin_tx begin
  begin_tx-ok {X} key s d {tx} {s'} e h = elim (Result-cases (create_transaction (some key) s).0) [
    | inl (tx0, f) ↦
        let s1 : RocksDbStore Db ReadDb Txn Snapshot = (create_transaction (some key) s).1 in
        let (k, b) = create_transaction-ok key s e (pair-eq f) in
        elim (Option-cases (prepare tx0 s1)) [
          | inl p ↦ absurd (ground arith)
          | inr ((tx1, s2), p) ↦
              let (k', b') = prepare-ok tx0 s1 p in
              let q : begin_tx lib {X = X} (some key) s ≡ some (ok tx1, begin lib tx1 s2) =
                ground (arith, f, p) in
              let t : tx1 ≡ tx = ground (arith, q, h) in
              let u : begin lib tx1 s2 ≡ s' = ground (arith, q, h) in
              rw (← t, ← u)
                (
                  k' ∙ k,
                  b' ∙ b ∙ e,
                  update-same s2.txs tx1.id (some (begin_stx lib tx1.update_key s2.db)),
                )
        ]
    | inr f ↦ absurd (ground arith)
  ]

  -- What the database holds under a key in the end: the last write to it after a response, and what
  -- it held before after an error or a panic.
  abbrev pub settled :
      {E R : Type 0} → Result E R → Option (Option Bytes) → Option Bytes → Option Bytes
  settled (ok res) p v = overlay p v
  settled (err e) p v = v
  settled panic p v = v

  settle-db :
      {E R : Type 0} (r : Result E R) (tx : RocksDbTx) (s1 s2 : RocksDbStore Db ReadDb Txn Snapshot)
      (key : Bytes) (d : Db) (ws : List (Bytes × Option Bytes)) (j : Bytes)
      → tx.update_key ≡ some key
      → s1.db ≡ transaction_db d
      → s1.txs tx.id ≡ some (begin_stx lib tx.update_key s1.db)
      → tx_writes lib tx.id ws s1 ≡ (ok tt, s2)
      → (settle lib tx r s2).0 ≡ ok tt
      → get_db lib (settle lib tx r s2).1.db j ≡ settled r (last ws j) (get_db lib s1.db j)
  unfolding settle
  settle-db (ok res) tx s1 s2 key d ws j k b begun wrote ended =
      commit-writes lib tx ws s1 s1 s2 key d d j k b b begun wrote ended
  settle-db (err e) tx s1 s2 key d ws j k b begun wrote ended =
      rollback-leaves lib tx ws s1 s1 s2 j begun wrote ended
  settle-db panic tx s1 s2 key d ws j k b begun wrote ended =
      ap (λ db. get_db lib db j) (drop_tx-db lib tx s2)
      ∙ tx_writes-contents lib tx.id ws s1 s2 begun wrote j

  module _ {T SK X Command Response : Type 0}
      (env : Libs T SK X Command Response (RocksDbStore Db ReadDb Txn Snapshot)) where
    -- Let a transaction of an update key have begun, on a database that is not read-only, the key of
    -- the command be there, and the enclave write `ws` in that transaction, without an error of the
    -- store, and answer `r`, and let the end of the transaction raise no error. Then the command
    -- gives `r`, and the database holds the last write to each key if `r` is a response, and
    -- otherwise what it held before.
    pub execute_command-atomic :
        (cmd : Command) (key : Bytes) (s s1 s2 : RocksDbStore Db ReadDb Txn Snapshot) (d : Db)
        (tx : RocksDbTx) (cctx : CommandContext T SK) (ws : List (Bytes × Option Bytes))
        (r : Result (ApiError X) Response) (j : Bytes)
        → s.db ≡ transaction_db d
        → begin_tx lib {X = X} (some key) s ≡ some (ok tx, s1)
        → command_context env tx cmd ≡ ok cctx
        → raw_execute_command env cctx cmd s1 ≡ (r, s2)
        → tx_writes lib tx.id ws s1 ≡ (ok tt, s2)
        → (settle lib tx r s2).0 ≡ ok tt
        → (s' : RocksDbStore Db ReadDb Txn Snapshot) × (execute_command lib env cmd (some key) s
            ≡ some (r, s'))
          × (get_db lib s'.db j ≡ settled r (last ws j) (get_db lib s.db j))
    unfolding execute_command run_in
    execute_command-atomic cmd key s s1 s2 d tx cctx ws r j e started context ran wrote ended =
        let (k, b, begun) = begin_tx-ok key s d e started in
        let same : s1.db ≡ s.db = b ∙ sym e in
        (
          (settle lib tx r s2).1,
          ground (arith, started, context, ran, ended),
          rw (← same) (settle-db r tx s1 s2 key d ws j k b begun wrote ended),
        )
