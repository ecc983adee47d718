-- ===== src/Examples/Rocks.antt =====
-- A concrete database, as functions of keys, and transactions over it.
use lcp.Base.{
  ◌≡◌, refl, sym, ap, true, false, Option, none, some, List, [], ◌∷◌, ok, if◌then◌else◌, arith,
}
use lcp.Base.Equality
use lcp.Base.Equality.{◌==◌}
use lcp.Base.Bytes.{Bytes, codes, bytes_PartialEq}
use lcp.Base.Family
use lcp.Store.KvStore
use lcp.Store.Memory.{overlay}
use lcp.Store.Database.{RocksDb}
use lcp.Store.RocksDb
use lcp.Store.RocksDb.{InnerDb, transaction_db, get_db}
use lcp.Store.RocksDb.Store
use lcp.Store.RocksDb.Store.{
  RocksDbTx, RocksDbStore, empty_store, new_update_tx, create_transaction, prepare, begin, tx_get,
  commit,
}
use lcp.Store.RocksDb.Locks.Exclusion.{System, Reach, start, later, creates, prepares, exclusive}
use lcp.Store.RocksDb.Contents.Session.{tx_writes, last, tx_get-isolated, commit-writes}

abbrev pub Contents : Type 0
Contents = Bytes → Option Bytes

pub record Txn : Type 0 where
  pub base : Contents
  pub pending : Bytes → Option (Option Bytes)

abbrev pub written : Txn → Bytes → Option Bytes → Txn
written t k v = record t { pending = Family.update t.pending k (some v) }

pub first_of :
    {A B : Type 0} {a a' : A} {b b' : B}
    → ◌≡◌ {A = Option (A × B)} (some (a, b)) (some (a', b'))
    → (a ≡ a') × (b ≡ b')
first_of h = (ground arith, ground arith)

pub pending_law :
    (t t' : Txn) (k : Bytes) (v : Option Bytes) (d d' : Contents) (j : Bytes)
    → ◌≡◌ {A = Option (Txn × Contents)} (some (written t k v, d)) (some (t', d'))
    → t'.pending j ≡ (if k == j then some v else t.pending j)
unfolding Family.update
pending_law t t' k v d d' j h = rw (← (first_of h).0) refl

pub rolled_back :
    {d d' : Contents} (k : Bytes) → ◌≡◌ {A = Option Contents} (some d) (some d') → d' k ≡ d k
rolled_back k h = ground arith

abbrev pub database : RocksDb Contents Contents Txn Contents
database = record {
  get = λ d k. d k;
  write = λ d k v. some (Family.update d k v);
  snapshot = λ d. d;
  get_ro = λ d k. d k;
  write_ro = λ d k v. none;
  snapshot_ro = λ d. d;
  get_snapshot = λ d k. d k;
  transaction = λ d. record { base = d; pending = λ k. none };
  get_txn = λ t k. overlay (t.pending k) (t.base k);
  write_txn = λ t k v d. some (written t k v, d);
  commit_txn = λ t d. (ok tt, λ k. overlay (t.pending k) (d k));
  rollback_txn = λ t d. some d;
  get_snapshot-snapshot = λ d k. refl;
  get_snapshot-snapshot_ro = λ d k. refl;
  pending = λ t k. t.pending k;
  base = λ t k. t.base k;
  pending-transaction = λ d k. refl;
  base-transaction = λ d k. refl;
  get_txn-eq = λ t k. refl;
  write_txn-pending = pending_law;
  write_txn-base = λ t t' k v d d' j h. sym (ap (λ x. x.base j) (first_of h).0);
  write_txn-get = λ t t' k v d d' j h. sym (ap (λ x. x j) (first_of h).1);
  commit_txn-get = λ t d k h. refl;
  rollback_txn-get = λ t d d' k h. rolled_back k h;
}

abbrev pub Rocks : Type 0
Rocks = RocksDbStore Contents Contents Txn Contents

-- The database holds 1 under every key.
abbrev pub fresh : Rocks
fresh = empty_store (transaction_db (λ k. some (1 ∷ [])))

abbrev pub key : Bytes
key = codes "client"

abbrev first_tx : RocksDbTx
first_tx = new_update_tx 1 key 0

abbrev second_tx : RocksDbTx
second_tx = new_update_tx 2 key 0

abbrev one : Rocks
one = (create_transaction (some key) fresh).1

abbrev two : Rocks
two = (create_transaction (some key) one).1

abbrev guarded_tx : RocksDbTx
guarded_tx = record second_tx { guarded = true }

abbrev locked : Rocks
locked = elim (prepare second_tx two) [ none ↦ two | some (tx, s) ↦ s ]

abbrev System1 : Type 0
System1 = System Contents Contents Txn Contents

abbrev reached : System1
reached = record { store = locked; live = guarded_tx ∷ first_tx ∷ [] }

created :
    (create_transaction (some key) fresh ≡ (ok first_tx, one))
    × (create_transaction (some key) one ≡ (ok second_tx, two))
    × (prepare second_tx two ≡ some (guarded_tx, locked))
unfolding create_transaction Store.create_numbered Store.create_update Store.insert_mutex
    Store.clone_mutex prepare KvStore.safe_incr Family.update Equality.list_eq
created = (refl, refl, refl)

reached-Reach : Reach database (transaction_db (λ k. some (1 ∷ []))) reached
reached-Reach =
    later (later (later start (creates (some key) created.0)) (creates (some key) created.1))
      (prepares [] (first_tx ∷ []) second_tx refl created.2)

exclusive_example : first_tx.guarded ≡ false
exclusive_example =
    exclusive database [] [] [] guarded_tx first_tx key reached-Reach refl refl refl refl

abbrev begun : Rocks
begun = begin database guarded_tx locked

abbrev pub ws : List (Bytes × Option Bytes)
ws = (codes "a", some (2 ∷ [])) ∷ (codes "b", none) ∷ []

abbrev after : Rocks
after = (tx_writes database 2 ws begun).1

runs :
    (begun.txs 2 ≡ some (RocksDb.begin_stx database (some key) locked.db))
    × (tx_writes database 2 ws begun ≡ (ok tt, after))
    × (locked.db ≡ transaction_db (λ k. some (1 ∷ [])))
    × (begun.db ≡ transaction_db (λ k. some (1 ∷ [])))
    × ((commit database guarded_tx after).0 ≡ ok tt)
unfolding create_transaction Store.create_numbered Store.create_update Store.insert_mutex
    Store.clone_mutex prepare KvStore.safe_incr Family.update Equality.list_eq begin
    RocksDb.begin_stx Store.tx_write RocksDb.write_tx commit Store.finalize_tx Store.end_tx
    Store.release_key Store.drop_tx Store.drop_mutex RocksDb.commit_stx
runs = (refl, refl, refl, refl, refl)

tx_get-isolated_example :
    tx_get database 2 (codes "b") after
    ≡ ok (overlay (last ws (codes "b")) (get_db database locked.db (codes "b")))
tx_get-isolated_example =
    tx_get-isolated database guarded_tx ws locked begun after (codes "b") runs.0 runs.1

commit-writes_example :
    get_db database (commit database guarded_tx after).1.db (codes "a")
    ≡ overlay (last ws (codes "a")) (get_db database begun.db (codes "a"))
commit-writes_example =
    commit-writes database guarded_tx ws locked begun after key (λ k. some (1 ∷ []))
      (λ k. some (1 ∷ [])) (codes "a") refl runs.2 runs.3 runs.0 runs.1 runs.4
