-- ===== src/Store/RocksDb/Locks.antt =====
-- The mutexes of update keys in modules/store/src/rocksdb.rs: what holds of the map of mutexes, their
-- reference counts and locks, and the handles that callers hold.
pub mod Changes
pub mod Operations
pub mod Exclusion
use lcp.Base.{
  ℕ, ◌+◌, ◌-◌, ◌<◌, ◌≤◌, ◌≡◌, ◌≢◌, ◌⊎◌, refl, sym, ap, ◌∙◌, inl, inr, Bool, Bool-cases, true, false,
  ◌&&◌, Option, none, some, List, [], ◌∷◌, ◌++◌, All, if◌then◌else◌, arith,
}
use lcp.Base.Equality.{◌==◌, ==_iff, ==_refl, ℕ_PartialEq}
use lcp.Base.Bytes.{Bytes, bytes_PartialEq}
use lcp.Base.Family.{update, update-same, update-other}
use lcp.Store.RocksDb.Store.{MutexId, RcMutex, RocksDbTx, new_update_tx, new_read_tx}

-- How many of the handles refer to a mutex, and how many hold its guard.
abbrev pub ref : MutexId → RocksDbTx → ℕ
ref m tx = elim tx.mutex [ none ↦ 0 | some n ↦ if n == m then 1 else 0 ]

abbrev pub guard : MutexId → RocksDbTx → ℕ
guard m tx = if tx.guarded then ref m tx else 0

abbrev pub refs : MutexId → List RocksDbTx → ℕ
refs m [] = 0
refs m (tx ∷ live) = ref m tx + refs m live

abbrev pub guards : MutexId → List RocksDbTx → ℕ
guards m [] = 0
guards m (tx ∷ live) = guard m tx + guards m live

pub refs-append : (m : MutexId) (xs ys : List RocksDbTx) → refs m (xs ++ ys) ≡ refs m xs + refs m ys
refs-append m [] ys = omega arith
refs-append m (x ∷ xs) ys = omega (arith, refs-append m xs ys)

pub guards-append :
    (m : MutexId) (xs ys : List RocksDbTx) → guards m (xs ++ ys) ≡ guards m xs + guards m ys
guards-append m [] ys = omega arith
guards-append m (x ∷ xs) ys = omega (arith, guards-append m xs ys)

-- A read handle has no key and no mutex; an update handle has the mutex that the map has for its key.
pub data Owned (mutex : Bytes → Option MutexId) (tx : RocksDbTx) : Type 0 where
  reads : tx.update_key ≡ none → tx.mutex ≡ none → Owned mutex tx
  updates :
      (key : Bytes) (m : MutexId)
      → tx.update_key ≡ some key
      → tx.mutex ≡ some m
      → mutex key ≡ some m
      → Owned mutex tx

pub record Inv (mutex : Bytes → Option MutexId) (heap : MutexId → RcMutex) (next : MutexId)
    (live : List RocksDbTx) : Type 0 where
  pub owned : All (Owned mutex) live
  pub counted :
      (key : Bytes) (m : MutexId) → mutex key ≡ some m → (heap m).strong_count ≡ 1 + refs m live
  pub locked :
      (key : Bytes) (m : MutexId)
      → mutex key ≡ some m
      → guards m live ≡ (if (heap m).locked then 1 else 0)
  pub injective : (j k : Bytes) (m : MutexId) → mutex j ≡ some m → mutex k ≡ some m → j ≡ k
  pub allocated : (key : Bytes) (m : MutexId) → mutex key ≡ some m → m < next

pub Inv-empty : (heap : MutexId → RcMutex) → Inv (λ key. none) heap 0 []
Inv-empty heap = record {
  owned = tt;
  counted = λ key m e. cc;
  locked = λ key m e. cc;
  injective = λ j k m e f. cc;
  allocated = λ key m e. cc;
}

-- A handle that is not mapped to a mutex does not refer to it.
refs-fresh :
    {mutex : Bytes → Option MutexId} (n : MutexId) (live : List RocksDbTx)
    → ((key : Bytes) → mutex key ≢ some n)
    → All (Owned mutex) live
    → (refs n live ≡ 0) × (guards n live ≡ 0)
refs-fresh n [] free owned = (refl, refl)
refs-fresh {mutex} n (tx ∷ live) free (reads a b, owned) =
    let (p, q) = refs-fresh n live free owned in (ground arith, ground arith)
refs-fresh {mutex} n (tx ∷ live) free (updates key m a b c, owned) =
    let (p, q) = refs-fresh n live free owned in
    let ne : m ≢ n = λ e. free key (c ∙ ap some e) in
    (ground (arith, ==_iff m n), ground (arith, ==_iff m n))

-- An entry of a map with one more entry, or with one less.
entry-insert :
    (mutex : Bytes → Option MutexId) (key k : Bytes) (n m : MutexId)
    → update mutex key (some n) k ≡ some m
    → ((key ≡ k) × (n ≡ m)) ⊎ ((key ≢ k) × (mutex k ≡ some m))
unfolding update
entry-insert mutex key k n m h = elim (Bool-cases (key == k)) [
  | inl e ↦ inl ((==_iff key k).0 e, ground arith)
  | inr e ↦ inr (λ q. ground (arith, ==_iff key k), ground arith)
]

pub entry-remove :
    (mutex : Bytes → Option MutexId) (key k : Bytes) (m : MutexId)
    → update mutex key none k ≡ some m
    → (key ≢ k) × (mutex k ≡ some m)
unfolding update
entry-remove mutex key k m h = elim (Bool-cases (key == k)) [
  | inl e ↦ absurd (ground arith)
  | inr e ↦ (λ q. ground (arith, ==_iff key k), ground arith)
]

Owned-insert :
    (mutex : Bytes → Option MutexId) (key : Bytes) (n : MutexId) (live : List RocksDbTx)
    → mutex key ≡ none
    → All (Owned mutex) live
    → All (Owned (update mutex key (some n))) live
Owned-insert mutex key n [] gone owned = tt
Owned-insert mutex key n (tx ∷ live) gone (reads a b, owned) =
    (reads a b, Owned-insert mutex key n live gone owned)
Owned-insert mutex key n (tx ∷ live) gone (updates k m a b c, owned) =
    let ne : key ≢ k = λ e. cc (gone, rw (← e) at c) in
    (
      updates k m a b (update-other mutex key (some n) k ne ∙ c),
      Owned-insert mutex key n live gone owned,
    )

module _ {mutex : Bytes → Option MutexId} {heap : MutexId → RcMutex} {next : MutexId}
    {live : List RocksDbTx} (inv : Inv mutex heap next live) where
  -- A new mutex for a key that has none.
  pub Inv-insert :
      (key : Bytes)
      → mutex key ≡ none
      → Inv
          (update mutex key (some next))
          (update heap next (record { strong_count = 1; locked = false }))
          (next + 1)
          live
  Inv-insert key gone = record {
    owned = Owned-insert mutex key next live gone inv.owned;
    counted = λ k m h. elim (entry-insert mutex key k next m h) [
      | inl (p, q) ↦ rw (← q, update-same heap next) (omega (arith, fresh.0))
      | inr (p, q) ↦
          rw (update-other heap next (record { strong_count = 1; locked = false }) m (apart k m q))
            (inv.counted k m q)
    ];
    locked = λ k m h. elim (entry-insert mutex key k next m h) [
      | inl (p, q) ↦ rw (← q, update-same heap next) (omega (arith, fresh.1))
      | inr (p, q) ↦
          rw (update-other heap next (record { strong_count = 1; locked = false }) m (apart k m q))
            (inv.locked k m q)
    ];
    injective = λ j k m g h. elim (entry-insert mutex key j next m g) [
      | inl (p, q) ↦ elim (entry-insert mutex key k next m h) [
        | inl (p', q') ↦ sym p ∙ p'
        | inr (p', q') ↦ absurd (apart k m q' q)
      ]
      | inr (p, q) ↦ elim (entry-insert mutex key k next m h) [
        | inl (p', q') ↦ absurd (apart j m q q')
        | inr (p', q') ↦ inv.injective j k m q q'
      ]
    ];
    allocated = λ k m h. elim (entry-insert mutex key k next m h) [
      | inl (p, q) ↦ omega (arith, q)
      | inr (p, q) ↦ omega (arith, inv.allocated k m q)
    ];
  }
    where
      apart : (k : Bytes) (m : MutexId) → mutex k ≡ some m → next ≢ m
      apart k m e f = omega (arith, inv.allocated k m e, f)

      fresh : (refs next live ≡ 0) × (guards next live ≡ 0)
      fresh = refs-fresh next live (λ k e. apart k next e refl) inv.owned

  -- One more handle on the mutex of a key.
  pub Inv-clone :
      (id : ℕ) (key : Bytes) (m : MutexId)
      → mutex key ≡ some m
      → Inv mutex
          (update heap m (record (heap m) { strong_count = (heap m).strong_count + 1 }))
          next
          (new_update_tx id key m ∷ live)
  unfolding update
  Inv-clone id key m e = record {
    owned = (updates key m refl refl e, inv.owned);
    counted = λ k n f. ground (arith, inv.counted k n f, ==_iff m n);
    locked = λ k n f. ground (arith, inv.locked k n f, ==_iff m n);
    injective = inv.injective;
    allocated = inv.allocated;
  }

  pub Inv-read : (id : ℕ) → Inv mutex heap next (new_read_tx id ∷ live)
  Inv-read id = record {
    owned = (reads refl refl, inv.owned);
    counted = λ k n f. ground (arith, inv.counted k n f);
    locked = λ k n f. ground (arith, inv.locked k n f);
    injective = inv.injective;
    allocated = inv.allocated;
  }
