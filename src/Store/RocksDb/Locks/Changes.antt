-- ===== src/Store/RocksDb/Locks/Changes.antt =====
-- Locking a mutex and dropping a handle keep the order of the mutexes
-- (modules/store/src/rocksdb.rs).
use lcp.Base.{
  ◌-◌, ◌≡◌, ◌≢◌, ap, ◌∙◌, true, false, Option, none, some, List, [], ◌∷◌, ◌++◌, All, All-append,
  if◌then◌else◌, arith,
}
use lcp.Base.Equality.{==_iff, ℕ_PartialEq}
use lcp.Base.Bytes.{Bytes, bytes_PartialEq}
use lcp.Base.Family.{update, update-other}
use lcp.Store.RocksDb.Store.{MutexId, RcMutex, RocksDbTx}
use lcp.Store.RocksDb.Locks.{
  ref, refs, refs-append, guards-append, Owned, reads, updates, Inv, entry-remove,
}

All-middle {ℓ} :
    {A : Type 0} (P : A → Type ℓ) (xs : List A) (y : A) (ys : List A)
    → All P (xs ++ (y ∷ ys))
    → All P xs × P y × All P ys
All-middle P [] y ys h = (tt, h.0, h.1)
All-middle P (x ∷ xs) y ys (p, h) = let (a, b, c) = All-middle P xs y ys h in ((p, a), b, c)

Owned-remove :
    (mutex : Bytes → Option MutexId) (key : Bytes) (m : MutexId) (live : List RocksDbTx)
    → mutex key ≡ some m
    → refs m live ≡ 0
    → All (Owned mutex) live
    → All (Owned (update mutex key none)) live
Owned-remove mutex key m [] e r owned = tt
Owned-remove mutex key m (tx ∷ live) e r (reads a b, owned) =
    (reads a b, Owned-remove mutex key m live e (omega arith) owned)
Owned-remove mutex key m (tx ∷ live) e r (updates k n a b c, owned) =
    let apart : n ≢ m =
      λ q. let one : ref m tx ≡ 1 = ground (arith, ==_iff n m) in omega (arith, r, one) in
    let ne : key ≢ k = λ q. let same = rw (← q) at c in apart (ground (arith, same, e)) in
    (
      updates k n a b (update-other mutex key none k ne ∙ c),
      Owned-remove mutex key m live e (omega arith) owned,
    )

-- A read handle is dropped.
pub Inv-drop_read :
    {mutex : Bytes → Option MutexId} {heap : MutexId → RcMutex} {next : MutexId}
    (xs ys : List RocksDbTx) (tx : RocksDbTx)
    → Inv mutex heap next (xs ++ (tx ∷ ys))
    → tx.mutex ≡ none
    → Inv mutex heap next (xs ++ ys)
Inv-drop_read {mutex} xs ys tx inv off =
    let (ox, o, oy) = All-middle (Owned mutex) xs tx ys inv.owned in
    record {
      owned = All-append (Owned mutex) xs ys ox oy;
      counted = λ k n f.
          ground (arith, inv.counted k n f, refs-append n xs (tx ∷ ys), refs-append n xs ys);
      locked = λ k n f.
          ground (arith, inv.locked k n f, guards-append n xs (tx ∷ ys), guards-append n xs ys);
      injective = inv.injective;
      allocated = inv.allocated;
    }

-- A handle in the list is in order.
pub Inv-Owned :
    {mutex : Bytes → Option MutexId} {heap : MutexId → RcMutex} {next : MutexId}
    (xs ys : List RocksDbTx) (tx : RocksDbTx)
    → Inv mutex heap next (xs ++ (tx ∷ ys))
    → Owned mutex tx
Inv-Owned {mutex} xs ys tx inv = (All-middle (Owned mutex) xs tx ys inv.owned).1

module _ {mutex : Bytes → Option MutexId} {heap : MutexId → RcMutex} {next : MutexId}
    (xs ys : List RocksDbTx) (tx : RocksDbTx) (inv : Inv mutex heap next (xs ++ (tx ∷ ys)))
    (m : MutexId) (on : tx.mutex ≡ some m) where
  pub Inv-lock :
      (heap m).locked ≡ false
      → Inv mutex
          (update heap m (record (heap m) { locked = true }))
          next
          (xs ++ (record tx { guarded = true } ∷ ys))
  unfolding update
  Inv-lock free =
      let (ox, o, oy) = All-middle (Owned mutex) xs tx ys inv.owned in
      let tx' : RocksDbTx = record tx { guarded = true } in
      record {
        owned =
            All-append (Owned mutex) xs (tx' ∷ ys) ox
              (elim o [ reads a b ↦ reads a b | updates k n a b c ↦ updates k n a b c ], oy);
        counted = λ k n f. ground (
          arith,
          inv.counted k n f,
          refs-append n xs (tx ∷ ys),
          refs-append n xs (tx' ∷ ys),
          ==_iff m n,
        );
        locked = λ k n f. ground (
          arith,
          inv.locked k n f,
          guards-append n xs (tx ∷ ys),
          guards-append n xs (tx' ∷ ys),
          ==_iff m n,
        );
        injective = inv.injective;
        allocated = inv.allocated;
      }

  module _ (heap' : MutexId → RcMutex) (others : (n : MutexId) → m ≢ n → heap' n ≡ heap n) where
    -- A handle is dropped, with its guard if it has one.
    pub Inv-drop :
        (heap' m).strong_count ≡ (heap m).strong_count - 1
        → (heap' m).locked ≡ (if tx.guarded then false else (heap m).locked)
        → Inv mutex heap' next (xs ++ ys)
    Inv-drop count lock =
        let (ox, o, oy) = All-middle (Owned mutex) xs tx ys inv.owned in
        record {
          owned = All-append (Owned mutex) xs ys ox oy;
          counted = λ k n f. ground (
            arith,
            inv.counted k n f,
            refs-append n xs (tx ∷ ys),
            refs-append n xs ys,
            ==_iff m n,
            others n,
          );
          locked = λ k n f. ground (
            arith,
            inv.locked k n f,
            guards-append n xs (tx ∷ ys),
            guards-append n xs ys,
            ==_iff m n,
            others n,
          );
          injective = inv.injective;
          allocated = inv.allocated;
        }

    -- The last handle on a mutex is dropped, and its key goes from the map.
    pub Inv-forget :
        (key : Bytes)
        → mutex key ≡ some m
        → (heap m).strong_count ≡ 2
        → Inv (update mutex key none) heap' next (xs ++ ys)
    Inv-forget key e two =
        let (ox, o, oy) = All-middle (Owned mutex) xs tx ys inv.owned in
        let one : ref m tx ≡ 1 = ground (arith, ==_iff m m) in
        let rest : refs m (xs ++ ys) ≡ 0 =
          omega (
            arith,
            inv.counted key m e,
            two,
            refs-append m xs (tx ∷ ys),
            one,
            refs-append m xs ys,
          ) in
        record {
          owned = Owned-remove mutex key m (xs ++ ys) e rest (All-append (Owned mutex) xs ys ox oy);
          counted = λ k n f.
              let (ne, g) = entry-remove mutex key k n f in
              let ne' : m ≢ n = λ q. ne (inv.injective key k n (e ∙ ap some q) g) in
              rw (others n ne') (
                ground (
                  arith,
                  inv.counted k n g,
                  refs-append n xs (tx ∷ ys),
                  refs-append n xs ys,
                  ==_iff m n,
                ));
          locked = λ k n f.
              let (ne, g) = entry-remove mutex key k n f in
              let ne' : m ≢ n = λ q. ne (inv.injective key k n (e ∙ ap some q) g) in
              rw (others n ne') (
                ground (
                  arith,
                  inv.locked k n g,
                  guards-append n xs (tx ∷ ys),
                  guards-append n xs ys,
                  ==_iff m n,
                ));
          injective = λ j k n f g.
              inv.injective j k n (entry-remove mutex key j n f).1 (entry-remove mutex key k n g).1;
          allocated = λ k n f. inv.allocated k n (entry-remove mutex key k n f).1;
        }
