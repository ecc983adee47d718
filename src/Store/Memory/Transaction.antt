-- ===== src/Store/Memory/Transaction.antt =====
-- What a transaction of the in-memory store promises (modules/store/src/memory.rs).
use lcp.Base.{
  ◌≡◌, refl, ap, Bool-cases, true, false, inl, inr, Option, none, some, List, [], ◌∷◌, ok, arith,
}
use lcp.Base.Equality.{==_iff}
use lcp.Base.Bytes.{Bytes, bytes_PartialEq}
use lcp.Base.HashMap
use lcp.Base.HashMap.{HashMap, IsMap, insert-IsMap, get-insert, get-remove}
use lcp.Store.Memory.{InnerMemStore, overlay, get, set, remove, begin, commit, rollback, write_all}

-- Outside a transaction nothing is buffered, and no key is buffered twice.
pub record IsValid (s : InnerMemStore) : Type 0 where
  pub no_leftover : s.running_tx_exists ≡ false → s.uncommitted_data ≡ []
  pub buffer : IsMap s.uncommitted_data

-- The loop of `commit` lays the buffered writes over the committed data.
get-write_all :
    (m : HashMap (Option Bytes)) (c : HashMap Bytes) (k : Bytes)
    → IsMap m
    → HashMap.get k (write_all m c) ≡ overlay (HashMap.get k m) (HashMap.get k c)
unfolding HashMap.get write_all
get-write_all [] c k h = refl
get-write_all ((j, some v) ∷ m) c k h =
    ground (arith, get-write_all m (HashMap.insert j v c) k h.1, get-insert k j v c, ==_iff j k)
get-write_all ((j, none) ∷ m) c k h =
    ground (arith, get-write_all m (HashMap.remove j c) k h.1, get-remove k j c, ==_iff j k)

-- A write in a transaction or outside of one.
pub data Write : Type 0 where
  set_write : Bytes → Bytes → Write
  remove_write : Bytes → Write

unfoldable pub write : Write → InnerMemStore → InnerMemStore
write (set_write k v) s = set s k v
write (remove_write k) s = remove s k

unfoldable pub writes : List Write → InnerMemStore → InnerMemStore
writes [] s = s
writes (w ∷ ws) s = writes ws (write w s)

write-running :
    (w : Write) (s : InnerMemStore) → (write w s).running_tx_exists ≡ s.running_tx_exists
unfolding write set remove
write-running (set_write k v) s = ground arith
write-running (remove_write k) s = ground arith

write-IsValid : (w : Write) (s : InnerMemStore) → IsValid s → IsValid (write w s)
unfolding write set remove
write-IsValid (set_write k v) s h = elim (Bool-cases s.running_tx_exists) [
  | inl t ↦ rw t (record {
    no_leftover = λ e. cc;
    buffer = insert-IsMap k (some v) s.uncommitted_data h.buffer;
  })
  | inr f ↦ rw f (record { no_leftover = λ e. h.no_leftover f; buffer = h.buffer })
]
write-IsValid (remove_write k) s h = elim (Bool-cases s.running_tx_exists) [
  | inl t ↦
      rw t
        (record { no_leftover = λ e. cc; buffer = insert-IsMap k none s.uncommitted_data h.buffer })
  | inr f ↦ rw f (record { no_leftover = λ e. h.no_leftover f; buffer = h.buffer })
]

writes-IsValid : (ws : List Write) (s : InnerMemStore) → IsValid s → IsValid (writes ws s)
unfolding writes
writes-IsValid [] s h = h
writes-IsValid (w ∷ ws) s h = writes-IsValid ws (write w s) (write-IsValid w s h)

-- While a transaction runs, writes leave what is committed and the transaction.
writes-running :
    (ws : List Write) (s : InnerMemStore)
    → s.running_tx_exists ≡ true
    → ((writes ws s).running_tx_exists ≡ true) × ((writes ws s).committed_data ≡ s.committed_data)
unfolding writes write set remove
writes-running [] s h = (h, refl)
writes-running (set_write k v ∷ ws) s h =
    ground (arith, writes-running ws (write (set_write k v) s))
writes-running (remove_write k ∷ ws) s h =
    ground (arith, writes-running ws (write (remove_write k) s))

-- In a well-formed store in a transaction, `commit` ends the transaction, keeps the store
-- well-formed, and leaves what every key reads as it was inside the transaction.
pub commit-get :
    (s : InnerMemStore)
    → IsValid s
    → s.running_tx_exists ≡ true
    → (s' : InnerMemStore) × (commit s ≡ ok s')
      × (s'.running_tx_exists ≡ false)
      × IsValid s'
      × ((k : Bytes) → get s' k ≡ get s k)
unfolding commit get
commit-get s h t = (
  record s {
    running_tx_exists = false;
    uncommitted_data = [];
    committed_data = write_all s.uncommitted_data s.committed_data;
  },
  rw t refl,
  refl,
  record { no_leftover = λ e. refl; buffer = tt },
  λ k. rw t (get-write_all s.uncommitted_data s.committed_data k h.buffer),
)

-- In a well-formed store outside of a transaction, a transaction can begin, and any writes made in
-- it are gone after `rollback`: every key reads as it did before.
pub rollback-begin :
    (ws : List Write) (s : InnerMemStore)
    → IsValid s
    → s.running_tx_exists ≡ false
    → (s1 : InnerMemStore) × (begin s ≡ ok s1)
      × ((s2 : InnerMemStore) × (rollback (writes ws s1) ≡ ok s2)
          × IsValid s2
          × ((k : Bytes) → get s2 k ≡ get s k))
unfolding begin rollback get
rollback-begin ws s h f =
    let s1 = record s { running_tx_exists = true } in
    let (t, same) = writes-running ws s1 refl in
    let last = record (writes ws s1) { running_tx_exists = false; uncommitted_data = [] } in
    (
      s1,
      rw f refl,
      (
        last,
        rw t refl,
        record { no_leftover = λ e. refl; buffer = tt },
        λ k. rw f (ap (HashMap.get k) same),
      ),
    )
