-- ===== src/Store.antt =====
-- modules/store: the key-value interface, the in-memory store with its transaction, and the read
-- cache.
pub mod KvStore
pub mod Memory
pub mod Cache
pub mod Database
pub mod RocksDb
