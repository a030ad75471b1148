-- ===== src/Conc.antt =====
-- pkg/conc: the generic map over `sync.Map`, the map whose entries expire, and the cache on it.
pub mod Group
pub mod SyncMap
pub mod TtlMap
pub mod Cacher
pub mod TtlCache
