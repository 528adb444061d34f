-- ===== src/Store.antt =====
-- The file store: its interface (src/app/file_store/mod.rs) and its implementation over RocksDB
-- (src/app/file_store/rocksdb.rs).
pub mod Interface
pub mod Codec
pub mod Db
pub mod Rocksdb
