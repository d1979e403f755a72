-- ===== src/Storage.antt =====
-- internal/storage/: the aggregated API server's storage of objects in PostgreSQL.
pub mod Keys
pub mod Decimals
pub mod Rows
pub mod Repository
pub mod Ensures
pub mod Listing
pub mod Store
pub mod Tables
pub mod View
pub mod Invariant
pub mod Watcher
