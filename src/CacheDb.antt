-- ===== src/CacheDb.antt =====
-- `src/filecachedb.c`: the database of the file cache. Its SQL statements are functions on the tables, with
-- SQLite's documented semantics.
pub mod Rows
pub mod RowLaws
pub mod Joins
pub mod Tables
pub mod Files
pub mod Transfers
pub mod Uploads
pub mod History
pub mod Creation
pub mod Pending
pub mod NeverStarted
mod Runs
pub mod ConsistentFiles
pub mod ConsistentTransfers
pub mod Consistent
