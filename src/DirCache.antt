-- ===== src/DirCache.antt =====
-- `src/dircache.c`: the cache of directory contents, five slots of which the first was used last.
pub mod Slots
pub mod Cache
pub mod SlotsRun
pub mod CacheRun
mod Runs
