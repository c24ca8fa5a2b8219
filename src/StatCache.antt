-- ===== src/StatCache.antt =====
-- `src/statcache.c`: the cache of file information, of which the least recently used entries expire.
pub mod Table
pub mod Cache
pub mod Lru
pub mod CacheRun
mod Runs
