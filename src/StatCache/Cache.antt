-- ===== src/StatCache/Cache.antt =====
-- `SearchStatEntry`, `DeleteStatEntry`, `TruncateCache` and `InsertCacheElement` of src/statcache.c.
-- `deleted` are the calls of delete functions, the last first.
use aws_s3fs.Common.{ℕ, zero, suc, ◌-◌, Option, none, some, List, [], ◌∷◌, ltb, if◌then◌else◌}
use aws_s3fs.StatCache.Table.{StatCacheEntry, UtHash}

abbrev pub max_stat_cache_size : ℕ
max_stat_cache_size = 2000

-- The argument of `TruncateCache`: -1, or a size. No other negative number is a size.
pub data TruncateTo : Type 0 where
  to_maximum : TruncateTo
  to_size : ℕ → TruncateTo

module _ (h : UtHash) where
  pub record StatCache : Type 0 where
    pub table : h.Table
    pub deleted : List (ℕ × ℕ)

  unfoldable pub delete_data : StatCacheEntry → List (ℕ × ℕ) → List (ℕ × ℕ)
  delete_data entry deleted = elim entry.data_delete_function [
    | none ↦ deleted
    | some function ↦ (function, entry.data_pointer) ∷ deleted
  ]

  -- The pointer to the data, 0 when there is none.
  unfoldable pub search_stat_entry : List ℕ → StatCache → ℕ × StatCache
  search_stat_entry filename cache = elim (h.hash_find filename cache.table) [
    | none ↦ (0, cache)
    | some entry ↦ (
      entry.data_pointer,
      record cache { table = h.hash_add entry (h.hash_delete entry cache.table) },
    )
  ]

  unfoldable pub delete_stat_entry : List ℕ → StatCache → StatCache
  delete_stat_entry filename cache = elim (h.hash_find filename cache.table) [
    | none ↦ cache
    | some entry ↦ record {
      table = h.hash_delete entry cache.table;
      deleted = delete_data entry cache.deleted;
    }
  ]

  -- `HASH_ITER`, which takes each next entry before the current one is deleted: `to_visit` are the
  -- entries of the table when the loop begins, and `to_delete` how many are left to delete.
  unfoldable pub expire : List StatCacheEntry → ℕ → StatCache → StatCache
  expire [] to_delete cache = cache
  expire (entry ∷ to_visit) zero cache = cache
  expire (entry ∷ to_visit) (suc to_delete) cache = expire to_visit to_delete (record {
    table = h.hash_delete entry cache.table;
    deleted = delete_data entry cache.deleted;
  })

  -- A difference below zero deletes nothing, as 0 does.
  unfoldable pub number_to_delete : TruncateTo → ℕ → ℕ
  number_to_delete to_maximum cache_size = cache_size - max_stat_cache_size
  number_to_delete (to_size size) cache_size = cache_size - size

  unfoldable pub truncate_cache : TruncateTo → StatCache → StatCache
  truncate_cache truncate_to cache =
      let to_delete = number_to_delete truncate_to (h.hash_count cache.table) in
      if ltb 0 to_delete then expire (h.entries cache.table) to_delete cache else cache

  unfoldable pub insert_cache_element : List ℕ → ℕ → Option ℕ → StatCache → StatCache
  insert_cache_element filename data_pointer delete_fun cache =
      let entry : StatCacheEntry = record {
        filename = filename;
        data_pointer = data_pointer;
        data_delete_function = delete_fun;
      } in
      let inserted : StatCache = elim (h.hash_find filename cache.table) [
        | none ↦ record cache { table = h.hash_add entry cache.table }
        | some found ↦ cache
      ] in
      truncate_cache to_maximum inserted
