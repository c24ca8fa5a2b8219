-- ===== src/StatCache/Runs.antt =====
-- A hash table as a list of entries, and the theorems on src/statcache.c with it.
use aws_s3fs.Common.{arith, ℕ, ◌≡◌, ◌≤◌, refl, none, List, [], ◌∷◌, ◌++◌, length}
use aws_s3fs.Base64.Encode.{codes}
use aws_s3fs.StatCache.Table.{StatCacheEntry, UtHash, find_entry, remove_entry}
use aws_s3fs.StatCache.Cache.{StatCache, search_stat_entry, insert_cache_element}
use aws_s3fs.StatCache.Lru.{Distinct, touch, insert_entry}
use aws_s3fs.StatCache.CacheRun.{
  entries_of, data_of, search_stat_entry-touch, insert_cache_element-insert_entry,
  search_stat_entry-insert_cache_element,
}

abbrev list_hash : UtHash
list_hash = record {
  Table = List StatCacheEntry;
  null_table = [];
  entries = λ t. t;
  hash_find = λ filename t. find_entry filename t;
  hash_delete = λ entry t. remove_entry entry.filename t;
  hash_add = λ entry t. t ++ (entry ∷ []);
  hash_count = λ t. length t;
  entries-null = refl;
  find_lem = λ filename t. refl;
  delete_lem = λ entry t. refl;
  add_lem = λ entry t fresh. refl;
  count_lem = λ t. refl;
}

abbrev file_entry : ℕ → ℕ → StatCacheEntry
file_entry name pointer = record {
  filename = name ∷ [];
  data_pointer = pointer;
  data_delete_function = none;
}

abbrev two_files : StatCache list_hash
two_files = record { table = file_entry b'a' 1 ∷ file_entry b'b' 2 ∷ []; deleted = [] }

two_files-Distinct : Distinct (entries_of list_hash two_files)
unfolding Distinct
two_files-Distinct = (refl, (refl, tt))

search_stat_entry-touch_example :
    ((search_stat_entry list_hash (codes "a") two_files).0
      ≡ data_of (find_entry (codes "a") (entries_of list_hash two_files)))
    × (entries_of list_hash (search_stat_entry list_hash (codes "a") two_files).1
        ≡ touch (codes "a") (entries_of list_hash two_files))
    × Distinct (touch (codes "a") (entries_of list_hash two_files))
search_stat_entry-touch_example =
    search_stat_entry-touch list_hash (codes "a") two_files two_files-Distinct

insert_cache_element-insert_entry_example :
    (entries_of list_hash (insert_cache_element list_hash (codes "c") 3 none two_files)
      ≡ insert_entry 2000 (file_entry b'c' 3) (entries_of list_hash two_files))
    × Distinct (insert_entry 2000 (file_entry b'c' 3) (entries_of list_hash two_files))
    × (length (insert_entry 2000 (file_entry b'c' 3) (entries_of list_hash two_files)) ≤ 2000)
insert_cache_element-insert_entry_example =
    insert_cache_element-insert_entry list_hash (file_entry b'c' 3) two_files two_files-Distinct

search_stat_entry-insert_cache_element_example :
    (search_stat_entry list_hash
      (codes "c")
      (insert_cache_element list_hash (codes "c") 3 none two_files)).0
    ≡ 3
search_stat_entry-insert_cache_element_example =
    search_stat_entry-insert_cache_element list_hash (file_entry b'c' 3) two_files
      two_files-Distinct refl (omega arith)
