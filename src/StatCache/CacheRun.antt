-- ===== src/StatCache/CacheRun.antt =====
-- The operations of src/statcache.c on the list of entries, for any hash table that behaves as uthash.
use aws_s3fs.Common.{
  ℕ, zero, suc, ◌-◌, ◌≡◌, ◌≤◌, ◌<◌, refl, sym, ap, ◌∙◌, arith, Bool-cases, Option-cases, inl, inr,
  Option, none, some, List, [], ◌∷◌, ◌++◌, length, length-append, drop, length-drop, ltb,
}
use aws_s3fs.StatCache.Table.{StatCacheEntry, UtHash, find_entry, remove_entry}
use aws_s3fs.StatCache.Cache.{
  TruncateTo, to_maximum, StatCache, delete_data, search_stat_entry, delete_stat_entry, expire,
  number_to_delete, truncate_cache, insert_cache_element,
}
use aws_s3fs.StatCache.Lru.{
  Distinct, find-cons_none, same_key_refl, find-filename, find-remove, find-append_last,
  Distinct-remove, Distinct-append, Distinct-drop, touch, insert_entry,
}

-- The pointer that a look-up gives.
abbrev pub data_of : Option StatCacheEntry → ℕ
data_of none = 0
data_of (some entry) = entry.data_pointer

remove_absent :
    (filename : List ℕ) (entries : List StatCacheEntry)
    → find_entry filename entries ≡ none
    → remove_entry filename entries ≡ entries
remove_absent filename [] h = refl
remove_absent filename (e ∷ entries) h =
    let (differs, rest) = find-cons_none filename e entries h in
    rw differs (ap (λ (l : List StatCacheEntry). e ∷ l) (remove_absent filename entries rest))

module _ (h : UtHash) where
  abbrev pub entries_of : StatCache h → List StatCacheEntry
  entries_of cache = h.entries cache.table

  expire-drop :
      (to_visit : List StatCacheEntry) (n : ℕ) (cache : StatCache h)
      → entries_of cache ≡ to_visit
      → entries_of (expire h to_visit n cache) ≡ drop n to_visit
  unfolding expire
  expire-drop [] zero cache e = e
  expire-drop [] (suc n) cache e = e
  expire-drop (entry ∷ to_visit) zero cache e = e
  expire-drop (entry ∷ to_visit) (suc n) cache e =
      expire-drop to_visit n
        (record {
          table = h.hash_delete entry cache.table;
          deleted = delete_data h entry cache.deleted;
        })
        (h.delete_lem entry cache.table
          ∙ ap (remove_entry entry.filename) e
          ∙ rw (same_key_refl entry.filename) refl)

  -- Truncation removes the least recently used entries, as many as are too many, and no others.
  truncate_cache-drop :
      (truncate_to : TruncateTo) (cache : StatCache h)
      → entries_of (truncate_cache h truncate_to cache)
        ≡ drop (number_to_delete h truncate_to (length (entries_of cache))) (entries_of cache)
  unfolding truncate_cache
  truncate_cache-drop truncate_to cache =
      let n = number_to_delete h truncate_to (length (entries_of cache)) in
      elim (Bool-cases (ltb 0 n)) [
        | inl more ↦
            rw (h.count_lem cache.table, more) (expire-drop (entries_of cache) n cache refl)
        | inr enough ↦
            let e : n ≡ 0 = ground (arith, enough) in rw (h.count_lem cache.table, enough, e) refl
      ]

  module _ (filename : List ℕ) (cache : StatCache h) where
    search_miss :
        find_entry filename (entries_of cache) ≡ none
        → search_stat_entry h filename cache ≡ (0, cache)
    unfolding search_stat_entry
    search_miss absent =
        let e = h.find_lem filename cache.table ∙ absent in rw (e, search_stat_entry) refl

    search_hit :
        (entry : StatCacheEntry)
        → find_entry filename (entries_of cache) ≡ some entry
        → search_stat_entry h filename cache ≡ (
          entry.data_pointer,
          record cache { table = h.hash_add entry (h.hash_delete entry cache.table) },
        )
    unfolding search_stat_entry
    search_hit entry found =
        let e = h.find_lem filename cache.table ∙ found in rw (e, search_stat_entry) refl

    touch_miss :
        find_entry filename (entries_of cache) ≡ none
        → touch filename (entries_of cache) ≡ entries_of cache
    unfolding touch
    touch_miss absent = rw (absent, touch) refl

    touch_hit :
        (entry : StatCacheEntry)
        → find_entry filename (entries_of cache) ≡ some entry
        → touch filename (entries_of cache)
          ≡ remove_entry filename (entries_of cache) ++ (entry ∷ [])
    unfolding touch
    touch_hit entry found = rw (found, touch) refl

    delete_entries :
        entries_of (delete_stat_entry h filename cache) ≡ remove_entry filename (entries_of cache)
    unfolding delete_stat_entry
    delete_entries = elim (Option-cases (find_entry filename (entries_of cache))) [
      | inl absent ↦
          let e = h.find_lem filename cache.table ∙ absent in
          rw (e, delete_stat_entry) (sym (remove_absent filename (entries_of cache) absent))
      | inr (entry, found) ↦
          let e = h.find_lem filename cache.table ∙ found in
          rw (e, delete_stat_entry)
            (h.delete_lem entry cache.table
              ∙ ap (λ (f : List ℕ). remove_entry f (entries_of cache))
                  (find-filename filename (entries_of cache) entry found))
    ]

    -- In a cache without repeated filenames, looking a file up gives the pointer to its data, or
    -- `NULL`, makes its entry the most recently used one and leaves the filenames distinct.
    pub search_stat_entry-touch :
        Distinct (entries_of cache)
        → ((search_stat_entry h filename cache).0
            ≡ data_of (find_entry filename (entries_of cache)))
          × (entries_of (search_stat_entry h filename cache).1 ≡ touch filename (entries_of cache))
          × Distinct (touch filename (entries_of cache))
    search_stat_entry-touch d =
        let es = entries_of cache in
        elim (Option-cases (find_entry filename es)) [
          | inl absent ↦ rw (search_miss absent, touch_miss absent, absent) (refl, refl, d)
          | inr (entry, found) ↦
              let name = find-filename filename es entry found in
              let removed : h.entries (h.hash_delete entry cache.table) ≡ remove_entry filename es =
                h.delete_lem entry cache.table ∙ ap (λ (f : List ℕ). remove_entry f es) name in
              let fresh : find_entry entry.filename (remove_entry filename es) ≡ none =
                rw name (find-remove filename es d) in
              let added : h.entries (h.hash_add entry (h.hash_delete entry cache.table))
                  ≡ remove_entry filename es ++ (entry ∷ []) =
                h.add_lem entry (h.hash_delete entry cache.table) (rw removed fresh)
                ∙ ap (λ (l : List StatCacheEntry). l ++ (entry ∷ [])) removed in
              rw (search_hit entry found, touch_hit entry found, found)
                (
                  refl,
                  added,
                  Distinct-append (remove_entry filename es) entry (Distinct-remove filename es d)
                      fresh,
                )
        ]

    -- In a cache without repeated filenames, deleting a file takes its entry away and no other, the
    -- filenames stay distinct, and the file has no entry any more.
    delete_stat_entry-gone :
        Distinct (entries_of cache)
        → (entries_of (delete_stat_entry h filename cache)
            ≡ remove_entry filename (entries_of cache))
          × Distinct (remove_entry filename (entries_of cache))
          × (find_entry filename (entries_of (delete_stat_entry h filename cache)) ≡ none)
    delete_stat_entry-gone d = (
      delete_entries,
      Distinct-remove filename (entries_of cache) d,
      rw delete_entries (find-remove filename (entries_of cache) d),
    )

  module _ (entry : StatCacheEntry) (cache : StatCache h) (d : Distinct (entries_of cache)) where
    abbrev inserted : StatCache h
    inserted =
        insert_cache_element h entry.filename entry.data_pointer entry.data_delete_function cache

    insert_found :
        (old : StatCacheEntry)
        → find_entry entry.filename (entries_of cache) ≡ some old
        → inserted ≡ truncate_cache h to_maximum cache
    unfolding insert_cache_element
    insert_found old found =
        let e = h.find_lem entry.filename cache.table ∙ found in rw (e, insert_cache_element) refl

    insert_fresh :
        find_entry entry.filename (entries_of cache) ≡ none
        → inserted
          ≡ truncate_cache h to_maximum (record cache { table = h.hash_add entry cache.table })
    unfolding insert_cache_element
    insert_fresh absent =
        let e = h.find_lem entry.filename cache.table ∙ absent in rw (e, insert_cache_element) refl

    truncated :
        (c : StatCache h)
        → entries_of (truncate_cache h to_maximum c)
          ≡ drop (length (entries_of c) - 2000) (entries_of c)
    unfolding number_to_delete
    truncated c = truncate_cache-drop to_maximum c

    -- Into a cache without repeated filenames, an entry is inserted as the most recently used one
    -- unless its file has one, the least recently used ones go, at most 2000 are left, and the
    -- filenames stay distinct.
    pub insert_cache_element-insert_entry :
        (entries_of inserted ≡ insert_entry 2000 entry (entries_of cache))
        × Distinct (insert_entry 2000 entry (entries_of cache))
        × (length (insert_entry 2000 entry (entries_of cache)) ≤ 2000)
    unfolding insert_entry
    insert_cache_element-insert_entry =
        let es = entries_of cache in
        elim (Option-cases (find_entry entry.filename es)) [
          | inl absent ↦
              let more = es ++ (entry ∷ []) in
              let added = h.add_lem entry cache.table absent in
              rw (insert_fresh absent, truncated _, absent, insert_entry)
                (
                  rw added refl,
                  Distinct-drop (length more - 2000) more (Distinct-append es entry d absent),
                  omega (arith, length-drop {0} (length more - 2000) more),
                )
          | inr (old, found) ↦
              rw (insert_found old found, truncated cache, found, insert_entry)
                (
                  refl,
                  Distinct-drop (length es - 2000) es d,
                  omega (arith, length-drop {0} (length es - 2000) es),
                )
        ]

  -- In a cache without repeated filenames and with fewer than 2000 entries, a file that has no entry
  -- is inserted, and looking it up gives the pointer to its data.
  pub search_stat_entry-insert_cache_element :
      (entry : StatCacheEntry) (cache : StatCache h)
      → Distinct (entries_of cache)
      → find_entry entry.filename (entries_of cache) ≡ none
      → length (entries_of cache) < 2000
      → (search_stat_entry h entry.filename (
          insert_cache_element h entry.filename entry.data_pointer entry.data_delete_function
            cache)).0
        ≡ entry.data_pointer
  unfolding insert_entry
  search_stat_entry-insert_cache_element entry cache d absent room =
      let es = entries_of cache in
      let (inserts, distinct, short) = insert_cache_element-insert_entry entry cache d in
      let gone : length (es ++ (entry ∷ [])) - 2000 ≡ 0 =
        omega (arith, room, length-append es (entry ∷ [])) in
      let whole : insert_entry 2000 entry es ≡ es ++ (entry ∷ []) =
        rw (absent, insert_entry, gone) refl in
      let found = find-append_last es entry absent in
      let (pointer, touched, apart) =
        search_stat_entry-touch entry.filename (inserted entry cache d) (rw inserts distinct) in
      pointer ∙ ap data_of (ap (find_entry entry.filename) (inserts ∙ whole) ∙ found)
