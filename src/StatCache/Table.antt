-- ===== src/StatCache/Table.antt =====
-- The hash tables of uthash as src/statcache.c uses them: the entries by their filename, in the order in
-- which they were added, which is the order of `HASH_ITER`.
use aws_s3fs.Common.{
  ℕ, ◌≡◌, Bool, true, false, ◌&&◌, Option, none, some, List, [], ◌∷◌, ◌++◌, length, ◌==◌,
  if◌then◌else◌,
}

-- A C string as a key.
abbrev pub same_key : List ℕ → List ℕ → Bool
same_key [] [] = true
same_key [] (y ∷ b) = false
same_key (x ∷ a) [] = false
same_key (x ∷ a) (y ∷ b) = x == y && same_key a b

-- `struct StatCacheEntry`: `data` is a pointer, 0 for `NULL`, and so is the function that deletes it.
pub record StatCacheEntry : Type 0 where
  pub filename : List ℕ
  pub data_pointer : ℕ
  pub data_delete_function : Option ℕ

abbrev pub find_entry : List ℕ → List StatCacheEntry → Option StatCacheEntry
find_entry filename [] = none
find_entry filename (entry ∷ entries) =
    if same_key entry.filename filename then some entry else find_entry filename entries

abbrev pub remove_entry : List ℕ → List StatCacheEntry → List StatCacheEntry
remove_entry filename [] = []
remove_entry filename (entry ∷ entries) =
    if same_key entry.filename filename then entries else entry ∷ remove_entry filename entries

-- The operations and what the documentation of uthash says of them.
pub record UtHash : Type 1 where
  pub Table : Type 0
  pub null_table : Table
  pub entries : Table → List StatCacheEntry
  pub hash_find : List ℕ → Table → Option StatCacheEntry
  pub hash_delete : StatCacheEntry → Table → Table
  pub hash_add : StatCacheEntry → Table → Table
  pub hash_count : Table → ℕ
  pub entries-null : entries null_table ≡ []
  pub find_lem :
      (filename : List ℕ) (t : Table) → hash_find filename t ≡ find_entry filename (entries t)
  pub delete_lem :
      (entry : StatCacheEntry) (t : Table)
      → entries (hash_delete entry t) ≡ remove_entry entry.filename (entries t)
  pub add_lem :
      (entry : StatCacheEntry) (t : Table)
      → find_entry entry.filename (entries t) ≡ none
      → entries (hash_add entry t) ≡ entries t ++ (entry ∷ [])
  pub count_lem : (t : Table) → hash_count t ≡ length (entries t)
