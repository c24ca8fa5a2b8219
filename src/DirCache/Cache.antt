-- ===== src/DirCache/Cache.antt =====
-- The operations of src/dircache.c on the array. Memory that is freed is not modelled.
use aws_s3fs.Common.{ℕ, ◌-◌, Option, none, some, List, map}
use aws_s3fs.DirCache.Slots.{
  DirCache, dir_cache_size, free_slot, get_slot, set_slot, push_back, find_slot,
}

-- `DeleteDirectoryEntry`
unfoldable pub delete_directory_entry : DirCache → DirCache
delete_directory_entry entry = elim entry.contents [
  | none ↦ record entry { dirname = none }
  | some contents ↦ record { dirname = none; size = 0; contents = none }
]

-- `ShutdownDirectoryCache`
unfoldable shutdown_directory_cache : List DirCache → List DirCache
shutdown_directory_cache slots = map delete_directory_entry slots

-- `DeleteLastInDirectoryCache`
unfoldable pub delete_last : List DirCache → List DirCache
delete_last slots =
    let last = dir_cache_size - 1 in
    let freed = set_slot slots last (delete_directory_entry (get_slot slots last)) in
    set_slot (push_back last freed) 0 free_slot

-- `LookupInDirectoryCacheWithoutMutex`: the contents with their size, and the array. `*size` is written
-- only for a name that is found.
unfoldable pub lookup : List ℕ → List DirCache → Option (List (List ℕ) × ℕ) × List DirCache
lookup name slots = elim (find_slot name slots 0) [
  | none ↦ (none, slots)
  | some i ↦
      let found = get_slot slots i in
      elim found.contents [
        | none ↦ (none, slots)
        | some contents ↦ (some (contents, found.size), set_slot (push_back i slots) 0 found)
      ]
]

-- `InsertInDirectoryCache`, which looks the name up first.
unfoldable pub insert_unless : DirCache → Option (List (List ℕ) × ℕ) × List DirCache → List DirCache
insert_unless entry (none, slots) = set_slot (delete_last slots) 0 entry
insert_unless entry (some cached, slots) = slots

unfoldable pub insert : List ℕ → ℕ → Option (List (List ℕ)) → List DirCache → List DirCache
insert name size contents slots =
    insert_unless (record { dirname = some name; size = size; contents = contents })
      (lookup name slots)

-- `InvalidateDirectoryCacheElement`, which looks the name up first.
unfoldable pub delete_first_if : Option (List (List ℕ) × ℕ) × List DirCache → List DirCache
delete_first_if (none, slots) = slots
delete_first_if (some cached, slots) = set_slot slots 0 (delete_directory_entry (get_slot slots 0))

unfoldable pub invalidate : List ℕ → List DirCache → List DirCache
invalidate name slots = delete_first_if (lookup name slots)
