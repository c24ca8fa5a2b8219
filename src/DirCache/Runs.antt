-- ===== src/DirCache/Runs.antt =====
-- The theorems on src/dircache.c at concrete inputs.
use aws_s3fs.Common.{◌≡◌, refl, none, some, List, [], ◌∷◌, take}
use aws_s3fs.Base64.Encode.{codes}
use aws_s3fs.DirCache.Slots.{DirCache, free_slot, initialize_directory_cache, find_slot}
use aws_s3fs.DirCache.Cache.{lookup, insert}
use aws_s3fs.DirCache.CacheRun.{lookup-insert}

abbrev home : DirCache
home = record { dirname = some (codes "/home"); size = 1; contents = some (codes "x" ∷ []) }

abbrev two_slots : List DirCache
two_slots = free_slot ∷ home ∷ []

abbrev at_start : List DirCache
at_start = free_slot ∷ free_slot ∷ free_slot ∷ free_slot ∷ free_slot ∷ []

start_as_built : initialize_directory_cache ≡ at_start
unfolding initialize_directory_cache
start_as_built = refl

start_misses : lookup (codes "/home") at_start ≡ (none, at_start)
unfolding lookup find_slot
start_misses = refl

lookup-insert_example :
    (insert (codes "/home") 1 (some (codes "x" ∷ [])) at_start ≡ home ∷ take 4 at_start)
    × (lookup (codes "/home") (insert (codes "/home") 1 (some (codes "x" ∷ [])) at_start)
        ≡ (some (codes "x" ∷ [], 1), insert (codes "/home") 1 (some (codes "x" ∷ [])) at_start))
lookup-insert_example = lookup-insert (codes "/home") 1 (codes "x" ∷ []) at_start refl start_misses
