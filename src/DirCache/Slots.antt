-- ===== src/DirCache/Slots.antt =====
-- The array `directoryCache` of src/dircache.c.
use aws_s3fs.Common.{
  ℕ, zero, suc, ◌+◌, Bool, true, false, ◌&&◌, Option, none, some, List, [], ◌∷◌, get_or, replicate,
  ◌==◌, if◌then◌else◌,
}

-- `struct DirCache`; `none` is `NULL`.
pub record DirCache : Type 0 where
  pub dirname : Option (List ℕ)
  pub size : ℕ
  pub contents : Option (List (List ℕ))

abbrev pub dir_cache_size : ℕ
dir_cache_size = 5

abbrev pub free_slot : DirCache
free_slot = record { dirname = none; size = 0; contents = none }

-- `InitializeDirectoryCache`
unfoldable pub initialize_directory_cache : List DirCache
initialize_directory_cache = replicate dir_cache_size free_slot

abbrev pub get_slot : List DirCache → ℕ → DirCache
get_slot slots i = get_or slots i free_slot

-- An assignment to the slot of an index.
abbrev pub set_slot : List DirCache → ℕ → DirCache → List DirCache
set_slot [] i slot = []
set_slot (s ∷ slots) zero slot = slot ∷ slots
set_slot (s ∷ slots) (suc i) slot = s ∷ set_slot slots i slot

-- The loop that copies each slot from the one before it, from the index `i` down to 1.
unfoldable pub push_back : ℕ → List DirCache → List DirCache
push_back zero slots = slots
push_back (suc i) slots = push_back i (set_slot slots (suc i) (get_slot slots i))

-- `strcmp( a, b ) == 0`
abbrev pub same_name : List ℕ → List ℕ → Bool
same_name [] [] = true
same_name [] (y ∷ b) = false
same_name (x ∷ a) [] = false
same_name (x ∷ a) (y ∷ b) = x == y && same_name a b

abbrev pub has_dirname : DirCache → List ℕ → Bool
has_dirname slot name = elim slot.dirname as (λ o. Bool) [
  | none ↦ false
  | some d ↦ same_name d name
]

-- The search loop: the index of the first slot with the name.
unfoldable pub find_slot : List ℕ → List DirCache → ℕ → Option ℕ
find_slot name [] i = none
find_slot name (slot ∷ slots) i =
    if has_dirname slot name then some i else find_slot name slots (i + 1)
