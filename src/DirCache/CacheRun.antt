-- ===== src/DirCache/CacheRun.antt =====
-- The operations of src/dircache.c on the list of slots, the one used last first.
use aws_s3fs.Common.{
  ℕ, suc, ◌+◌, ◌≡◌, ◌<◌, ◌⊎◌, refl, ap, ◌∙◌, arith, true, Bool-cases, Option-cases, inl, inr, none,
  some, List, [], ◌∷◌, ◌++◌, length, take, drop,
}
use mathlib.Core.Option.{none-ne-some, some-injective}
use aws_s3fs.DirCache.Slots.{
  DirCache, free_slot, get_slot, push_back, same_name, has_dirname, find_slot,
}
use aws_s3fs.DirCache.SlotsRun.{to_front}
use aws_s3fs.DirCache.Cache.{
  delete_directory_entry, delete_last, lookup, insert_unless, insert, delete_first_if, invalidate,
}

same_name_refl : (a : List ℕ) → same_name a a ≡ true
same_name_refl [] = refl
same_name_refl (x ∷ a) = ground (arith, same_name_refl a)

-- The slot that the search gives is one of the array and has the name.
find_slot-found :
    (name : List ℕ) (slots : List DirCache) (k i : ℕ)
    → find_slot name slots k ≡ some i
    → (j : ℕ) × (i ≡ k + j) × (j < length slots) × (has_dirname (get_slot slots j) name ≡ true)
unfolding find_slot
find_slot-found name [] k i h = absurd (none-ne-some i h)
find_slot-found name (s ∷ slots) k i h = elim (Bool-cases (has_dirname s name)) [
  | inl same ↦
      let e : some k ≡ some i = rw (← h, same) refl in
      (0, omega (arith, some-injective k i e), omega arith, same)
  | inr other ↦
      let e : find_slot name slots (k + 1) ≡ some i = rw (← h, other) refl in
      let (j, at, less, named) = find_slot-found name slots (k + 1) i e in
      (suc j, omega (arith, at), omega (arith, less), named)
]

-- A slot that a look-up of the name finds, and the array with it in front.
pub record Hit (name : List ℕ) (slots : List DirCache) : Type 0 where
  pub index : ℕ
  pub found_contents : List (List ℕ)
  pub inside : index < length slots
  pub named : has_dirname (get_slot slots index) name ≡ true
  pub holds : (get_slot slots index).contents ≡ some found_contents

abbrev pub others : {name : List ℕ} (slots : List DirCache) → Hit name slots → List DirCache
others slots hit = take hit.index slots ++ drop (suc hit.index) slots

-- A look-up finds nothing and leaves the cache as it is, or it gives the contents and the size of a
-- slot with the name and takes that slot to the front, the others keeping their order.
lookup-Hit :
    (name : List ℕ) (slots : List DirCache)
    → (lookup name slots ≡ (none, slots))
      ⊎ ((hit : Hit name slots) × (lookup name slots ≡ (
        some (hit.found_contents, (get_slot slots hit.index).size),
        get_slot slots hit.index ∷ others slots hit,
      )))
unfolding lookup
lookup-Hit name slots = elim (Option-cases (find_slot name slots 0)) [
  | inl absent ↦ inl (rw (absent, lookup) refl)
  | inr (i, found) ↦
      let (j, at, less, named) = find_slot-found name slots 0 i found in
      let here : i ≡ j = omega (arith, at) in
      elim (Option-cases (get_slot slots i).contents) [
        | inl empty ↦ inl (rw (found, lookup, empty) refl)
        | inr (contents, holds) ↦ inr (
          record {
            index = i;
            found_contents = contents;
            inside = omega (arith, less, here);
            named = rw here named;
            holds = holds;
          },
          rw (found, lookup, holds, to_front i slots (get_slot slots i) (omega (arith, less, here)))
              refl,
        )
      ]
]

delete_last_lem :
    (slots : List DirCache) → length slots ≡ 5 → delete_last slots ≡ free_slot ∷ take 4 slots
unfolding delete_last push_back
delete_last_lem (a ∷ b ∷ c ∷ d ∷ e ∷ []) h = refl
delete_last_lem [] h = absurd (omega arith)
delete_last_lem (a ∷ []) h = absurd (omega arith)
delete_last_lem (a ∷ b ∷ []) h = absurd (omega arith)
delete_last_lem (a ∷ b ∷ c ∷ []) h = absurd (omega arith)
delete_last_lem (a ∷ b ∷ c ∷ d ∷ []) h = absurd (omega arith)
delete_last_lem (a ∷ b ∷ c ∷ d ∷ e ∷ f ∷ slots) h = absurd (omega arith)

module _ (name : List ℕ) (size : ℕ) (contents : List (List ℕ)) (slots : List DirCache)
    (five : length slots ≡ 5) where
  abbrev new_slot : DirCache
  new_slot = record { dirname = some name; size = size; contents = some contents }

  insert_lem :
      lookup name slots ≡ (none, slots)
      → insert name size (some contents) slots ≡ new_slot ∷ take 4 slots
  unfolding insert insert_unless
  insert_lem miss = ap (insert_unless new_slot) miss ∙ (rw (delete_last_lem slots five) refl)

  lookup-new :
      lookup name (new_slot ∷ take 4 slots) ≡ (some (contents, size), new_slot ∷ take 4 slots)
  unfolding lookup find_slot push_back
  lookup-new = rw (lookup, find_slot, same_name_refl name) refl

  -- A directory that the cache of five slots does not hold is inserted in front of the four slots used
  -- last, and looking it up gives its contents and size and leaves the cache as it is.
  pub lookup-insert :
      lookup name slots ≡ (none, slots)
      → (insert name size (some contents) slots ≡ new_slot ∷ take 4 slots)
        × (lookup name (insert name size (some contents) slots)
            ≡ (some (contents, size), insert name size (some contents) slots))
  lookup-insert miss = (insert_lem miss, rw (insert_lem miss) lookup-new)

delete_entry_free :
    (slot : DirCache) (contents : List (List ℕ))
    → slot.contents ≡ some contents
    → delete_directory_entry slot ≡ free_slot
unfolding delete_directory_entry
delete_entry_free slot contents h = rw (h, delete_directory_entry) refl

-- Invalidation leaves a cache that does not hold the directory, and otherwise frees a slot with its
-- name, the others keeping their order behind it.
invalidate-Hit :
    (name : List ℕ) (slots : List DirCache)
    → (invalidate name slots ≡ slots)
      ⊎ ((hit : Hit name slots) × (invalidate name slots ≡ free_slot ∷ others slots hit))
unfolding invalidate delete_first_if
invalidate-Hit name slots = elim (lookup-Hit name slots) [
  | inl miss ↦ inl (ap delete_first_if miss)
  | inr (hit, found) ↦ inr (
    hit,
    ap delete_first_if found
        ∙ ap (λ (s : DirCache). s ∷ others slots hit)
            (delete_entry_free (get_slot slots hit.index) hit.found_contents hit.holds),
  )
]
