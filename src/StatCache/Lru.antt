-- ===== src/StatCache/Lru.antt =====
-- The entries of src/statcache.c as a list without repeated filenames, the least recently used first.
use mathlib.Core.Option.{none-ne-some, some-injective}
use aws_s3fs.Common.{
  ℕ, zero, suc, ◌-◌, ◌≡◌, refl, sym, ◌∙◌, arith, true, false, Bool-cases, inl, inr, none, some,
  List, [], ◌∷◌, ◌++◌, length, drop,
}
use aws_s3fs.StatCache.Table.{StatCacheEntry, same_key, find_entry, remove_entry}

pub same_key_refl : (a : List ℕ) → same_key a a ≡ true
same_key_refl [] = refl
same_key_refl (x ∷ a) = ground (arith, same_key_refl a)

pub same_key-eq : (a b : List ℕ) → same_key a b ≡ true → a ≡ b
same_key-eq [] [] h = refl
same_key-eq [] (y ∷ b) h = absurd (ground (arith, h))
same_key-eq (x ∷ a) [] h = absurd (ground (arith, h))
same_key-eq (x ∷ a) (y ∷ b) h =
    let heads : x ≡ y = ground (arith, h) in
    let tails : same_key a b ≡ true = ground (arith, h) in (λ i. heads i ∷ same_key-eq a b tails i)

-- No two entries have one filename.
unfoldable pub Distinct : List StatCacheEntry → Type 0
Distinct [] = Unit {0}
Distinct (entry ∷ entries) = (find_entry entry.filename entries ≡ none) × Distinct entries

module _ (g : List ℕ) (e : StatCacheEntry) (entries : List StatCacheEntry) where
  pub find-same : same_key e.filename g ≡ true → find_entry g (e ∷ entries) ≡ some e
  find-same h = rw h refl

  pub find-other : same_key e.filename g ≡ false → find_entry g (e ∷ entries) ≡ find_entry g entries
  find-other h = rw h refl

  pub find-cons_none :
      find_entry g (e ∷ entries) ≡ none
      → (same_key e.filename g ≡ false) × (find_entry g entries ≡ none)
  find-cons_none h = elim (Bool-cases (same_key e.filename g)) [
    | inl same ↦ absurd (none-ne-some e (sym h ∙ find-same same))
    | inr other ↦ (other, sym (find-other other) ∙ h)
  ]

pub find-filename :
    (f : List ℕ) (entries : List StatCacheEntry) (entry : StatCacheEntry)
    → find_entry f entries ≡ some entry
    → entry.filename ≡ f
find-filename f [] entry h = absurd (ground (arith, h))
find-filename f (e ∷ entries) entry h = elim (Bool-cases (same_key e.filename f)) [
  | inl same ↦
      (λ i. (some-injective entry e (sym h ∙ find-same f e entries same) i).filename)
      ∙ same_key-eq e.filename f same
  | inr other ↦ find-filename f entries entry (sym (find-other f e entries other) ∙ h)
]

pub find-remove :
    (f : List ℕ) (entries : List StatCacheEntry)
    → Distinct entries
    → find_entry f (remove_entry f entries) ≡ none
unfolding Distinct
find-remove f [] d = refl
find-remove f (e ∷ entries) (fresh, d) = elim (Bool-cases (same_key e.filename f)) [
  | inl same ↦ rw (same, ← same_key-eq e.filename f same) fresh
  | inr other ↦ rw (other, other) (find-remove f entries d)
]

-- What is not found is not found in fewer entries, nor with another entry behind them.
find-remove_none :
    (g f : List ℕ) (entries : List StatCacheEntry)
    → find_entry g entries ≡ none
    → find_entry g (remove_entry f entries) ≡ none
find-remove_none g f [] h = refl
find-remove_none g f (e ∷ entries) h =
    let (differs, rest) = find-cons_none g e entries h in
    elim (Bool-cases (same_key e.filename f)) [
      | inl same ↦ rw same rest
      | inr other ↦ rw (other, differs) (find-remove_none g f entries rest)
    ]

pub Distinct-remove :
    (f : List ℕ) (entries : List StatCacheEntry)
    → Distinct entries
    → Distinct (remove_entry f entries)
unfolding Distinct
Distinct-remove f [] d = tt
Distinct-remove f (e ∷ entries) (fresh, d) = elim (Bool-cases (same_key e.filename f)) [
  | inl same ↦ rw same d
  | inr other ↦ rw other (find-remove_none e.filename f entries fresh, Distinct-remove f entries d)
]

find-append_none :
    (g : List ℕ) (entries : List StatCacheEntry) (entry : StatCacheEntry)
    → find_entry g entries ≡ none
    → same_key entry.filename g ≡ false
    → find_entry g (entries ++ (entry ∷ [])) ≡ none
find-append_none g [] entry h s = rw s refl
find-append_none g (e ∷ entries) entry h s =
    let (differs, rest) = find-cons_none g e entries h in
    rw differs (find-append_none g entries entry rest s)

pub find-append_last :
    (entries : List StatCacheEntry) (entry : StatCacheEntry)
    → find_entry entry.filename entries ≡ none
    → find_entry entry.filename (entries ++ (entry ∷ [])) ≡ some entry
find-append_last [] entry h = rw (same_key_refl entry.filename) refl
find-append_last (e ∷ entries) entry h =
    let (differs, rest) = find-cons_none entry.filename e entries h in
    rw differs (find-append_last entries entry rest)

pub same_key-sym : (a b : List ℕ) → same_key a b ≡ false → same_key b a ≡ false
same_key-sym [] [] h = h
same_key-sym [] (y ∷ b) h = refl
same_key-sym (x ∷ a) [] h = refl
same_key-sym (x ∷ a) (y ∷ b) h = ground (arith, h, same_key-sym a b)

pub Distinct-append :
    (entries : List StatCacheEntry) (entry : StatCacheEntry)
    → Distinct entries
    → find_entry entry.filename entries ≡ none
    → Distinct (entries ++ (entry ∷ []))
unfolding Distinct
Distinct-append [] entry d h = (refl, tt)
Distinct-append (e ∷ entries) entry (fresh, d) h =
    let (differs, rest) = find-cons_none entry.filename e entries h in
    (
      find-append_none e.filename entries entry fresh
          (same_key-sym e.filename entry.filename differs),
      Distinct-append entries entry d rest,
    )

pub Distinct-drop :
    (n : ℕ) (entries : List StatCacheEntry) → Distinct entries → Distinct (drop n entries)
unfolding Distinct
Distinct-drop zero entries d = d
Distinct-drop (suc n) [] d = d
Distinct-drop (suc n) (e ∷ entries) (fresh, d) = Distinct-drop n entries d

-- A use of a file moves its entry to the end.
unfoldable pub touch : List ℕ → List StatCacheEntry → List StatCacheEntry
touch filename entries = elim (find_entry filename entries) [
  | none ↦ entries
  | some entry ↦ remove_entry filename entries ++ (entry ∷ [])
]

-- A new entry comes last, unless its filename has one, and the first ones go, down to a maximum.
unfoldable pub insert_entry : ℕ → StatCacheEntry → List StatCacheEntry → List StatCacheEntry
insert_entry maximum entry entries =
    let more = elim (find_entry entry.filename entries) as (λ o. List StatCacheEntry) [
      | none ↦ entries ++ (entry ∷ [])
      | some found ↦ entries
    ] in
    drop (length more - maximum) more
