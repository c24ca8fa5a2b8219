-- ===== src/CacheDb/RowLaws.antt =====
-- Laws of the operations on tables.
use aws_s3fs.Common.{
  ℕ, ◌+◌, ◌≡◌, ◌<◌, ◌⊎◌, refl, sym, ◌∙◌, arith, Bool, true, false, ◌&&◌, Option, none, some, List,
  [], ◌∷◌, leb, ◌==◌, if◌then◌else◌, All, Bool-cases, inl, inr,
}
use mathlib.Core.Path.{subst}
use mathlib.Core.Option.{none-ne-some, some-injective}
use aws_s3fs.CacheDb.Rows.{
  exists_row, update_where, remove_where, or_else, last_where, next_rowid, Distinct,
}

module _ {ℓ} {A : Type ℓ} where
  pub All-imp :
      (P Q : A → Type 0) → ((row : A) → P row → Q row) → (rows : List A) → All P rows → All Q rows
  All-imp P Q f [] h = tt
  All-imp P Q f (row ∷ rows) h = (f row h.0, All-imp P Q f rows h.1)

  pub All-update :
      (P : A → Type 0) (p : A → Bool) (f : A → A)
      → ((row : A) → P row → P (f row))
      → (rows : List A) → All P rows
      → All P (update_where p f rows)
  unfolding update_where
  All-update P p f keep [] h = tt
  All-update P p f keep (row ∷ rows) h = elim (Bool-cases (p row)) [
    | inl hit ↦ rw hit (keep row h.0, All-update P p f keep rows h.1)
    | inr miss ↦ rw miss (h.0, All-update P p f keep rows h.1)
  ]

  pub All-remove :
      (P : A → Type 0) (p : A → Bool) (rows : List A) → All P rows → All P (remove_where p rows)
  unfolding remove_where
  All-remove P p [] h = tt
  All-remove P p (row ∷ rows) h = elim (Bool-cases (p row)) [
    | inl hit ↦ rw hit (All-remove P p rows h.1)
    | inr miss ↦ rw miss (h.0, All-remove P p rows h.1)
  ]

  -- An update that leaves the keys alone.
  pub Distinct-update :
      (clash : A → A → Bool) (p : A → Bool) (f : A → A)
      → ((a b : A) → clash (f a) b ≡ clash a b)
      → ((a b : A) → clash a (f b) ≡ clash a b)
      → (rows : List A) → Distinct clash rows
      → Distinct clash (update_where p f rows)
  unfolding update_where
  Distinct-update clash p f left right [] h = tt
  Distinct-update clash p f left right (row ∷ rows) h =
      let keep = λ (a : A) (n : clash row a ≡ false). right row a ∙ n in
      let apart = All-update (λ other. clash row other ≡ false) p f keep rows h.0 in
      let rest = Distinct-update clash p f left right rows h.1 in
      elim (Bool-cases (p row)) [
        | inl hit ↦ rw hit (
          All-imp (λ other. clash row other ≡ false) (λ other. clash (f row) other ≡ false)
              (λ a n. left row a ∙ n) (update_where p f rows) apart,
          rest,
        )
        | inr miss ↦ rw miss (apart, rest)
      ]

  pub Distinct-remove :
      (clash : A → A → Bool) (p : A → Bool) (rows : List A)
      → Distinct clash rows
      → Distinct clash (remove_where p rows)
  unfolding remove_where
  Distinct-remove clash p [] h = tt
  Distinct-remove clash p (row ∷ rows) h = elim (Bool-cases (p row)) [
    | inl hit ↦ rw hit (Distinct-remove clash p rows h.1)
    | inr miss ↦
        rw miss (
          All-remove (λ other. clash row other ≡ false) p rows h.0,
          Distinct-remove clash p rows h.1,
        )
  ]

  pub exists-update :
      (q p : A → Bool) (f : A → A)
      → ((row : A) → q (f row) ≡ q row)
      → (rows : List A) → exists_row q (update_where p f rows) ≡ exists_row q rows
  unfolding exists_row update_where
  exists-update q p f same [] = refl
  exists-update q p f same (row ∷ rows) = elim (Bool-cases (p row)) [
    | inl hit ↦ rw (hit, same row, exists-update q p f same rows) refl
    | inr miss ↦ rw (miss, exists-update q p f same rows) refl
  ]

  pub exists-false :
      (q : A → Bool) (rows : List A) → exists_row q rows ≡ false → All (λ row. q row ≡ false) rows
  unfolding exists_row
  exists-false q [] h = tt
  exists-false q (row ∷ rows) h = (ground (arith, h), exists-false q rows (ground (arith, h)))

  -- A row that is not removed is still there.
  pub exists-remove :
      (q p : A → Bool) (rows : List A)
      → exists_row q rows ≡ true
      → exists_row (λ row. p row && q row) rows ≡ false
      → exists_row q (remove_where p rows) ≡ true
  unfolding exists_row remove_where
  exists-remove q p [] h none_removed = h
  exists-remove q p (row ∷ rows) h none_removed = elim (Bool-cases (p row)) [
    | inl hit ↦
        let miss_q : q row ≡ false = ground (arith, none_removed, hit) in
        rw hit (exists-remove q p rows (ground (arith, h, miss_q)) (ground (arith, none_removed)))
    | inr miss ↦ elim (Bool-cases (q row)) [
      | inl found ↦ rw (miss, found) refl
      | inr other ↦
          rw (miss, other)
            (exists-remove q p rows (ground (arith, h, other)) (ground (arith, none_removed, miss)))
    ]
  ]

  pub exists-cons :
      (q : A → Bool) (row : A) (rows : List A)
      → exists_row q rows ≡ true
      → exists_row q (row ∷ rows) ≡ true
  unfolding exists_row
  exists-cons q row rows h = ground (arith, h)

  pub next_rowid_above :
      (id : A → ℕ) (rows : List A) → All (λ row. id row < next_rowid id rows) rows
  unfolding next_rowid
  next_rowid_above id [] = tt
  next_rowid_above id (row ∷ rows) =
      let rest = next_rowid_above id rows in
      elim (Bool-cases (leb (next_rowid id rows) (id row))) [
        | inl up ↦
            let e : next_rowid id (row ∷ rows) ≡ id row + 1 = rw up refl in
            subst (λ n. All (λ other. id other < n) (row ∷ rows)) (sym e)
              (
                omega arith,
                All-imp (λ other. id other < next_rowid id rows) (λ other. id other < id row + 1)
                    (λ other h. ground (arith, h, up)) rows rest,
              )
        | inr same ↦
            let e : next_rowid id (row ∷ rows) ≡ next_rowid id rows = rw same refl in
            subst (λ n. All (λ other. id other < n) (row ∷ rows)) (sym e)
              (ground (arith, same), rest)
      ]

  -- The number of a new row is that of no other row.
  pub next_rowid_fresh :
      (id : A → ℕ) (rows : List A) → All (λ row. (next_rowid id rows == id row) ≡ false) rows
  next_rowid_fresh id rows =
      All-imp (λ row. id row < next_rowid id rows) (λ row. (next_rowid id rows == id row) ≡ false)
        (λ row h. ground (arith, h)) rows (next_rowid_above id rows)

  or_none : (x y : Option A) → or_else x y ≡ none → (x ≡ none) × (y ≡ none)
  unfolding or_else
  or_none none y h = (refl, h)
  or_none (some a) y h = absurd (none-ne-some a (sym h))

  none_if : (b : Bool) (row : A) → (if b then some row else none) ≡ none → b ≡ false
  none_if true row h = absurd (none-ne-some row (sym h))
  none_if false row h = refl

  pub some_if :
      (b : Bool) (row found : A)
      → (if b then some row else none) ≡ some found
      → (b ≡ true) × (row ≡ found)
  some_if true row found h = (refl, some-injective row found h)
  some_if false row found h = absurd (none-ne-some found h)

  pub or_some :
      (x y : Option A) (found : A)
      → or_else x y ≡ some found
      → (x ≡ some found) ⊎ ((x ≡ none) × (y ≡ some found))
  unfolding or_else
  or_some none y found h = inr (refl, h)
  or_some (some a) y found h = inl h

  pub last-none :
      (p : A → Bool) (rows : List A) → last_where p rows ≡ none → All (λ row. p row ≡ false) rows
  unfolding last_where
  last-none p [] h = tt
  last-none p (row ∷ rows) h =
      let (later, here) = or_none (last_where p rows) (if p row then some row else none) h in
      (none_if (p row) row here, last-none p rows later)

  pub none-last :
      (p : A → Bool) (rows : List A) → All (λ row. p row ≡ false) rows → last_where p rows ≡ none
  unfolding last_where or_else
  none-last p [] h = refl
  none-last p (row ∷ rows) h = rw (none-last p rows h.1, h.0) refl

  -- What is found is a row of the table that satisfies the condition, and what holds of all rows holds of it.
  pub last-some :
      (P : A → Type 0) (p : A → Bool) (rows : List A) (found : A)
      → last_where p rows ≡ some found
      → All P rows
      → (p found ≡ true) × P found
  unfolding last_where
  last-some P p [] found h all = absurd (none-ne-some found h)
  last-some P p (row ∷ rows) found h all =
      elim (or_some (last_where p rows) (if p row then some row else none) found h) [
        | inl later ↦ last-some P p rows found later all.1
        | inr (nothing, here) ↦
            let (hit, same) = some_if (p row) row found here in
            subst (λ r. (p r ≡ true) × P r) same (hit, all.0)
      ]

  -- The row that was inserted is found, if no other satisfies the condition.
  pub last-cons :
      (p : A → Bool) (row : A) (rows : List A)
      → All (λ other. p other ≡ false) rows
      → p row ≡ true
      → last_where p (row ∷ rows) ≡ some row
  unfolding last_where or_else
  last-cons p row rows none_other hit = rw (none-last p rows none_other, hit) refl

  or_nothing : (x : Option A) → or_else x none ≡ x
  unfolding or_else
  or_nothing none = refl
  or_nothing (some a) = refl

  -- A row that does not satisfy the condition changes nothing.
  pub last-skip :
      (p : A → Bool) (row : A) (rows : List A)
      → p row ≡ false
      → last_where p (row ∷ rows) ≡ last_where p rows
  unfolding last_where
  last-skip p row rows miss = rw miss (or_nothing (last_where p rows))
