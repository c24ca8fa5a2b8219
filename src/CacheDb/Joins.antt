-- ===== src/CacheDb/Joins.antt =====
-- Laws of joins, of selections and of the row that `LIMIT 1` leaves.
use aws_s3fs.Common.{
  ◌≡◌, ◌<◌, ◌⊎◌, refl, sym, ap, ◌++◌, arith, Bool, true, false, Option, none, some, List, [], ◌∷◌,
  length, All, All-append, Bool-cases, inl, inr,
}
use mathlib.Core.Path.{subst}
use aws_s3fs.CacheDb.Rows.{exists_row, rows_where, count_where, pairs_with, join_on}

module _ {A : Type 0} where
  abbrev pub In : A → List A → Type 0
  In row [] = ⊥
  In row (other ∷ rows) = (row ≡ other) ⊎ In row rows

  pub All-In : (P : A → Type 0) (row : A) (rows : List A) → All P rows → In row rows → P row
  All-In P row [] h k = elim k [ ]
  All-In P row (other ∷ rows) h (inl same) = subst P (sym same) h.0
  All-In P row (other ∷ rows) h (inr later) = All-In P row rows h.1 later

  -- What `LIMIT 1` promises: one of the rows, if there is one.
  pub record IsLimit (limit : List A → Option A) : Type 0 where
    pub member : (rows : List A) (row : A) → limit rows ≡ some row → In row rows
    pub nothing : (rows : List A) → limit rows ≡ none → rows ≡ []

  pub All-where :
      (P : A → Type 0) (p : A → Bool) (rows : List A)
      → All P rows
      → All (λ row. (p row ≡ true) × P row) (rows_where p rows)
  unfolding rows_where
  All-where P p [] h = tt
  All-where P p (row ∷ rows) h = elim (Bool-cases (p row)) [
    | inl hit ↦ rw hit ((hit, h.0), All-where P p rows h.1)
    | inr miss ↦ rw miss (All-where P p rows h.1)
  ]

  pub All-true : (rows : List A) → All (λ (row : A). Unit {0}) rows
  All-true [] = tt
  All-true (row ∷ rows) = (tt, All-true rows)

  pub length-where :
      (p : A → Bool) (rows : List A) → exists_row p rows ≡ true → 0 < length (rows_where p rows)
  unfolding exists_row rows_where
  length-where p [] h = absurd (ground (arith, h))
  length-where p (row ∷ rows) h = elim (Bool-cases (p row)) [
    | inl hit ↦ rw hit (omega arith)
    | inr miss ↦ rw miss (length-where p rows (ground (arith, h, miss)))
  ]

  pub count-none :
      (p : A → Bool) (rows : List A) → All (λ row. p row ≡ false) rows → count_where p rows ≡ 0
  unfolding count_where
  count-none p [] h = refl
  count-none p (row ∷ rows) h = rw h.0 (count-none p rows h.1)

  pub exists-In :
      (p : A → Bool) (row : A) (rows : List A)
      → In row rows
      → p row ≡ true
      → exists_row p rows ≡ true
  unfolding exists_row
  exists-In p row [] k h = elim k [ ]
  exists-In p row (other ∷ rows) (inl same) h =
      let hit : p other ≡ true = subst (λ r. p r ≡ true) same h in ground (arith, hit)
  exists-In p row (other ∷ rows) (inr later) h =
      let rest = exists-In p row rows later h in ground (arith, rest)

  In-cons :
      (row other : A) (xs ys : List A)
      → (In row xs → In row ys)
      → In row (other ∷ xs)
      → In row (other ∷ ys)
  In-cons row other xs ys f (inl same) = inl same
  In-cons row other xs ys f (inr later) = inr (f later)

  pub In-where : (p : A → Bool) (row : A) (rows : List A) → In row (rows_where p rows) → In row rows
  unfolding rows_where
  In-where p row [] h = h
  In-where p row (other ∷ rows) h = elim (Bool-cases (p other)) [
    | inl hit ↦
        let e : rows_where p (other ∷ rows) ≡ other ∷ rows_where p rows = rw hit refl in
        In-cons row other (rows_where p rows) rows (In-where p row rows) (subst (In row) e h)
    | inr miss ↦
        let e : rows_where p (other ∷ rows) ≡ rows_where p rows = rw miss refl in
        inr (In-where p row rows (subst (In row) e h))
  ]

  pub where-In :
      (p : A → Bool) (row : A) (rows : List A)
      → In row rows
      → p row ≡ true
      → In row (rows_where p rows)
  unfolding rows_where
  where-In p row [] k h = elim k [ ]
  where-In p row (other ∷ rows) (inl same) h =
      let hit : p other ≡ true = subst (λ r. p r ≡ true) same h in rw hit (inl same)
  where-In p row (other ∷ rows) (inr later) h =
      let rest = where-In p row rows later h in
      elim (Bool-cases (p other)) [ inl hit ↦ rw hit (inr rest) | inr miss ↦ rw miss rest ]

  In-append : (row : A) (xs ys : List A) → In row (xs ++ ys) → In row xs ⊎ In row ys
  In-append row [] ys k = inr k
  In-append row (x ∷ xs) ys (inl same) = inl (inl same)
  In-append row (x ∷ xs) ys (inr later) = elim (In-append row xs ys later) [
    | inl front ↦ inl (inr front)
    | inr back ↦ inr back
  ]

  In-front : (row : A) (xs ys : List A) → In row xs → In row (xs ++ ys)
  In-front row [] ys k = elim k [ ]
  In-front row (x ∷ xs) ys (inl same) = inl same
  In-front row (x ∷ xs) ys (inr later) = inr (In-front row xs ys later)

  In-back : (row : A) (xs ys : List A) → In row ys → In row (xs ++ ys)
  In-back row [] ys k = k
  In-back row (x ∷ xs) ys k = inr (In-back row xs ys k)

module _ {A : Type 0} {B : Type 0} where
  pub All-pairs :
      (P : A → Type 0) (Q : B → Type 0) (on : A → B → Bool) (a : A) (bs : List B)
      → P a
      → All Q bs
      → All (λ (row : A × B). P row.0 × Q row.1) (pairs_with on a bs)
  unfolding pairs_with
  All-pairs P Q on a [] here h = tt
  All-pairs P Q on a (b ∷ bs) here h = elim (Bool-cases (on a b)) [
    | inl hit ↦ rw hit ((here, h.0), All-pairs P Q on a bs here h.1)
    | inr miss ↦ rw miss (All-pairs P Q on a bs here h.1)
  ]

  -- What holds of the rows of two tables holds of the rows of their join.
  pub All-join :
      (P : A → Type 0) (Q : B → Type 0) (on : A → B → Bool) (rows : List A) (bs : List B)
      → All P rows
      → All Q bs
      → All (λ (row : A × B). P row.0 × Q row.1) (join_on on rows bs)
  unfolding join_on
  All-join P Q on [] bs h k = tt
  All-join P Q on (a ∷ rows) bs h k =
      All-append (λ (row : A × B). P row.0 × Q row.1) (pairs_with on a bs) (join_on on rows bs)
        (All-pairs P Q on a bs h.0 k) (All-join P Q on rows bs h.1 k)

  In-pairs :
      (on : A → B → Bool) (a : A) (bs : List B) (row : A × B)
      → In row (pairs_with on a bs)
      → (row.0 ≡ a) × (In row.1 bs) × (on row.0 row.1 ≡ true)
  unfolding pairs_with
  In-pairs on a [] row k = elim k [ ]
  In-pairs on a (b ∷ bs) row k = elim (Bool-cases (on a b)) [
    | inl hit ↦
        let e : pairs_with on a (b ∷ bs) ≡ (a, b) ∷ pairs_with on a bs = rw hit refl in
        elim (subst (In row) e k) [
          | inl same ↦ (
            ap (λ (r : A × B). r.0) same,
            inl (ap (λ (r : A × B). r.1) same),
            subst (λ (r : A × B). on r.0 r.1 ≡ true) (sym same) hit,
          )
          | inr later ↦
              let (first, second, joined) = In-pairs on a bs row later in
              (first, inr second, joined)
        ]
    | inr miss ↦
        let e : pairs_with on a (b ∷ bs) ≡ pairs_with on a bs = rw miss refl in
        let (first, second, joined) = In-pairs on a bs row (subst (In row) e k) in
        (first, inr second, joined)
  ]

  -- A row of a join has its parts in the two tables.
  pub In-join :
      (on : A → B → Bool) (rows : List A) (bs : List B) (row : A × B)
      → In row (join_on on rows bs)
      → (In row.0 rows) × (In row.1 bs) × (on row.0 row.1 ≡ true)
  unfolding join_on
  In-join on [] bs row k = elim k [ ]
  In-join on (a ∷ rows) bs row k =
      elim (In-append row (pairs_with on a bs) (join_on on rows bs) k) [
        | inl here ↦
            let (first, second, joined) = In-pairs on a bs row here in (inl first, second, joined)
        | inr later ↦
            let (first, second, joined) = In-join on rows bs row later in
            (inr first, second, joined)
      ]

  pairs-In :
      (on : A → B → Bool) (a : A) (b : B) (bs : List B)
      → In b bs
      → on a b ≡ true
      → In (a, b) (pairs_with on a bs)
  unfolding pairs_with
  pairs-In on a b [] k h = elim k [ ]
  pairs-In on a b (other ∷ bs) (inl same) h =
      let hit : on a other ≡ true = subst (λ x. on a x ≡ true) same h in
      rw hit (inl (ap (λ (x : B). (a, x)) same))
  pairs-In on a b (other ∷ bs) (inr later) h =
      let rest = pairs-In on a b bs later h in
      elim (Bool-cases (on a other)) [ inl hit ↦ rw hit (inr rest) | inr miss ↦ rw miss rest ]

  -- Two rows that match are a row of the join.
  pub join-In :
      (on : A → B → Bool) (a : A) (rows : List A) (b : B) (bs : List B)
      → In a rows
      → In b bs
      → on a b ≡ true
      → In (a, b) (join_on on rows bs)
  unfolding join_on
  join-In on a [] b bs k l h = elim k [ ]
  join-In on a (other ∷ rows) b bs (inl same) l h =
      let here = pairs-In on other b bs l (subst (λ x. on x b ≡ true) same h) in
      In-front (a, b) (pairs_with on other bs) (join_on on rows bs)
        (subst (λ x. In (x, b) (pairs_with on other bs)) (sym same) here)
  join-In on a (other ∷ rows) b bs (inr later) l h =
      In-back (a, b) (pairs_with on other bs) (join_on on rows bs)
        (join-In on a rows b bs later l h)
