-- ===== src/DirCache/SlotsRun.antt =====
-- The loop of src/dircache.c that pushes slots back, as an operation on the list of slots.
use aws_s3fs.Common.{
  ℕ, zero, suc, ◌≡◌, ◌<◌, refl, ap, ◌∙◌, arith, List, [], ◌∷◌, ◌++◌, append_assoc, length, take,
  drop,
}
use aws_s3fs.DirCache.Slots.{DirCache, get_slot, set_slot, push_back}

length-set_slot :
    (slots : List DirCache) (i : ℕ) (s : DirCache) → length (set_slot slots i s) ≡ length slots
length-set_slot [] i s = refl
length-set_slot (x ∷ slots) zero s = refl
length-set_slot (x ∷ slots) (suc i) s = ap suc (length-set_slot slots i s)

take-set_slot :
    (slots : List DirCache) (i : ℕ) (s : DirCache)
    → take i (set_slot slots (suc i) s) ≡ take i slots
take-set_slot [] i s = refl
take-set_slot (x ∷ slots) zero s = refl
take-set_slot (x ∷ []) (suc i) s = refl
take-set_slot (x ∷ (y ∷ slots)) (suc i) s =
    ap (λ (l : List DirCache). x ∷ l) (take-set_slot (y ∷ slots) i s)

drop-set_slot :
    (slots : List DirCache) (i : ℕ) (s : DirCache)
    → i < length slots
    → drop i (set_slot slots i s) ≡ s ∷ drop (suc i) slots
drop-set_slot [] i s h = absurd (omega arith)
drop-set_slot (x ∷ slots) zero s h = refl
drop-set_slot (x ∷ slots) (suc i) s h = drop-set_slot slots i s (omega arith)

take-suc :
    (slots : List DirCache) (i : ℕ)
    → i < length slots
    → take (suc i) slots ≡ take i slots ++ (get_slot slots i ∷ [])
take-suc [] i h = absurd (omega arith)
take-suc (x ∷ slots) zero h = refl
take-suc (x ∷ slots) (suc i) h = ap (λ (l : List DirCache). x ∷ l) (take-suc slots i (omega arith))

first-set_slot :
    (slots : List DirCache) (i : ℕ) (s : DirCache)
    → get_slot (set_slot slots (suc i) s) 0 ≡ get_slot slots 0
first-set_slot [] i s = refl
first-set_slot (x ∷ slots) i s = refl

-- The slots up to the index move by one, the first stays as well.
push_back_lem :
    (i : ℕ) (slots : List DirCache)
    → i < length slots
    → push_back i slots ≡ get_slot slots 0 ∷ (take i slots ++ drop (suc i) slots)
unfolding push_back
push_back_lem zero [] h = absurd (omega arith)
push_back_lem zero (x ∷ slots) h = refl
push_back_lem (suc i) slots h =
    let x = get_slot slots i in
    push_back_lem i (set_slot slots (suc i) x) (omega (arith, length-set_slot slots (suc i) x))
    ∙ rw
        (
          first-set_slot slots i x,
          take-set_slot slots i x,
          drop-set_slot slots (suc i) x (omega arith),
          take-suc slots i (omega arith),
          append_assoc (take i slots) (x ∷ []) (drop (suc (suc i)) slots),
        )
        refl

-- A slot taken to the front.
pub to_front :
    (i : ℕ) (slots : List DirCache) (s : DirCache)
    → i < length slots
    → set_slot (push_back i slots) 0 s ≡ s ∷ (take i slots ++ drop (suc i) slots)
to_front i slots s h = rw (push_back_lem i slots h) refl
