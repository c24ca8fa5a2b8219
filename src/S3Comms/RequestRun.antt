-- ===== src/S3Comms/RequestRun.antt =====
-- The headers of a request of src/s3comms.c in the order that its signature needs.
use mathlib.Core.Path.{subst}
use mathlib.Core.List.{Perm}
use mathlib.Core.List.Perm
use aws_s3fs.Common.{
  ℕ, ◌≡◌, inl, inr, refl, arith, Bool, true, false, Bool-cases, List, [], ◌∷◌, ◌++◌, take,
  if◌then◌else◌,
}
use aws_s3fs.S3Comms.Request.{
  not_after, insert_header, sort_headers, unsigned_headers, build_generic_header,
}

not_after-total : (a b : List ℕ) → not_after a b ≡ false → not_after b a ≡ true
unfolding not_after
not_after-total [] b h = absurd (ground (arith, h))
not_after-total (x ∷ a) [] h = refl
not_after-total (x ∷ a) (y ∷ b) h = ground (arith, h, not_after-total a b)

-- No header comes before its predecessor, upper and lower case being one.
unfoldable pub InOrder : List (List ℕ) → Type 0
InOrder [] = Unit {0}
InOrder (h ∷ []) = Unit {0}
InOrder (h ∷ (k ∷ headers)) = (not_after h k ≡ true) × InOrder (k ∷ headers)

insert_header-InOrder :
    (header : List ℕ) (headers : List (List ℕ))
    → InOrder headers
    → InOrder (insert_header header headers)
unfolding InOrder insert_header
insert_header-InOrder header [] h = tt
insert_header-InOrder header (k ∷ []) h = elim (Bool-cases (not_after header k)) [
  | inl before ↦ rw before (before, tt)
  | inr after ↦ rw after (not_after-total header k after, tt)
]
insert_header-InOrder header (k ∷ (l ∷ headers)) (kl, h) = elim (Bool-cases (not_after header k)) [
  | inl before ↦ rw before (before, (kl, h))
  | inr after ↦
      let rest = insert_header-InOrder header (l ∷ headers) h in
      elim (Bool-cases (not_after header l)) [
        | inl before ↦ rw (after, before) (not_after-total header k after, (before, h))
        | inr later ↦
            let tail : InOrder (l ∷ insert_header header headers) =
              subst
                (λ (b : Bool).
                  InOrder (if b then header ∷ l ∷ headers else l ∷ insert_header header headers))
                later rest in
            rw (after, later) (kl, tail)
      ]
]

sort_headers-InOrder : (headers : List (List ℕ)) → InOrder (sort_headers headers)
unfolding InOrder sort_headers
sort_headers-InOrder [] = tt
sort_headers-InOrder (header ∷ headers) =
    insert_header-InOrder header (sort_headers headers) (sort_headers-InOrder headers)

insert_header-Perm :
    (header : List ℕ) (headers : List (List ℕ))
    → Perm (insert_header header headers) (header ∷ headers)
unfolding insert_header
insert_header-Perm header [] = Perm.refl (header ∷ [])
insert_header-Perm header (k ∷ headers) = elim (Bool-cases (not_after header k)) [
  | inl before ↦ rw before (Perm.refl (header ∷ (k ∷ headers)))
  | inr after ↦
      rw after
        (Perm.trans (Perm.cons k (insert_header-Perm header headers)) (Perm.swap header k headers))
]

sort_headers-Perm : (headers : List (List ℕ)) → Perm (sort_headers headers) headers
unfolding sort_headers
sort_headers-Perm [] = Perm.refl []
sort_headers-Perm (header ∷ headers) =
    Perm.trans (insert_header-Perm header (sort_headers headers))
      (Perm.cons header (sort_headers-Perm headers))

-- The additional headers of a request, the first 100 of them, stand behind the host, the date and the
-- user agent, all of them and each as often as before, ordered by their text in lower case.
unsigned_headers-sorted :
    (hostname date : List ℕ) (additional_headers : List (List ℕ))
    → (sorted : List (List ℕ)) × (unsigned_headers hostname date additional_headers
        ≡ build_generic_header hostname date ++ sorted)
      × InOrder sorted
      × Perm sorted (take 100 additional_headers)
unfolding unsigned_headers
unsigned_headers-sorted hostname date additional_headers =
    let extra = take 100 additional_headers in
    (sort_headers extra, refl, sort_headers-InOrder extra, sort_headers-Perm extra)
