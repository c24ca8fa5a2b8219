-- ===== src/Digest/Md5Rounds.antt =====
-- `MD5ProcessBlock` of src/digest.c against the compression of a block in RFC 1321.
use aws_s3fs.Common.{
  ℕ, zero, suc, ◌+◌, ◌*◌, ◌%◌, ◌^◌, ◌≡◌, refl, ap, ◌∙◌, arith, List, [], ◌∷◌, foldl,
}
use aws_s3fs.Digest.Word.{rotate, ff, fg, fh, fi}
use aws_s3fs.Digest.State.{Regs}
use aws_s3fs.Digest.Md5Block.{
  op_fn, words, Row, operation, round_1, round_2, round_3, round_4, md5_block,
}
use aws_s3fs.Digest.Md5Rfc.{md5_step, from_to, low_first_words, md5_compress}

words_lem : (n : ℕ) (block : List ℕ) → words n block ≡ low_first_words n block
unfolding words low_first_words
words_lem zero block = refl
words_lem (suc n) [] = refl
words_lem (suc n) (p ∷ []) = refl
words_lem (suc n) (p ∷ q ∷ []) = refl
words_lem (suc n) (p ∷ q ∷ r ∷ []) = refl
words_lem (suc n) (p ∷ q ∷ r ∷ s ∷ rest) =
    let e : p + q * 0x100 + r * 0x10000 + s * 0x1000000 ≡ p + 256 * (q + 256 * (r + 256 * s)) =
      omega arith in
    rw (e, words_lem n rest) refl

-- The operations of a round are the steps of these numbers.
abbrev Agree : (Regs → Row → Regs) → (Regs → ℕ → Regs) → List Row → List ℕ → Type 0
Agree f g [] [] = Unit {0}
Agree f g [] (i ∷ steps) = ⊥
Agree f g (row ∷ rows) [] = ⊥
Agree f g (row ∷ rows) (i ∷ steps) = ((r : Regs) → f r row ≡ g r i) × Agree f g rows steps

foldl-Agree :
    (f : Regs → Row → Regs) (g : Regs → ℕ → Regs) (rows : List Row) (steps : List ℕ)
    → Agree f g rows steps
    → (r : Regs) → foldl f r rows ≡ foldl g r steps
foldl-Agree f g [] [] h r = refl
foldl-Agree f g [] (i ∷ steps) h r = elim h [ ]
foldl-Agree f g (row ∷ rows) [] h r = elim h [ ]
foldl-Agree f g (row ∷ rows) (i ∷ steps) h r =
    ap (λ (s : Regs). foldl f s rows) (h.0 r) ∙ foldl-Agree f g rows steps h.1 (g r i)

module _ (x : List ℕ) where
  round_1_lem : (r : Regs) → foldl (operation ff x) r round_1 ≡ foldl (md5_step x) r (from_to 0 16)
  unfolding operation op_fn rotate ff fg fh fi md5_step
  round_1_lem = foldl-Agree (operation ff x) (md5_step x) round_1 (from_to 0 16) (
    λ r. refl,
    (
      λ r. refl,
      (
        λ r. refl,
        (
          λ r. refl,
          (
            λ r. refl,
            (
              λ r. refl,
              (
                λ r. refl,
                (
                  λ r. refl,
                  (
                    λ r. refl,
                    (
                      λ r. refl,
                      (
                        λ r. refl,
                        (λ r. refl, (λ r. refl, (λ r. refl, (λ r. refl, (λ r. refl, tt))))),
                      ),
                    ),
                  ),
                ),
              ),
            ),
          ),
        ),
      ),
    ),
  )

  round_2_lem : (r : Regs) → foldl (operation fg x) r round_2 ≡ foldl (md5_step x) r (from_to 16 16)
  unfolding operation op_fn rotate ff fg fh fi md5_step
  round_2_lem = foldl-Agree (operation fg x) (md5_step x) round_2 (from_to 16 16) (
    λ r. refl,
    (
      λ r. refl,
      (
        λ r. refl,
        (
          λ r. refl,
          (
            λ r. refl,
            (
              λ r. refl,
              (
                λ r. refl,
                (
                  λ r. refl,
                  (
                    λ r. refl,
                    (
                      λ r. refl,
                      (
                        λ r. refl,
                        (λ r. refl, (λ r. refl, (λ r. refl, (λ r. refl, (λ r. refl, tt))))),
                      ),
                    ),
                  ),
                ),
              ),
            ),
          ),
        ),
      ),
    ),
  )

  round_3_lem : (r : Regs) → foldl (operation fh x) r round_3 ≡ foldl (md5_step x) r (from_to 32 16)
  unfolding operation op_fn rotate ff fg fh fi md5_step
  round_3_lem = foldl-Agree (operation fh x) (md5_step x) round_3 (from_to 32 16) (
    λ r. refl,
    (
      λ r. refl,
      (
        λ r. refl,
        (
          λ r. refl,
          (
            λ r. refl,
            (
              λ r. refl,
              (
                λ r. refl,
                (
                  λ r. refl,
                  (
                    λ r. refl,
                    (
                      λ r. refl,
                      (
                        λ r. refl,
                        (λ r. refl, (λ r. refl, (λ r. refl, (λ r. refl, (λ r. refl, tt))))),
                      ),
                    ),
                  ),
                ),
              ),
            ),
          ),
        ),
      ),
    ),
  )

  round_4_lem : (r : Regs) → foldl (operation fi x) r round_4 ≡ foldl (md5_step x) r (from_to 48 16)
  unfolding operation op_fn rotate ff fg fh fi md5_step
  round_4_lem = foldl-Agree (operation fi x) (md5_step x) round_4 (from_to 48 16) (
    λ r. refl,
    (
      λ r. refl,
      (
        λ r. refl,
        (
          λ r. refl,
          (
            λ r. refl,
            (
              λ r. refl,
              (
                λ r. refl,
                (
                  λ r. refl,
                  (
                    λ r. refl,
                    (
                      λ r. refl,
                      (
                        λ r. refl,
                        (λ r. refl, (λ r. refl, (λ r. refl, (λ r. refl, (λ r. refl, tt))))),
                      ),
                    ),
                  ),
                ),
              ),
            ),
          ),
        ),
      ),
    ),
  )

-- The addition of the starting values.
abbrev added : Regs → Regs → Regs
added r t = record r {
  a = (t.a + r.a) % 2 ^ 32;
  b = (t.b + r.b) % 2 ^ 32;
  c = (t.c + r.c) % 2 ^ 32;
  d = (t.d + r.d) % 2 ^ 32;
}

rounds_of : List ℕ → Regs → Regs
rounds_of w r =
    foldl (operation fi w)
      (foldl (operation fh w) (foldl (operation fg w) (foldl (operation ff w) r round_1) round_2)
        round_3)
      round_4

md5_block-rounds :
    (r : Regs) (block : List ℕ) → md5_block r block ≡ added r (rounds_of (words 16 block) r)
unfolding md5_block rounds_of
md5_block-rounds r block = refl

rounds_lem : (x : List ℕ) (r : Regs) → rounds_of x r ≡ foldl (md5_step x) r (from_to 0 64)
unfolding rounds_of
rounds_lem x r =
    let r1 = foldl (md5_step x) r (from_to 0 16) in
    let r2 = foldl (md5_step x) r1 (from_to 16 16) in
    let r3 = foldl (md5_step x) r2 (from_to 32 16) in
    let second = λ (s : Regs). foldl (operation fg x) s round_2 in
    let third = λ (s : Regs). foldl (operation fh x) s round_3 in
    let fourth = λ (s : Regs). foldl (operation fi x) s round_4 in
    ap (λ s. fourth (third (second s))) (round_1_lem x r)
    ∙ (ap (λ s. fourth (third s)) (round_2_lem x r1)
        ∙ (ap fourth (round_3_lem x r2) ∙ round_4_lem x r3))

pub md5_block_lem : (r : Regs) (block : List ℕ) → md5_block r block ≡ md5_compress r block
unfolding md5_compress
md5_block_lem r block =
    md5_block-rounds r block
    ∙ (ap (λ (w : List ℕ). added r (rounds_of w r)) (words_lem 16 block)
        ∙ ap (added r) (rounds_lem (low_first_words 16 block) r))
