-- ===== src/Digest/Md5Block.antt =====
-- `OP`, `OP_fn` and one round of the loop of `MD5ProcessBlock` in src/digest.c.
use aws_s3fs.Common.{ℕ, suc, ◌+◌, ◌*◌, ◌%◌, List, [], ◌∷◌, foldl, get_or}
use aws_s3fs.Digest.Word.{word_size, rotate, make_little_endian, ff, fg, fh, fi}
use aws_s3fs.Digest.State.{Regs}

-- `OP_fn`, and `OP` with the function `FF`: the register `a` is replaced.
unfoldable pub op_fn : (ℕ → ℕ → ℕ → ℕ) → ℕ → ℕ → ℕ → ℕ → ℕ → ℕ → ℕ → ℕ
unfolding rotate
op_fn f a b c d s t correct_word =
    (rotate ((a + f b c d + correct_word + t) % word_size) s + b) % word_size

-- The words of a block: four bytes each, the lowest first.
unfoldable pub words : ℕ → List ℕ → List ℕ
words (suc n) (p ∷ q ∷ r ∷ s ∷ rest) =
    make_little_endian (p + q * 0x100 + r * 0x10000 + s * 0x1000000) ∷ words n rest
words _ _ = []

-- The shift, the constant and the index of the word of one operation.
abbrev pub Row : Type 0
Row = ℕ × ℕ × ℕ

-- The operations go over the registers A, D, C, B in turn, so after each the registers are renamed.
unfoldable pub operation : (ℕ → ℕ → ℕ → ℕ) → List ℕ → Regs → Row → Regs
unfolding op_fn
operation f correct_words r (s, t, i) = record r {
  a = r.d;
  b = op_fn f r.a r.b r.c r.d s t (get_or correct_words i 0);
  c = r.b;
  d = r.c;
}

abbrev pub round_1 : List Row
round_1 =
    (7, 0xd76aa478, 0)
    ∷ (12, 0xe8c7b756, 1)
    ∷ (17, 0x242070db, 2)
    ∷ (22, 0xc1bdceee, 3)
    ∷ (7, 0xf57c0faf, 4)
    ∷ (12, 0x4787c62a, 5)
    ∷ (17, 0xa8304613, 6)
    ∷ (22, 0xfd469501, 7)
    ∷ (7, 0x698098d8, 8)
    ∷ (12, 0x8b44f7af, 9)
    ∷ (17, 0xffff5bb1, 10)
    ∷ (22, 0x895cd7be, 11)
    ∷ (7, 0x6b901122, 12)
    ∷ (12, 0xfd987193, 13)
    ∷ (17, 0xa679438e, 14)
    ∷ (22, 0x49b40821, 15)
    ∷ []

abbrev pub round_2 : List Row
round_2 =
    (5, 0xf61e2562, 1)
    ∷ (9, 0xc040b340, 6)
    ∷ (14, 0x265e5a51, 11)
    ∷ (20, 0xe9b6c7aa, 0)
    ∷ (5, 0xd62f105d, 5)
    ∷ (9, 0x02441453, 10)
    ∷ (14, 0xd8a1e681, 15)
    ∷ (20, 0xe7d3fbc8, 4)
    ∷ (5, 0x21e1cde6, 9)
    ∷ (9, 0xc33707d6, 14)
    ∷ (14, 0xf4d50d87, 3)
    ∷ (20, 0x455a14ed, 8)
    ∷ (5, 0xa9e3e905, 13)
    ∷ (9, 0xfcefa3f8, 2)
    ∷ (14, 0x676f02d9, 7)
    ∷ (20, 0x8d2a4c8a, 12)
    ∷ []

abbrev pub round_3 : List Row
round_3 =
    (4, 0xfffa3942, 5)
    ∷ (11, 0x8771f681, 8)
    ∷ (16, 0x6d9d6122, 11)
    ∷ (23, 0xfde5380c, 14)
    ∷ (4, 0xa4beea44, 1)
    ∷ (11, 0x4bdecfa9, 4)
    ∷ (16, 0xf6bb4b60, 7)
    ∷ (23, 0xbebfbc70, 10)
    ∷ (4, 0x289b7ec6, 13)
    ∷ (11, 0xeaa127fa, 0)
    ∷ (16, 0xd4ef3085, 3)
    ∷ (23, 0x04881d05, 6)
    ∷ (4, 0xd9d4d039, 9)
    ∷ (11, 0xe6db99e5, 12)
    ∷ (16, 0x1fa27cf8, 15)
    ∷ (23, 0xc4ac5665, 2)
    ∷ []

abbrev pub round_4 : List Row
round_4 =
    (6, 0xf4292244, 0)
    ∷ (10, 0x432aff97, 7)
    ∷ (15, 0xab9423a7, 14)
    ∷ (21, 0xfc93a039, 5)
    ∷ (6, 0x655b59c3, 12)
    ∷ (10, 0x8f0ccc92, 3)
    ∷ (15, 0xffeff47d, 10)
    ∷ (21, 0x85845dd1, 1)
    ∷ (6, 0x6fa87e4f, 8)
    ∷ (10, 0xfe2ce6e0, 15)
    ∷ (15, 0xa3014314, 6)
    ∷ (21, 0x4e0811a1, 13)
    ∷ (6, 0xf7537e82, 4)
    ∷ (10, 0xbd3af235, 11)
    ∷ (15, 0x2ad7d2bb, 2)
    ∷ (21, 0xeb86d391, 9)
    ∷ []

-- One round of the loop on 64 bytes, with the addition of the starting values.
unfoldable pub md5_block : Regs → List ℕ → Regs
unfolding operation words ff fg fh fi
md5_block r block =
    let w = words 16 block in
    let r1 = foldl (operation ff w) r round_1 in
    let r2 = foldl (operation fg w) r1 round_2 in
    let r3 = foldl (operation fh w) r2 round_3 in
    let r4 = foldl (operation fi w) r3 round_4 in
    record r {
      a = (r4.a + r.a) % word_size;
      b = (r4.b + r.b) % word_size;
      c = (r4.c + r.c) % word_size;
      d = (r4.d + r.d) % word_size;
    }
