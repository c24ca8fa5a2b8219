-- ===== src/Digest/Sha1Rfc.antt =====
-- The compression of a block in RFC 3174, section 6.1, by the number of the step, and
-- `SHA1ProcessMessageBlock` of src/digest.c against it.
use mathlib.Core.List.{reverse}
use aws_s3fs.Common.{
  ℕ, zero, suc, ◌+◌, ◌-◌, ◌*◌, ◌/◌, ◌%◌, ◌^◌, bit_and, bit_or, bit_xor, ◌≡◌, ◌≤◌, ◌<◌, refl, sym,
  ap, ◌∙◌, arith, true, false, List, [], ◌∷◌, foldl, take, drop, drop-add, get_or, ltb,
  if◌then◌else◌,
}
use aws_s3fs.Digest.Word.{sha1_circular_shift}
use aws_s3fs.Digest.State.{Regs}
use aws_s3fs.Digest.Sha1Block.{
  big_endian_words, extend_words, sha1_step, choose, parity, majority, sha1_block,
}

-- The low 32 bits.
abbrev low_word : ℕ → ℕ
low_word x = bit_and (x % 2 ^ 32) 0xffffffff

-- `S^n(X)`
abbrev rotate_left : ℕ → ℕ → ℕ
rotate_left n x = bit_or (low_word (x * 2 ^ n)) (x / 2 ^ (32 - n))

-- `f(t;B,C,D)` and `K(t)`
abbrev mix : ℕ → ℕ → ℕ → ℕ → ℕ
mix t b c d =
    if ltb t 20
    then bit_or (bit_and b c) (bit_and (bit_xor b 0xffffffff) d)
    else (if ltb t 40
        then bit_xor (bit_xor b c) d
        else (if ltb t 60
            then bit_or (bit_or (bit_and b c) (bit_and b d)) (bit_and c d)
            else bit_xor (bit_xor b c) d))

abbrev constant : ℕ → ℕ
constant t =
    if ltb t 20
    then 0x5a827999
    else (if ltb t 40 then 0x6ed9eba1 else (if ltb t 60 then 0x8f1bbcdc else 0xca62c1d6))

unfoldable pub step : ℕ → ℕ → Regs → Regs
step t w r = record {
  a = low_word (rotate_left 5 r.a + mix t r.b r.c r.d + r.e + w + constant t);
  b = r.a;
  c = rotate_left 30 r.b;
  d = r.c;
  e = r.d;
}

-- The steps from a number on, one for each word.
unfoldable pub steps : ℕ → Regs → List ℕ → Regs
steps t r [] = r
steps t r (w ∷ words) = steps (t + 1) (step t w r) words

-- The words `W(t)` of a schedule, the last first, and `n` more of them:
-- W(t) = S^1(W(t-3) XOR W(t-8) XOR W(t-14) XOR W(t-16)).
unfoldable pub schedule : ℕ → List ℕ → List ℕ
schedule zero w = w
schedule (suc n) w =
    let before = λ (k : ℕ). get_or w (k - 1) 0 in
    schedule n (
      rotate_left 1 (bit_xor (bit_xor (bit_xor (before 3) (before 8)) (before 14)) (before 16)) ∷ w)

-- The words of a block, the highest byte of each first.
unfoldable pub high_first_words : ℕ → List ℕ → List ℕ
high_first_words (suc n) (p ∷ q ∷ r ∷ s ∷ rest) =
    bit_or (bit_or (bit_or (p * 2 ^ 24) (q * 2 ^ 16)) (r * 2 ^ 8)) s ∷ high_first_words n rest
high_first_words _ _ = []

-- The registers before the first block.
abbrev pub sha1_start : Regs
sha1_start = record {
  a = 0x67452301;
  b = 0xefcdab89;
  c = 0x98badcfe;
  d = 0x10325476;
  e = 0xc3d2e1f0;
}

unfoldable pub sha1_compress : Regs → List ℕ → Regs
sha1_compress r block =
    let w = reverse (schedule 64 (reverse (high_first_words 16 block))) in
    let s = steps 0 r w in
    record {
      a = low_word (r.a + s.a);
      b = low_word (r.b + s.b);
      c = low_word (r.c + s.c);
      d = low_word (r.d + s.d);
      e = low_word (r.e + s.e);
    }

words_lem : (n : ℕ) (block : List ℕ) → big_endian_words n block ≡ high_first_words n block
unfolding big_endian_words high_first_words
words_lem zero block = refl
words_lem (suc n) [] = refl
words_lem (suc n) (p ∷ []) = refl
words_lem (suc n) (p ∷ q ∷ []) = refl
words_lem (suc n) (p ∷ q ∷ r ∷ []) = refl
words_lem (suc n) (p ∷ q ∷ r ∷ s ∷ rest) = rw (words_lem n rest) refl

schedule_lem : (n : ℕ) (w : List ℕ) → extend_words n w ≡ schedule n w
unfolding extend_words schedule sha1_circular_shift
schedule_lem zero w = refl
schedule_lem (suc n) w = schedule_lem n (
    sha1_circular_shift 1
      (bit_xor (bit_xor (bit_xor (get_or w 2 0) (get_or w 7 0)) (get_or w 13 0)) (get_or w 15 0))
    ∷ w)

-- A loop with one function over the next words takes the steps of their numbers.
steps_of :
    (f : Regs → ℕ → Regs) (n t : ℕ) (r : Regs) (w : List ℕ)
    → ((i : ℕ) → t ≤ i → i < t + n → (s : Regs) (x : ℕ) → step i x s ≡ f s x)
    → steps t r w ≡ steps (t + n) (foldl f r (take n w)) (drop n w)
unfolding steps
steps_of f zero t r w same = let e : t + 0 ≡ t = omega arith in rw e refl
steps_of f (suc n) t r [] same = refl
steps_of f (suc n) t r (x ∷ w) same =
    let e : t + suc n ≡ (t + 1) + n = omega arith in
    rw (e, same t (omega arith) (omega arith) r x)
      (steps_of f n (t + 1) (f r x) w
        (λ i from to. same i (omega (arith, from)) (omega (arith, to))))

steps_from :
    (f : Regs → ℕ → Regs) (t : ℕ) (r : Regs) (w : List ℕ)
    → ((i : ℕ) → t ≤ i → (s : Regs) (x : ℕ) → step i x s ≡ f s x)
    → steps t r w ≡ foldl f r w
unfolding steps
steps_from f t r [] same = refl
steps_from f t r (x ∷ w) same =
    rw (same t (omega arith) r x)
      (steps_from f (t + 1) (f r x) w (λ i from. same i (omega (arith, from))))

module _ (i : ℕ) (s : Regs) (x : ℕ) where
  first_step : i < 20 → step i x s ≡ sha1_step choose 0x5a827999 s x
  unfolding step sha1_step choose sha1_circular_shift
  first_step h = let a : ltb i 20 ≡ true = ground (arith, h) in rw a refl

  second_step : 20 ≤ i → i < 40 → step i x s ≡ sha1_step parity 0x6ed9eba1 s x
  unfolding step sha1_step parity sha1_circular_shift
  second_step l h =
      let a : ltb i 20 ≡ false = ground (arith, l) in
      let b : ltb i 40 ≡ true = ground (arith, h) in rw (a, b) refl

  third_step : 40 ≤ i → i < 60 → step i x s ≡ sha1_step majority 0x8f1bbcdc s x
  unfolding step sha1_step majority sha1_circular_shift
  third_step l h =
      let a : ltb i 20 ≡ false = ground (arith, l) in
      let b : ltb i 40 ≡ false = ground (arith, l) in
      let c : ltb i 60 ≡ true = ground (arith, h) in rw (a, b, c) refl

  fourth_step : 60 ≤ i → step i x s ≡ sha1_step parity 0xca62c1d6 s x
  unfolding step sha1_step parity sha1_circular_shift
  fourth_step l =
      let a : ltb i 20 ≡ false = ground (arith, l) in
      let b : ltb i 40 ≡ false = ground (arith, l) in
      let c : ltb i 60 ≡ false = ground (arith, l) in rw (a, b, c) refl

-- The four loops over the words.
loops : Regs → List ℕ → Regs
loops r w =
    let r1 = foldl (sha1_step choose 0x5a827999) r (take 20 w) in
    let r2 = foldl (sha1_step parity 0x6ed9eba1) r1 (take 20 (drop 20 w)) in
    let r3 = foldl (sha1_step majority 0x8f1bbcdc) r2 (take 20 (drop 40 w)) in
    foldl (sha1_step parity 0xca62c1d6) r3 (drop 60 w)

loops_lem : (r : Regs) (w : List ℕ) → loops r w ≡ steps 0 r w
unfolding loops
loops_lem r w =
    let r1 = foldl (sha1_step choose 0x5a827999) r (take 20 w) in
    let r2 = foldl (sha1_step parity 0x6ed9eba1) r1 (take 20 (drop 20 w)) in
    let r3 = foldl (sha1_step majority 0x8f1bbcdc) r2 (take 20 (drop 40 w)) in
    sym (
      steps_of (sha1_step choose 0x5a827999) 20 0 r w
        (λ i from to s x. first_step i s x (omega (arith, to)))
      ∙ (steps_of (sha1_step parity 0x6ed9eba1) 20 20 r1 (drop 20 w)
            (λ i from to s x. second_step i s x from (omega (arith, to)))
          ∙ (ap (λ (v : List ℕ). steps 40 r2 v) (sym (drop-add 20 20 w))
              ∙ (steps_of (sha1_step majority 0x8f1bbcdc) 20 40 r2 (drop 40 w)
                    (λ i from to s x. third_step i s x from (omega (arith, to)))
                  ∙ (ap (λ (v : List ℕ). steps 60 r3 v) (sym (drop-add 40 20 w))
                      ∙ steps_from (sha1_step parity 0xca62c1d6) 60 r3 (drop 60 w)
                          (λ i from s x. fourth_step i s x from))))))

-- The addition of the starting values.
abbrev added : Regs → Regs → Regs
added r s = record {
  a = low_word (r.a + s.a);
  b = low_word (r.b + s.b);
  c = low_word (r.c + s.c);
  d = low_word (r.d + s.d);
  e = low_word (r.e + s.e);
}

sha1_block-loops :
    (r : Regs) (block : List ℕ)
    → sha1_block r block
      ≡ added r (loops r (reverse (extend_words 64 (reverse (big_endian_words 16 block)))))
unfolding sha1_block loops
sha1_block-loops r block = refl

pub sha1_block_lem : (r : Regs) (block : List ℕ) → sha1_block r block ≡ sha1_compress r block
unfolding sha1_compress
sha1_block_lem r block =
    let w = reverse (schedule 64 (reverse (high_first_words 16 block))) in
    sha1_block-loops r block
    ∙ (ap (λ (v : List ℕ). added r (loops r (reverse v)))
          (schedule_lem 64 (reverse (big_endian_words 16 block)))
        ∙ (ap (λ (v : List ℕ). added r (loops r (reverse (schedule 64 (reverse v)))))
              (words_lem 16 block)
            ∙ ap (added r) (loops_lem r w)))
