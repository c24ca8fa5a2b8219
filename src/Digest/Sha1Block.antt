-- ===== src/Digest/Sha1Block.antt =====
-- The words, the schedule and the eighty rounds of `SHA1ProcessMessageBlock` in src/digest.c.
use mathlib.Core.List.{reverse}
use aws_s3fs.Common.{
  ℕ, zero, suc, ◌+◌, ◌*◌, ◌%◌, bit_and, bit_or, bit_xor, List, [], ◌∷◌, foldl, take, drop, get_or,
}
use aws_s3fs.Digest.Word.{word_size, sha1_circular_shift, complement}
use aws_s3fs.Digest.State.{Regs}

-- `W[0]` to `W[15]`, the highest byte first.
unfoldable pub big_endian_words : ℕ → List ℕ → List ℕ
big_endian_words (suc n) (p ∷ q ∷ r ∷ s ∷ rest) =
    bit_or (bit_or (bit_or (p * 0x1000000) (q * 0x10000)) (r * 0x100)) s ∷ big_endian_words n rest
big_endian_words _ _ = []

-- The other words of `W`. The list is held with the last word first, so that `W[t - k]` stands at
-- the index `k - 1`.
unfoldable pub extend_words : ℕ → List ℕ → List ℕ
extend_words zero w = w
extend_words (suc n) w = extend_words n (
    sha1_circular_shift 1
      (bit_xor (bit_xor (bit_xor (get_or w 2 0) (get_or w 7 0)) (get_or w 13 0)) (get_or w 15 0))
    ∷ w)

-- The body of each of the four loops, with the loop's function and constant.
unfoldable pub sha1_step : (ℕ → ℕ → ℕ → ℕ) → ℕ → Regs → ℕ → Regs
sha1_step f k r w = record {
  a = bit_and ((sha1_circular_shift 5 r.a + f r.b r.c r.d + r.e + w + k) % word_size) 0xffffffff;
  b = r.a;
  c = sha1_circular_shift 30 r.b;
  d = r.c;
  e = r.d;
}

unfoldable pub choose : ℕ → ℕ → ℕ → ℕ
choose b c d = bit_or (bit_and b c) (bit_and (complement b) d)

unfoldable pub parity : ℕ → ℕ → ℕ → ℕ
parity b c d = bit_xor (bit_xor b c) d

unfoldable pub majority : ℕ → ℕ → ℕ → ℕ
majority b c d = bit_or (bit_or (bit_and b c) (bit_and b d)) (bit_and c d)

unfoldable pub sha1_block : Regs → List ℕ → Regs
unfolding big_endian_words extend_words sha1_step choose parity majority sha1_circular_shift
sha1_block r block =
    let w = reverse (extend_words 64 (reverse (big_endian_words 16 block))) in
    let r1 = foldl (sha1_step choose 0x5a827999) r (take 20 w) in
    let r2 = foldl (sha1_step parity 0x6ed9eba1) r1 (take 20 (drop 20 w)) in
    let r3 = foldl (sha1_step majority 0x8f1bbcdc) r2 (take 20 (drop 40 w)) in
    let r4 = foldl (sha1_step parity 0xca62c1d6) r3 (drop 60 w) in
    record {
      a = bit_and ((r.a + r4.a) % word_size) 0xffffffff;
      b = bit_and ((r.b + r4.b) % word_size) 0xffffffff;
      c = bit_and ((r.c + r4.c) % word_size) 0xffffffff;
      d = bit_and ((r.d + r4.d) % word_size) 0xffffffff;
      e = bit_and ((r.e + r4.e) % word_size) 0xffffffff;
    }
