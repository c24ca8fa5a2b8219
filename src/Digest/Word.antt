-- ===== src/Digest/Word.antt =====
-- The 32-bit operations of src/digest.c on a little-endian machine: ROTATE, SHA1CircularShift,
-- MAKE_LITTLE_ENDIAN and the functions of the rounds.
use aws_s3fs.Common.{ℕ, ◌-◌, ◌*◌, ◌/◌, ◌%◌, ◌^◌, bit_and, bit_or, bit_xor}

abbrev pub word_size : ℕ
word_size = 2 ^ 32

unfoldable pub rotate : ℕ → ℕ → ℕ
rotate w s = bit_or (w * 2 ^ s % word_size) (w / 2 ^ (32 - s))

unfoldable pub sha1_circular_shift : ℕ → ℕ → ℕ
sha1_circular_shift bits word =
    bit_or (bit_and (word * 2 ^ bits % word_size) 0xffffffff) (word / 2 ^ (32 - bits))

-- On a little-endian machine the word is left as it is.
abbrev pub make_little_endian : ℕ → ℕ
make_little_endian n = n

-- `~x` on `uint32_t`
abbrev pub complement : ℕ → ℕ
complement x = bit_xor x 0xffffffff

unfoldable pub ff : ℕ → ℕ → ℕ → ℕ
ff b c d = bit_xor d (bit_and b (bit_xor c d))

unfoldable pub fg : ℕ → ℕ → ℕ → ℕ
fg b c d = ff d b c

unfoldable pub fh : ℕ → ℕ → ℕ → ℕ
fh b c d = bit_xor (bit_xor b c) d

unfoldable pub fi : ℕ → ℕ → ℕ → ℕ
fi b c d = bit_xor c (bit_or b (complement d))
