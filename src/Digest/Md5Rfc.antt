-- ===== src/Digest/Md5Rfc.antt =====
-- The compression of a block in RFC 1321, section 3.4, by the number of the step.
use aws_s3fs.Common.{
  ℕ, zero, suc, ◌+◌, ◌-◌, ◌*◌, ◌/◌, ◌%◌, ◌^◌, bit_and, bit_or, bit_xor, List, [], ◌∷◌, foldl,
  get_or, ltb, if◌then◌else◌,
}
use aws_s3fs.Digest.State.{Regs}

-- The integer part of 2 ^ 32 times the absolute value of the sine of 1 to 64.
abbrev sines : List ℕ
sines =
    0xd76aa478 ∷ 0xe8c7b756 ∷ 0x242070db ∷ 0xc1bdceee ∷ 0xf57c0faf ∷ 0x4787c62a ∷ 0xa8304613
    ∷ 0xfd469501 ∷ 0x698098d8 ∷ 0x8b44f7af ∷ 0xffff5bb1 ∷ 0x895cd7be ∷ 0x6b901122 ∷ 0xfd987193
    ∷ 0xa679438e ∷ 0x49b40821 ∷ 0xf61e2562 ∷ 0xc040b340 ∷ 0x265e5a51 ∷ 0xe9b6c7aa ∷ 0xd62f105d
    ∷ 0x02441453 ∷ 0xd8a1e681 ∷ 0xe7d3fbc8 ∷ 0x21e1cde6 ∷ 0xc33707d6 ∷ 0xf4d50d87 ∷ 0x455a14ed
    ∷ 0xa9e3e905 ∷ 0xfcefa3f8 ∷ 0x676f02d9 ∷ 0x8d2a4c8a ∷ 0xfffa3942 ∷ 0x8771f681 ∷ 0x6d9d6122
    ∷ 0xfde5380c ∷ 0xa4beea44 ∷ 0x4bdecfa9 ∷ 0xf6bb4b60 ∷ 0xbebfbc70 ∷ 0x289b7ec6 ∷ 0xeaa127fa
    ∷ 0xd4ef3085 ∷ 0x04881d05 ∷ 0xd9d4d039 ∷ 0xe6db99e5 ∷ 0x1fa27cf8 ∷ 0xc4ac5665 ∷ 0xf4292244
    ∷ 0x432aff97 ∷ 0xab9423a7 ∷ 0xfc93a039 ∷ 0x655b59c3 ∷ 0x8f0ccc92 ∷ 0xffeff47d ∷ 0x85845dd1
    ∷ 0x6fa87e4f ∷ 0xfe2ce6e0 ∷ 0xa3014314 ∷ 0x4e0811a1 ∷ 0xf7537e82 ∷ 0xbd3af235 ∷ 0x2ad7d2bb
    ∷ 0xeb86d391 ∷ []

-- `X <<< s`
abbrev rotate_left : ℕ → ℕ → ℕ
rotate_left x s = bit_or (x * 2 ^ s % 2 ^ 32) (x / 2 ^ (32 - s))

-- F, G, H and I; F and G in the equal form with two exclusive ors.
abbrev mix : ℕ → ℕ → ℕ → ℕ → ℕ
mix i x y z =
    if ltb i 16
    then bit_xor z (bit_and x (bit_xor y z))
    else (if ltb i 32
        then bit_xor y (bit_and z (bit_xor x y))
        else (if ltb i 48
            then bit_xor (bit_xor x y) z
            else bit_xor y (bit_or x (bit_xor z 0xffffffff))))

abbrev shift : ℕ → ℕ
shift i =
    get_or
      (get_or
        ((7 ∷ 12 ∷ 17 ∷ 22 ∷ [])
          ∷ (5 ∷ 9 ∷ 14 ∷ 20 ∷ [])
          ∷ (4 ∷ 11 ∷ 16 ∷ 23 ∷ [])
          ∷ (6 ∷ 10 ∷ 15 ∷ 21 ∷ [])
          ∷ [])
        (i / 16) [])
      (i % 4) 0

-- The word that a step reads.
abbrev index : ℕ → ℕ
index i =
    if ltb i 16
    then i
    else (if ltb i 32
        then (5 * i + 1) % 16
        else (if ltb i 48 then (3 * i + 5) % 16 else 7 * i % 16))

unfoldable pub md5_step : List ℕ → Regs → ℕ → Regs
md5_step x r i =
    let sum = (r.a + mix i r.b r.c r.d + get_or x (index i) 0 + get_or sines i 0) % 2 ^ 32 in
    record r { a = r.d; b = (rotate_left sum (shift i) + r.b) % 2 ^ 32; c = r.b; d = r.c }

abbrev pub from_to : ℕ → ℕ → List ℕ
from_to start zero = []
from_to start (suc n) = start ∷ from_to (start + 1) n

-- The words of a block, the lowest byte of each first.
unfoldable pub low_first_words : ℕ → List ℕ → List ℕ
low_first_words (suc n) (p ∷ q ∷ r ∷ s ∷ rest) =
    (p + 256 * (q + 256 * (r + 256 * s))) ∷ low_first_words n rest
low_first_words _ _ = []

-- The registers A, B, C, D before the first block.
abbrev pub md5_start : Regs
md5_start = record {
  a = 0x01 + 256 * (0x23 + 256 * (0x45 + 256 * 0x67));
  b = 0x89 + 256 * (0xab + 256 * (0xcd + 256 * 0xef));
  c = 0xfe + 256 * (0xdc + 256 * (0xba + 256 * 0x98));
  d = 0x76 + 256 * (0x54 + 256 * (0x32 + 256 * 0x10));
  e = 0xc3d2e1f0;
}

unfoldable pub md5_compress : Regs → List ℕ → Regs
md5_compress r block =
    let x = low_first_words 16 block in
    let t = foldl (md5_step x) r (from_to 0 64) in
    record r {
      a = (t.a + r.a) % 2 ^ 32;
      b = (t.b + r.b) % 2 ^ 32;
      c = (t.c + r.c) % 2 ^ 32;
      d = (t.d + r.d) % 2 ^ 32;
    }
