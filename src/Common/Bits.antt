-- ===== src/Common/Bits.antt =====
-- Masks on one byte as arithmetic; each is a table checked by evaluation.
use Prim.Native.Nat.{
  ℕ, zero, suc, ◌+◌, ◌*◌, ◌/◌, ◌%◌, ◌^◌, ◌≤◌, ◌<◌, min, digits, bit_and, bit_or, bit_and-bitwise,
  bit_or-bitwise,
}
use mathlib.Core.Path.{◌≡◌, refl, ◌∙◌, sym}
use mathlib.Core.Bool.{Bool, true, ◌&&◌}
use native.Mathlib.Omega.{arith}
use aws_s3fs.Common.Tests.{◌==◌}

-- Do two functions agree on every number below `n`?
unfoldable pub agree_below : (f g : ℕ → ℕ) → ℕ → Bool
agree_below f g zero = true
agree_below f g (suc n) = (f n == g n) && agree_below f g n

pub agree_below→eq : (f g : ℕ → ℕ) (n : ℕ) → agree_below f g n ≡ true → (i : ℕ) → i < n → f i ≡ g i
unfolding agree_below
agree_below→eq f g zero e i h = absurd (omega arith)
agree_below→eq f g (suc n) e i h = ground (arith, agree_below→eq f g n (ground arith) i)

pub and_fc : (b : ℕ) → b < 256 → bit_and b 0xfc ≡ b / 4 * 4
unfolding agree_below
and_fc = agree_below→eq _ _ 256 refl

pub and_03 : (b : ℕ) → b < 256 → bit_and b 0x03 ≡ b % 4
unfolding agree_below
and_03 = agree_below→eq _ _ 256 refl

pub and_f0 : (b : ℕ) → b < 256 → bit_and b 0xf0 ≡ b / 16 * 16
unfolding agree_below
and_f0 = agree_below→eq _ _ 256 refl

pub and_0f : (b : ℕ) → b < 256 → bit_and b 0x0f ≡ b % 16
unfolding agree_below
and_0f = agree_below→eq _ _ 256 refl

pub and_c0 : (b : ℕ) → b < 256 → bit_and b 0xc0 ≡ b / 64 * 64
unfolding agree_below
and_c0 = agree_below→eq _ _ 256 refl

pub and_3f : (b : ℕ) → b < 256 → bit_and b 0x3f ≡ b % 64
unfolding agree_below
and_3f = agree_below→eq _ _ 256 refl

pub and_30 : (b : ℕ) → b < 64 → bit_and b 0x30 ≡ b / 16 * 16
unfolding agree_below
and_30 = agree_below→eq _ _ 64 refl

pub and_3c : (b : ℕ) → b < 64 → bit_and b 0x3c ≡ b / 4 * 4
unfolding agree_below
and_3c = agree_below→eq _ _ 64 refl

-- Disjoint bit fields are joined by `|` as they are by `+`.
or_split_4 : (n : ℕ) → n < 256 → bit_or (n / 4 * 4) (n % 4) ≡ n
unfolding agree_below
or_split_4 n h = agree_below→eq (λ n. bit_or (n / 4 * 4) (n % 4)) (λ n. n) 256 refl n h

or_split_16 : (n : ℕ) → n < 256 → bit_or (n / 16 * 16) (n % 16) ≡ n
unfolding agree_below
or_split_16 n h = agree_below→eq (λ n. bit_or (n / 16 * 16) (n % 16)) (λ n. n) 256 refl n h

or_split_64 : (n : ℕ) → n < 256 → bit_or (n / 64 * 64) (n % 64) ≡ n
unfolding agree_below
or_split_64 n h = agree_below→eq (λ n. bit_or (n / 64 * 64) (n % 64)) (λ n. n) 256 refl n h

pub or_4 : (x y : ℕ) → x < 64 → y < 4 → bit_or (x * 4) y ≡ x * 4 + y
or_4 x y hx hy =
    let ex : (x * 4 + y) / 4 * 4 ≡ x * 4 = omega arith in
    let ey : (x * 4 + y) % 4 ≡ y = omega arith in
    (λ i. bit_or (sym ex i) (sym ey i)) ∙ or_split_4 (x * 4 + y) (omega arith)

pub or_16 : (x y : ℕ) → x < 16 → y < 16 → bit_or (x * 16) y ≡ x * 16 + y
or_16 x y hx hy =
    let ex : (x * 16 + y) / 16 * 16 ≡ x * 16 = omega arith in
    let ey : (x * 16 + y) % 16 ≡ y = omega arith in
    (λ i. bit_or (sym ex i) (sym ey i)) ∙ or_split_16 (x * 16 + y) (omega arith)

pub or_64 : (x y : ℕ) → x < 4 → y < 64 → bit_or (x * 64) y ≡ x * 64 + y
or_64 x y hx hy =
    let ex : (x * 64 + y) / 64 * 64 ≡ x * 64 = omega arith in
    let ey : (x * 64 + y) % 64 ≡ y = omega arith in
    (λ i. bit_or (sym ex i) (sym ey i)) ∙ or_split_64 (x * 64 + y) (omega arith)

-- A mask of `k` ones keeps every number of at most `k` binary digits.
abbrev ones : ℕ → ℕ
ones zero = 0
ones (suc k) = ones k * 2 + 1

abbrev digits_bound : ℕ → ℕ
digits_bound zero = 1
digits_bound (suc k) = digits_bound k * 2

and_ones :
    (fuel k a : ℕ) → a ≤ fuel → a < digits_bound k → digits (λ _. zero) min fuel a (ones k) ≡ a
and_ones zero k a h lt = omega arith
and_ones (suc fuel) k zero h lt = refl
and_ones (suc fuel) zero (suc a) h lt = absurd (omega arith)
and_ones (suc fuel) (suc k) (suc a) h lt =
    let e : (ones k * 2 + 1) / 2 ≡ ones k = omega arith in
    let o : (ones k * 2 + 1) % 2 ≡ 1 = omega arith in
    let ih = and_ones fuel k (suc a / 2) (omega arith) (omega arith) in rw (e, o, ih) (omega arith)

-- The `k` lowest binary digits of a number.
abbrev low_digits : ℕ → ℕ → ℕ
low_digits zero a = 0
low_digits (suc k) a = low_digits k (a / 2) * 2 + a % 2

low_digits-zero : (k : ℕ) → low_digits k 0 ≡ 0
low_digits-zero zero = refl
low_digits-zero (suc k) = omega (arith, low_digits-zero k)

and_low : (fuel k a : ℕ) → a ≤ fuel → digits (λ _. zero) min fuel a (ones k) ≡ low_digits k a
and_low zero k zero h = sym (low_digits-zero k)
and_low zero k (suc a) h = absurd (omega arith)
and_low (suc fuel) k zero h = sym (low_digits-zero k)
and_low (suc fuel) zero (suc a) h =
    let ih = and_low fuel 0 (suc a / 2) (omega arith) in rw ih (omega arith)
and_low (suc fuel) (suc k) (suc a) h =
    let e : (ones k * 2 + 1) / 2 ≡ ones k = omega arith in
    let o : (ones k * 2 + 1) % 2 ≡ 1 = omega arith in
    let ih = and_low fuel k (suc a / 2) (omega arith) in rw (e, o, ih) (omega arith)

pub and_word : (a : ℕ) → a < 2 ^ 32 → bit_and a 0xffffffff ≡ a
and_word a h = bit_and-bitwise a 0xffffffff ∙ and_ones a 32 a (omega arith) h

-- The lowest byte of any number.
pub and_byte : (a : ℕ) → bit_and a 0xff ≡ a % 256
and_byte a = bit_and-bitwise a 0xff ∙ and_low a 8 a (omega arith) ∙ omega arith

pub and_ff : (b : ℕ) → b < 256 → bit_and b 0xff ≡ b
and_ff b h = and_byte b ∙ omega arith

pub zero-or : (b : ℕ) → bit_or 0 b ≡ b
zero-or b = bit_or-bitwise 0 b
