-- ===== src/Grant/Decimal.antt =====
-- An integer that is printed in a request and read again by `GetIntParameter` of src/grant.c.
use aws_s3fs.Common.{
  ℕ, zero, suc, ◌+◌, ◌-◌, ◌*◌, ◌/◌, ◌%◌, ◌^◌, ◌≡◌, ◌≤◌, ◌<◌, length, length-append, refl, ap, ◌∙◌,
  arith, true, false, Bool-cases, inl, inr, List, [], ◌∷◌, ◌++◌, append_assoc, leb, ltb,
}
use native.Mathlib.Nat.{pow-succ'}
use aws_s3fs.Base64.Encode.{codes}
use aws_s3fs.Base64.Decode.{is_alnum}
use aws_s3fs.Grant.Params.{
  is_digit, skip_to_alnum, read_digits, number, ends_number, get_int_parameter,
}
use aws_s3fs.Grant.Requests.{digits_within, decimal}

read_one :
    (value d : ℕ) (s : List ℕ)
    → d < 10
    → read_digits value ((d + b'0') ∷ s) ≡ read_digits (value * 10 + d) s
unfolding read_digits
read_one value d s h =
    let digit : is_digit (d + b'0') ≡ true = ground (arith, h) in
    let back : (d + b'0') - b'0' ≡ d = omega arith in rw (digit, back) refl

pub read_digits_within :
    (more n : ℕ) (s : List ℕ)
    → n < 10 ^ more
    → read_digits 0 (digits_within more n ++ s) ≡ read_digits n s
unfolding digits_within
read_digits_within zero n s h = let e : n ≡ 0 = omega (arith, h) in rw e refl
read_digits_within (suc more) n s h = elim (Bool-cases (ltb n 10)) [
  | inl small ↦
      let d : n < 10 = ground (arith, small) in
      let e : 0 * 10 + n ≡ n = omega arith in
      rw small (read_one 0 n s d ∙ ap (λ v. read_digits v s) e)
  | inr large ↦
      let front = digits_within more (n / 10) in
      let fits : n / 10 < 10 ^ more =
        (let p : 10 ^ suc more ≡ 10 * 10 ^ more = pow-succ' 10 more in omega (arith, h, p)) in
      let e : n / 10 * 10 + n % 10 ≡ n = omega arith in
      rw (large, append_assoc front ((n % 10 + b'0') ∷ []) s)
        (read_digits_within more (n / 10) ((n % 10 + b'0') ∷ s) fits
          ∙ (read_one (n / 10) (n % 10) s (omega arith) ∙ ap (λ v. read_digits v s) e))
]

skip_one : (d : ℕ) (s : List ℕ) → d < 10 → skip_to_alnum ((d + b'0') ∷ s) ≡ (d + b'0') ∷ s
unfolding skip_to_alnum
skip_one d s h = let alnum : is_alnum (d + b'0') ≡ true = ground (arith, h) in rw alnum refl

skip_digits_within :
    (more n : ℕ) (s : List ℕ)
    → skip_to_alnum (digits_within (suc more) n ++ s) ≡ digits_within (suc more) n ++ s
unfolding digits_within
skip_digits_within zero n s = elim (Bool-cases (ltb n 10)) [
  | inl small ↦ rw small (skip_one n s (ground (arith, small)))
  | inr large ↦ rw large (skip_one (n % 10) s (omega arith))
]
skip_digits_within (suc more) n s = elim (Bool-cases (ltb n 10)) [
  | inl small ↦ rw small (skip_one n s (ground (arith, small)))
  | inr large ↦
      rw (large, append_assoc (digits_within (suc more) (n / 10)) ((n % 10 + b'0') ∷ []) s)
        (skip_digits_within more (n / 10) ((n % 10 + b'0') ∷ s))
]

read_colon : (n : ℕ) (s : List ℕ) → read_digits n (b':' ∷ s) ≡ (n, b':' ∷ s)
unfolding read_digits
read_colon n s = refl

-- An integer that an `int` holds, printed before a colon, is read back by `GetIntParameter`, which leaves off
-- at the colon.
pub get_int_parameter-decimal :
    (n : ℕ) (s : List ℕ)
    → n < 2147483648
    → get_int_parameter (decimal n ++ (codes ":" ++ s)) ≡ (number n, codes ":" ++ s)
unfolding get_int_parameter decimal ends_number
get_int_parameter-decimal n s h =
    let skip = skip_digits_within 9 n (b':' ∷ s) in
    let read = read_digits_within 10 n (b':' ∷ s) (omega (arith, h)) in
    let fits : leb 2147483648 n ≡ false = ground (arith, h) in
    rw (skip, read, read_colon n s, fits) refl

length-digits_within : (more k n : ℕ) → n < 10 ^ suc k → length (digits_within more n) ≤ suc k
unfolding digits_within
length-digits_within zero k n h = omega arith
length-digits_within (suc more) zero n h =
    let small : ltb n 10 ≡ true = ground (arith, h) in rw small (omega arith)
length-digits_within (suc more) (suc k) n h =
    let p : 10 ^ suc (suc k) ≡ 10 * 10 ^ suc k = pow-succ' 10 (suc k) in
    let rest = length-digits_within more k (n / 10) (omega (arith, h, p)) in
    let longer = length-append {0} (digits_within more (n / 10)) ((n % 10 + b'0') ∷ []) in
    elim (Bool-cases (ltb n 10)) [
      | inl small ↦ rw small (omega arith)
      | inr large ↦ rw large (omega (arith, rest, longer))
    ]

pub length-decimal : (n : ℕ) → n < 100000 → length (decimal n) ≤ 5
unfolding decimal
length-decimal n h = length-digits_within 10 4 n (omega (arith, h))
