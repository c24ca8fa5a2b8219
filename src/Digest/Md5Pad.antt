-- ===== src/Digest/Md5Pad.antt =====
-- MD5 over a message that is fed in pieces: each call, the padding and the digest.
use native.Mathlib.Decide.{dec_lt}
use aws_s3fs.Common.{
  ℕ, suc, ◌+◌, ◌-◌, ◌*◌, ◌/◌, ◌%◌, ◌^◌, ◌≡◌, ◌≢◌, ◌≤◌, ◌<◌, refl, ap, ◌∙◌, arith, List, [], ◌∷◌,
  ◌++◌, bit_or, length, length-append, append_assoc, take, drop, take-append-drop, length-take,
  drop_of_length-le, take_of_length-le, eq-nil, take-replicate, if◌then◌else◌, leb, replicate,
  length-replicate,
}
use aws_s3fs.Common.Bits.{zero-or}
use aws_s3fs.Digest.State.{DigestState}
use aws_s3fs.Digest.Md5.{
  add_total, fill_buffer, process_rest, md5_process_continuous, md5_padding, fillbuf,
  little_endian_bytes,
}
use aws_s3fs.Digest.Chain.{low_first}
use aws_s3fs.Digest.Md5Run.{Running, fill_buffer-Running, fill_buffer_whole, process_rest-Running}

process_rest-nil : (st : DigestState) → process_rest [] st ≡ st
unfolding process_rest
process_rest-nil st = refl

module _ (st : DigestState) (input : List ℕ) where
  continuous_empty : length st.buffer ≡ 0 → md5_process_continuous input st ≡ process_rest input st
  unfolding md5_process_continuous
  continuous_empty e = ground arith

  continuous_short :
      length st.buffer ≢ 0
      → length input < 128 - length st.buffer
      → md5_process_continuous input st ≡ fill_buffer input st
  unfolding md5_process_continuous
  continuous_short e short = ground (
    arith,
    take_of_length-le (length input) input (omega arith),
    drop_of_length-le (length input) input (omega arith),
    process_rest-nil (fill_buffer input st),
  )

  continuous_long :
      length st.buffer ≢ 0
      → 128 - length st.buffer ≤ length input
      → md5_process_continuous input st
        ≡ process_rest
            (drop (128 - length st.buffer) input)
            (fill_buffer (take (128 - length st.buffer) input) st)
  unfolding md5_process_continuous
  continuous_long e long = ground arith

  -- One call of the input function on a state in the middle of a run.
  pub md5_process_continuous-Running :
      (message : List ℕ)
      → Running st message
      → length (message ++ input) < 2 ^ 32
      → Running (md5_process_continuous input st) (message ++ input)
  md5_process_continuous-Running message h fits = elim (dec_lt 0 (length st.buffer)) [
    | no empty ↦
        rw (continuous_empty (omega arith))
          (process_rest-Running st message h input fits (eq-nil st.buffer (omega arith)))
    | yes some_left ↦ elim (dec_lt (length input) (128 - length st.buffer)) [
      | yes short ↦
          rw (continuous_short (omega arith) short) (fill_buffer-Running st message h input fits)
      | no long ↦
          let k = 128 - length st.buffer in
          let front = take k input in
          let rest = drop k input in
          let len = length-take k input (omega arith) in
          let joined : (message ++ front) ++ rest ≡ message ++ input =
            append_assoc message front rest
            ∙ ap (λ (t : List ℕ). message ++ t) (take-append-drop k input) in
          let all = ap length joined in
          let front_fits : length (message ++ front) < 2 ^ 32 =
            omega (arith, all, length-append {0} (message ++ front) rest) in
          let whole =
            fill_buffer_whole st message h front front_fits
              (length-append st.buffer front ∙ omega (arith, len, h.room)) in
          rw (continuous_long (omega arith) (omega arith), ← joined)
            (process_rest-Running (fill_buffer front st) (message ++ front)
              (fill_buffer-Running st message h front front_fits) rest (rw joined fits) whole)
    ]
  ]

take-fillbuf : (k : ℕ) → k < 64 → take (suc k) fillbuf ≡ 0x80 ∷ replicate k 0
take-fillbuf k h = ap (λ (t : List ℕ). 0x80 ∷ t) (take-replicate k 63 0 (omega arith))

pub totals_low_first :
    (n : ℕ)
    → n < 2 ^ 32
    → little_endian_bytes (n * 2 ^ 3 % 2 ^ 32)
        ++ little_endian_bytes (bit_or (0 * 2 ^ 3 % 2 ^ 32) (n / 2 ^ 29))
      ≡ low_first (8 * n)
unfolding little_endian_bytes low_first
totals_low_first n h =
    let a0 : n * 8 % 4294967296 % 256 ≡ 8 * n / 256 ^ 0 % 256 = omega arith in
    let a1 : n * 8 % 4294967296 / 256 % 256 ≡ 8 * n / 256 ^ 1 % 256 = omega arith in
    let a2 : n * 8 % 4294967296 / 65536 % 256 ≡ 8 * n / 256 ^ 2 % 256 = omega arith in
    let a3 : n * 8 % 4294967296 / 16777216 % 256 ≡ 8 * n / 256 ^ 3 % 256 = omega arith in
    let a4 : n / 536870912 % 256 ≡ 8 * n / 256 ^ 4 % 256 = omega arith in
    let a5 : n / 536870912 / 256 % 256 ≡ 8 * n / 256 ^ 5 % 256 = omega arith in
    let a6 : n / 536870912 / 65536 % 256 ≡ 8 * n / 256 ^ 6 % 256 = omega arith in
    let a7 : n / 536870912 / 16777216 % 256 ≡ 8 * n / 256 ^ 7 % 256 = omega arith in
    rw zero-or (ground (arith, a0, a1, a2, a3, a4, a5, a6, a7))

pub add_total_lem :
    (st : DigestState) (n : ℕ)
    → st.total_0 + length st.buffer ≡ n
    → st.total_1 ≡ 0
    → n < 2 ^ 32
    → add_total (length st.buffer) st ≡ record st { total_0 = n; total_1 = 0 }
unfolding add_total
add_total_lem st n low high fits = ground arith

pub length-low_first : (n : ℕ) → length (low_first n) ≡ 8
unfolding low_first
length-low_first n = refl

pub length-zeros : (n : ℕ) → length (replicate {A = ℕ} n 0) ≡ n
length-zeros n = length-replicate n 0

module _ (st : DigestState) (message : List ℕ) (h : Running st message)
    (fits : length message < 2 ^ 32) where
  unfoldable pub zeros : ℕ
  zeros = (119 - length message % 64) % 64

  unfoldable pub tail : List ℕ
  unfolding zeros
  tail = 0x80 ∷ (replicate zeros 0 ++ low_first (8 * length message))

  -- The padding of the code has one bit and the right number of zeros, also where a whole block is
  -- still buffered.
  pub padding_eq : take (md5_padding (length st.buffer)) fillbuf ≡ 0x80 ∷ replicate zeros 0
  unfolding md5_padding zeros
  padding_eq =
      let a = h.absorbed in
      let e : (if leb 56 (length st.buffer)
            then 64 + 56 - length st.buffer
            else 56 - length st.buffer)
          ≡ suc ((119 - length message % 64) % 64) =
        ground (arith, h.room, a.whole, ap length a.split, length-append a.done st.buffer) in
      rw e (take-fillbuf ((119 - length message % 64) % 64) (omega arith))
