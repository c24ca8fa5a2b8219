-- ===== src/Base64/Decoded.antt =====
-- What one group of the decoder's loop does, and how the decoder returns its block.
use native.Mathlib.Decide.{dec_lt}
use aws_s3fs.Common.{
  ℕ, zero, suc, ◌+◌, ◌-◌, ◌*◌, ◌/◌, ◌%◌, ◌≤◌, ◌<◌, bit_and, bit_or, ◌≡◌, refl, sym, ap, ◌∙◌, arith,
  true, Option, some, none, List, [], ◌∷◌, ◌++◌, map, replicate, length, length-append,
  append_assoc, append-nil,
}
use aws_s3fs.Common.Bits.{
  agree_below, agree_below→eq, and_30, and_0f, and_3c, and_03, or_4, or_16, or_64,
}
use aws_s3fs.Base64.Encode.{◌>>=◌}
use aws_s3fs.Base64.Decode.{
  DecodeState, sextet, is_accepted, compact4, write_bytes, copy_buffer, flush_decoded, read_block,
  return_block,
}
use aws_s3fs.Base64.Rfc.{rfc_char}

-- The table of the decoder undoes that of RFC 4648, and the loop accepts its characters.
pub sextet-rfc_char : (i : ℕ) → i < 64 → sextet (rfc_char i) ≡ i
unfolding agree_below sextet rfc_char
sextet-rfc_char = agree_below→eq (λ i. sextet (rfc_char i)) (λ i. i) 64 refl

pub is_accepted-rfc_char : (i : ℕ) → i < 64 → is_accepted (rfc_char i) ≡ true
unfolding is_accepted rfc_char
is_accepted-rfc_char i h = ground arith

module _ (a b c d : ℕ) (ha : a < 64) (hb : b < 64) (hc : c < 64) (hd : d < 64) where
  byte_0 : bit_or (a * 4) (bit_and b 0x30 / 16) % 256 ≡ a * 4 + b / 16
  byte_0 =
      let e : b / 16 * 16 / 16 ≡ b / 16 = omega arith in
      rw (and_30 b hb, e, or_4 a (b / 16) ha (omega arith)) (omega arith)

  byte_1 : bit_or (bit_and b 0x0f * 16) (bit_and c 0x3c / 4) % 256 ≡ b % 16 * 16 + c / 4
  byte_1 =
      let e : c / 4 * 4 / 4 ≡ c / 4 = omega arith in
      rw
        (and_0f b (omega arith), and_3c c hc, e, or_16 (b % 16) (c / 4) (omega arith) (omega arith))
        (omega arith)

  byte_2 : bit_or (bit_and c 0x03 * 64) d % 256 ≡ c % 4 * 64 + d
  byte_2 = rw (and_03 c (omega arith), or_64 (c % 4) d (omega arith) hd) (omega arith)

  pub compact4_lem :
      compact4 a b c d ≡ (a * 4 + b / 16) ∷ (b % 16 * 16 + c / 4) ∷ (c % 4 * 64 + d) ∷ []
  unfolding compact4
  compact4_lem = rw (byte_0, byte_1, byte_2)

-- The bounds that the loop keeps.
pub record Fits (size : ℕ) (st : DecodeState) : Type 0 where
  pub room : length st.build_buffer + 6 ≤ size
  pub allocated : length st.result + size ≤ st.alloc_count * size
  pub counted : st.decoded_length ≡ length st.result + length st.build_buffer

-- All that is decoded so far.
abbrev pub output : DecodeState → List ℕ
output st = st.result ++ st.build_buffer

abbrev pub grown : DecodeState → List ℕ → DecodeState
grown st bytes = record st {
  build_buffer = st.build_buffer ++ bytes;
  decoded_length = st.decoded_length + length bytes;
}

abbrev pub flushed : DecodeState → List ℕ → DecodeState
flushed st bytes = record {
  result = st.result ++ (st.build_buffer ++ bytes);
  alloc_count = st.alloc_count + 1;
  build_buffer = [];
  decoded_length = st.decoded_length + length bytes;
}

read_block-written : (block : List ℕ) → read_block (length block) block ≡ map some block
unfolding read_block
read_block-written [] = refl
read_block-written (b ∷ block) = ap (λ (t : List (Option ℕ)). some b ∷ t) (read_block-written block)

pub read_block-nil : (n : ℕ) → read_block n [] ≡ replicate n none
unfolding read_block
read_block-nil zero = refl
read_block-nil (suc n) = ap (λ (t : List (Option ℕ)). none ∷ t) (read_block-nil n)

module _ (size : ℕ) (wide : 10 ≤ size) (st : DecodeState) (fits : Fits size st) where
  pub write_group :
      (bytes : List ℕ) → length bytes ≤ 3 → write_bytes size bytes st ≡ some (grown st bytes)
  unfolding write_bytes
  write_group bytes h = ground arith

  module _ (bytes : List ℕ) (h : length bytes ≡ 3) where
    flush_full :
        size - 5 ≤ length (st.build_buffer ++ bytes)
        → flush_decoded size (grown st bytes) ≡ some (flushed st bytes)
    unfolding flush_decoded
    flush_full full = ground (arith, length-append st.build_buffer bytes)

    pub flush_kept :
        length (st.build_buffer ++ bytes) < size - 5
        → flush_decoded size (grown st bytes) ≡ some (grown st bytes)
    unfolding flush_decoded
    flush_kept small = ground arith

    -- One group of three bytes is written, and flushed if need be, within the bounds.
    pub group_step :
        (st' : DecodeState) × (flush_decoded size (grown st bytes) ≡ some st')
        × Fits size st'
        × (output st' ≡ output st ++ bytes)
    group_step = elim (dec_lt (length (st.build_buffer ++ bytes)) (size - 5)) [
      | yes small ↦ (
        grown st bytes,
        flush_kept small,
        omega (arith, length-append {0} st.build_buffer bytes),
        sym (append_assoc st.result st.build_buffer bytes),
      )
      | no full ↦ (
        flushed st bytes,
        flush_full (omega arith),
        omega (
          arith,
          length-append {0} st.build_buffer bytes,
          length-append {0} st.result (st.build_buffer ++ bytes),
        ),
        append-nil (st.result ++ (st.build_buffer ++ bytes))
            ∙ sym (append_assoc st.result st.build_buffer bytes),
      )
    ]

  -- The last bytes are written and copied, and the whole block is returned.
  pub finish_step :
      (bytes : List ℕ)
      → length bytes ≤ 3
      → (do st' ← write_bytes size bytes st; st'' ← copy_buffer size st'; return_block size st'')
        ≡ some (map some (output st ++ bytes))
  unfolding copy_buffer return_block
  finish_step bytes h =
      let all = st.result ++ (st.build_buffer ++ bytes) in
      rw (write_group bytes h) (
        ground (
          arith,
          length-append st.build_buffer bytes,
          length-append st.result (st.build_buffer ++ bytes),
          append_assoc st.result st.build_buffer bytes,
          read_block-written all,
        ))
