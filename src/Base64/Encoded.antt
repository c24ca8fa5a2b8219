-- ===== src/Base64/Encoded.antt =====
-- `EncodeBase64` against RFC 4648: what one group of the loop does, and the whole run.
use aws_s3fs.Common.{
  ℕ, ◌+◌, ◌-◌, ◌*◌, ◌/◌, ◌%◌, ◌≤◌, ◌<◌, bit_and, bit_or, ◌≡◌, sym, ◌∙◌, arith, some, List, [], ◌∷◌,
  ◌++◌, map, length, length-append, append_assoc, append-nil,
}
use native.Mathlib.Decide.{dec_lt}
use aws_s3fs.Common.Bits.{and_fc, and_03, and_f0, and_0f, and_c0, and_3f, or_16, or_4}
use aws_s3fs.Base64.Encode.{
  EncodeState, to_char, expand3, write_chars, append_buffer, flush_encoded, ◌>>=◌,
}
use aws_s3fs.Base64.Rfc.{rfc_char, rfc4648, to_char-eq-rfc_char}

abbrev pub IsByte : ℕ → Type 0
IsByte b = b < 256

-- The characters of one full group by the masks of the code.
abbrev pub group_chars : ℕ → ℕ → ℕ → List ℕ
group_chars a b c =
    rfc_char (a / 4)
    ∷ rfc_char (a % 4 * 16 + b / 16)
    ∷ rfc_char (b % 16 * 4 + c / 64)
    ∷ rfc_char (c % 64)
    ∷ []

module _ (a b c : ℕ) (ha : IsByte a) (hb : IsByte b) (hc : IsByte c) where
  sextet_0 : bit_and a 0xfc / 4 ≡ a / 4
  sextet_0 = rw (and_fc a ha) (omega arith)

  sextet_1 : bit_or (bit_and a 0x03 * 16) (bit_and b 0xf0 / 16) ≡ a % 4 * 16 + b / 16
  sextet_1 =
      let e : b / 16 * 16 / 16 ≡ b / 16 = omega arith in
      rw (and_03 a ha, and_f0 b hb, e) (or_16 (a % 4) (b / 16) (omega arith) (omega arith))

  sextet_2 : bit_or (bit_and b 0x0f * 4) (bit_and c 0xc0 / 64) ≡ b % 16 * 4 + c / 64
  sextet_2 =
      let e : c / 64 * 64 / 64 ≡ c / 64 = omega arith in
      rw (and_0f b hb, and_c0 c hc, e) (or_4 (b % 16) (c / 64) (omega arith) (omega arith))

  pub map-expand3 : map to_char (expand3 a b c) ≡ group_chars a b c
  unfolding expand3
  map-expand3 = rw (
    sextet_0,
    sextet_1,
    sextet_2,
    and_3f c hc,
    to_char-eq-rfc_char (a / 4) (omega arith),
    to_char-eq-rfc_char (a % 4 * 16 + b / 16) (omega arith),
    to_char-eq-rfc_char (b % 16 * 4 + c / 64) (omega arith),
    to_char-eq-rfc_char (c % 64) (omega arith),
  )

  pub rfc4648-group :
      (rest : List ℕ) → rfc4648 (a ∷ b ∷ c ∷ rest) ≡ group_chars a b c ++ rfc4648 rest
  unfolding rfc4648
  rfc4648-group rest =
      let e0 : (a * 65536 + b * 256 + c) / 262144 ≡ a / 4 = omega arith in
      let e1 : (a * 65536 + b * 256 + c) / 4096 % 64 ≡ a % 4 * 16 + b / 16 = omega arith in
      let e2 : (a * 65536 + b * 256 + c) / 64 % 64 ≡ b % 16 * 4 + c / 64 = omega arith in
      let e3 : (a * 65536 + b * 256 + c) % 64 ≡ c % 64 = omega arith in rw (e0, e1, e2, e3)

-- The bounds that the loop keeps: four characters and the terminator still fit the buffer, and
-- the block has a whole buffer's room behind `result`.
pub record Fits (size : ℕ) (st : EncodeState) : Type 0 where
  pub room : length st.build_buffer + 7 ≤ size
  pub allocated : length st.result + size ≤ st.alloc_count * size

-- All that is encoded so far.
abbrev pub output : EncodeState → List ℕ
output st = st.result ++ st.build_buffer

-- The two states that a group can end in.
abbrev pub grown : EncodeState → List ℕ → EncodeState
grown st chars = record st { build_buffer = st.build_buffer ++ chars }

abbrev pub flushed : EncodeState → List ℕ → EncodeState
flushed st chars = record {
  result = st.result ++ (st.build_buffer ++ chars);
  alloc_count = st.alloc_count + 1;
  build_buffer = [];
}

module _ (size : ℕ) (wide : 10 ≤ size) (st : EncodeState) (fits : Fits size st) where
  pub write_group :
      (chars : List ℕ) → length chars ≡ 4 → write_chars size chars st ≡ some (grown st chars)
  unfolding write_chars
  write_group chars h = ground arith

  module _ (chars : List ℕ) (h : length chars ≡ 4) where
    flush_full :
        size - 6 ≤ length (st.build_buffer ++ chars)
        → flush_encoded size (grown st chars) ≡ some (flushed st chars)
    unfolding flush_encoded
    flush_full full = ground (arith, length-append st.build_buffer chars)

    pub flush_kept :
        length (st.build_buffer ++ chars) < size - 6
        → flush_encoded size (grown st chars) ≡ some (grown st chars)
    unfolding flush_encoded
    flush_kept small = ground arith

    -- One full group is written, and flushed if need be, within the bounds.
    pub group_step :
        (st' : EncodeState) × (flush_encoded size (grown st chars) ≡ some st')
        × Fits size st'
        × (output st' ≡ output st ++ chars)
    group_step = elim (dec_lt (length (st.build_buffer ++ chars)) (size - 6)) [
      | yes small ↦ (
        grown st chars,
        flush_kept small,
        omega (arith, length-append {0} st.build_buffer chars),
        sym (append_assoc st.result st.build_buffer chars),
      )
      | no full ↦ (
        flushed st chars,
        flush_full (omega arith),
        omega (
          arith,
          length-append {0} st.build_buffer chars,
          length-append {0} st.result (st.build_buffer ++ chars),
        ),
        append-nil (st.result ++ (st.build_buffer ++ chars))
            ∙ sym (append_assoc st.result st.build_buffer chars),
      )
    ]

  -- The last group, of one or two bytes, is written and appended within the bounds.
  pub finish_step :
      (chars : List ℕ)
      → length chars ≡ 4
      → (do st' ← write_chars size chars st; st'' ← append_buffer size st'; some st''.result)
        ≡ some (output st ++ chars)
  unfolding append_buffer
  finish_step chars h = rw (write_group chars h) (
      ground
        (arith, length-append st.build_buffer chars, append_assoc st.result st.build_buffer chars))
