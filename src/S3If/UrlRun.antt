-- ===== src/S3If/UrlRun.antt =====
-- What `EncodeUrl` of src/s3if.c promises: a text that decodes to the path, in the block allocated.
use aws_s3fs.Common.{
  ℕ, zero, suc, ◌+◌, ◌-◌, ◌*◌, ◌≡◌, ◌≤◌, ◌<◌, refl, ap, ◌∙◌, arith, true, false, Bool-cases, inl,
  inr, List, [], ◌∷◌, ◌++◌, length, length-append, leb, ◌==◌, if◌then◌else◌, All, bit_and, ◌/◌,
}
use aws_s3fs.Common.Bits.{agree_below, agree_below→eq}
use aws_s3fs.Base64.Encoded.{IsByte}
use aws_s3fs.S3If.Url.{is_safe, hex_char, encode_char, encode_url}

-- The decoding of a form's text, character by character: `+` is a space, and `%` stands before two
-- hexadecimal digits. The state is the digits still awaited and the value of those read.
unfoldable pub hex_value : ℕ → ℕ
hex_value ch = if leb ch b'9' then ch - b'0' else ch - 55

unfoldable pub decode_from : ℕ → ℕ → List ℕ → List ℕ
decode_from awaited read [] = []
decode_from zero read (ch ∷ text) =
    if ch == b'+'
    then b' ' ∷ decode_from 0 0 text
    else (if ch == b'%' then decode_from 2 0 text else ch ∷ decode_from 0 0 text)
decode_from (suc zero) read (ch ∷ text) = (read * 16 + hex_value ch) ∷ decode_from 0 0 text
decode_from (suc (suc awaited)) read (ch ∷ text) =
    decode_from (suc awaited) (read * 16 + hex_value ch) text

unfoldable pub decode_url : List ℕ → List ℕ
decode_url text = decode_from 0 0 text

-- A character that is written as it is, is not one that the decoder gives a meaning.
safe_plain : (ch : ℕ) → is_safe ch ≡ true → ((ch == b'+') ≡ false) × ((ch == b'%') ≡ false)
safe_plain ch safe = (ground (arith, safe), ground (arith, safe))

digits :
    (ch : ℕ)
    → ch < 256
    → (0 * 16 + hex_value (hex_char (bit_and (ch / 16) 0x0f))) * 16
        + hex_value (hex_char (bit_and ch 0x0f))
      ≡ ch
unfolding agree_below hex_value
digits =
    agree_below→eq
      (λ ch.
        (0 * 16 + hex_value (hex_char (bit_and (ch / 16) 0x0f))) * 16
        + hex_value (hex_char (bit_and ch 0x0f)))
      (λ ch. ch) 256 refl

decode-encode_char :
    (ch : ℕ) (text : List ℕ)
    → IsByte ch
    → decode_from 0 0 (encode_char ch ++ text) ≡ ch ∷ decode_from 0 0 text
unfolding encode_char decode_from
decode-encode_char ch text byte = elim (Bool-cases (is_safe ch)) [
  | inl safe ↦ let (plus, percent) = safe_plain ch safe in rw (safe, plus, percent) refl
  | inr unsafe ↦ elim (Bool-cases (ch == b' ')) [
    | inl space ↦ let e : ch ≡ b' ' = ground (arith, space) in rw (unsafe, space, e) refl
    | inr other ↦ rw (unsafe, other) (ap (λ (c : ℕ). c ∷ decode_from 0 0 text) (digits ch byte))
  ]
]

-- An encoded path of bytes decodes to the path.
pub decode_url-encode_url : (url : List ℕ) → All IsByte url → decode_url (encode_url url) ≡ url
unfolding decode_url encode_url decode_from
decode_url-encode_url [] h = refl
decode_url-encode_url (ch ∷ url) (h, hs) =
    decode-encode_char ch (encode_url url) h
    ∙ ap (λ (l : List ℕ). ch ∷ l) (decode_url-encode_url url hs)

length-encode_char : (ch : ℕ) → length (encode_char ch) ≤ 3
unfolding encode_char
length-encode_char ch = ground arith

-- The encoded path and its terminator fit the block of three characters for each one of the path,
-- and one.
encode_url_fits : (url : List ℕ) → length (encode_url url) + 1 ≤ 3 * length url + 1
unfolding encode_url
encode_url_fits [] = omega arith
encode_url_fits (ch ∷ url) = omega (
  arith,
  encode_url_fits url,
  length-encode_char ch,
  length-append (encode_char ch) (encode_url url),
)
