-- ===== src/Digest/HmacRun.antt =====
-- `DigestBuffer` and `HMAC` against RFC 1321, RFC 3174 and RFC 2104.
use mathlib.Core.List.{flatten}
use aws_s3fs.Common.{
  ℕ, zero, suc, ◌+◌, ◌-◌, ◌%◌, ◌^◌, ◌≡◌, ◌≢◌, ◌≤◌, ◌<◌, refl, ap, ◌∙◌, arith, bit_xor, some, List,
  [], ◌∷◌, ◌++◌, map, length, length-append, length-map, length-replicate, append-nil, replicate,
  take_of_length-le, All, All-append,
}
use aws_s3fs.Common.Bits.{agree_below, agree_below→eq}
use aws_s3fs.Base64.Encoded.{IsByte}
use aws_s3fs.Base64.EncodeRun.{encode-eq-rfc4648}
use aws_s3fs.Base64.Rfc.{rfc4648}
use aws_s3fs.Digest.State.{HashFunction, HashEncoding, md5, sha1, base64}
use aws_s3fs.Digest.Chain.{word_high_first, word_low_first}
use aws_s3fs.Digest.Md5Digest.{md5_rfc1321, md5_of_pieces-rfc1321}
use aws_s3fs.Digest.Sha1Pad.{sha1_rfc3174, sha1_of_pieces-rfc3174}
use aws_s3fs.Digest.Output.{digest_size, encode_digest, bin_digest, digest_buffer, base64_buffer}
use aws_s3fs.Digest.Hmac.{xor_memory, hmac}
use aws_s3fs.Digest.WorkKey.{IsKeyByte, work_key_fits}

-- The digest of a message by the standard of the hash function.
unfoldable pub standard_digest : HashFunction → List ℕ → List ℕ
standard_digest md5 message = md5_rfc1321 message
standard_digest sha1 message = sha1_rfc3174 message

-- RFC 2104 for a key of at most 64 bytes.
unfoldable pub hmac_rfc2104 : HashFunction → List ℕ → List ℕ → List ℕ
hmac_rfc2104 function key message =
    let block_key = key ++ replicate (64 - length key) 0 in
    let inner = map (λ b. bit_xor b 0x36) block_key in
    let outer = map (λ b. bit_xor b 0x5c) block_key in
    standard_digest function (outer ++ standard_digest function (inner ++ message))

-- A digest has the size of its function and consists of bytes.
standard_digest-length :
    (function : HashFunction) (message : List ℕ)
    → length (standard_digest function message) ≡ digest_size function
unfolding standard_digest digest_size md5_rfc1321 sha1_rfc3174 word_high_first word_low_first
standard_digest-length md5 message = refl
standard_digest-length sha1 message = refl

standard_digest-IsByte :
    (function : HashFunction) (message : List ℕ) → All IsByte (standard_digest function message)
unfolding standard_digest md5_rfc1321 sha1_rfc3174 word_high_first word_low_first
standard_digest-IsByte md5 message = omega arith
standard_digest-IsByte sha1 message = omega arith

bin_digest-standard :
    (function : HashFunction) (pieces : List (List ℕ))
    → All (All IsByte) pieces
    → length (flatten pieces) < 2 ^ 32
    → bin_digest function pieces ≡ standard_digest function (flatten pieces)
unfolding bin_digest standard_digest
bin_digest-standard md5 pieces bytes fits = md5_of_pieces-rfc1321 pieces fits
bin_digest-standard sha1 pieces bytes fits = sha1_of_pieces-rfc3174 pieces bytes (omega arith)

xor_pad-IsByte : (b : ℕ) → IsByte b → IsByte (bit_xor b 0x36) × IsByte (bit_xor b 0x5c)
unfolding agree_below
xor_pad-IsByte b h =
    let e36 = agree_below→eq (λ b. bit_xor b 0x36 % 256) (λ b. bit_xor b 0x36) 256 refl b h in
    let e5c = agree_below→eq (λ b. bit_xor b 0x5c % 256) (λ b. bit_xor b 0x5c) 256 refl b h in
    (omega (arith, e36), omega (arith, e5c))

pads-IsByte :
    (bytes : List ℕ)
    → All IsByte bytes
    → All IsByte (map (λ b. bit_xor b 0x36) bytes) × All IsByte (map (λ b. bit_xor b 0x5c) bytes)
pads-IsByte [] h = (tt, tt)
pads-IsByte (b ∷ bytes) (h, hs) =
    let (p, q) = xor_pad-IsByte b h in let (ps, qs) = pads-IsByte bytes hs in ((p, ps), (q, qs))

key-IsByte : (key : List ℕ) → All IsKeyByte key → All IsByte key
key-IsByte [] h = tt
key-IsByte (b ∷ key) (h, hs) = (h.1, key-IsByte key hs)

zeros-IsByte : (n : ℕ) → All IsByte (replicate n 0)
zeros-IsByte zero = tt
zeros-IsByte (suc n) = (omega arith, zeros-IsByte n)

-- The hash of two pieces, one fed after the other.
two_pieces :
    (function : HashFunction) (front back : List ℕ)
    → All IsByte front
    → All IsByte back
    → length front + length back < 2 ^ 32
    → bin_digest function (front ∷ back ∷ []) ≡ standard_digest function (front ++ back)
two_pieces function front back hf hb fits =
    let joined : flatten (front ∷ back ∷ []) ≡ front ++ back =
      unfold flatten in ap (λ (t : List ℕ). front ++ t) (append-nil back) in
    bin_digest-standard function (front ∷ back ∷ []) (hf, (hb, tt))
      (omega (arith, ap length joined, length-append {0} front back))
    ∙ ap (standard_digest function) joined

-- For a message of bytes, fewer than 2 ^ 32 - 64 of them, and a key of at most 64 bytes none of
-- which is zero, the signature is that of RFC 2104 in the encoding asked for, whatever the stack
-- holds.
pub hmac-hmac_rfc2104 :
    (function : HashFunction) (encoding : HashEncoding) (message key stack : List ℕ)
    → All IsByte message
    → length message + 64 < 2 ^ 32
    → All IsKeyByte key
    → length key ≤ 64
    → hmac message key function encoding stack
      ≡ encode_digest (hmac_rfc2104 function key message) function encoding
unfolding hmac hmac_rfc2104 xor_memory
hmac-hmac_rfc2104 function encoding message key stack bytes fits key_bytes short =
    let block = key ++ replicate (64 - length key) 0 in
    let block_bytes =
      All-append IsByte key (replicate (64 - length key) 0) (key-IsByte key key_bytes)
        (zeros-IsByte (64 - length key)) in
    let (inner_bytes, outer_bytes) = pads-IsByte block block_bytes in
    let inner = map (λ b. bit_xor b 0x36) block in
    let outer = map (λ b. bit_xor b 0x5c) block in
    let len : length block ≡ 64 =
      length-append key (replicate (64 - length key) 0)
      ∙ omega
          (arith, ap (λ (n : ℕ). length key + n) (length-replicate {A = ℕ} (64 - length key) 0)) in
    let inner_len = length-map (λ b. bit_xor b 0x36) block in
    let outer_len = length-map (λ b. bit_xor b 0x5c) block in
    let digest = standard_digest function (inner ++ message) in
    let size : digest_size function ≤ 20 = unfold digest_size in ground arith in
    rw (
      work_key_fits function key stack key_bytes short,
      two_pieces function inner message inner_bytes bytes (omega (arith, inner_len, len)),
      two_pieces function outer digest outer_bytes
          (standard_digest-IsByte function (inner ++ message))
          (omega (arith, outer_len, len, size, standard_digest-length function (inner ++ message))),
    )

-- The digest of a buffer of bytes, fewer than 2 ^ 32 of them, is that of the hash function's
-- standard, in the encoding asked for.
digest_buffer-standard_digest :
    (function : HashFunction) (encoding : HashEncoding) (buffer : List ℕ)
    → All IsByte buffer
    → length buffer < 2 ^ 32
    → digest_buffer buffer function encoding
      ≡ encode_digest (standard_digest function buffer) function encoding
unfolding digest_buffer
digest_buffer-standard_digest function encoding buffer bytes fits =
    let joined : flatten (buffer ∷ []) ≡ buffer = unfold flatten in append-nil buffer in
    rw (
      bin_digest-standard function (buffer ∷ []) (bytes, tt) (omega (arith, ap length joined)),
      joined,
    )

-- A digest is never cut by the Base64 encoder: its length is no multiple of three.
encode_digest-base64 :
    (function : HashFunction) (message : List ℕ)
    → encode_digest (standard_digest function message) function base64
      ≡ some (rfc4648 (standard_digest function message))
unfolding encode_digest
encode_digest-base64 function message =
    let len = standard_digest-length function message in
    let rest : digest_size function % 3 ≢ 0 = unfold digest_size in ground arith in
    rw
      (take_of_length-le (digest_size function) (standard_digest function message)
        (omega (arith, len)))
      (encode-eq-rfc4648 base64_buffer (omega arith) (standard_digest function message)
        (standard_digest-IsByte function message) (rw len rest))

-- The Base64 signature of a message: under the same conditions on message and key, it is the RFC
-- 4648 text of the RFC 2104 code, whatever the stack holds.
pub hmac-base64 :
    (function : HashFunction) (message key stack : List ℕ)
    → All IsByte message
    → length message + 64 < 2 ^ 32
    → All IsKeyByte key
    → length key ≤ 64
    → hmac message key function base64 stack ≡ some (rfc4648 (hmac_rfc2104 function key message))
hmac-base64 function message key stack bytes fits key_bytes short =
    hmac-hmac_rfc2104 function base64 message key stack bytes fits key_bytes short
    ∙ (unfold hmac_rfc2104 in encode_digest-base64 function _)
