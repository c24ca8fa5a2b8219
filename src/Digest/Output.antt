-- ===== src/Digest/Output.antt =====
-- `BinDigestToHexDigest`, `EncodeDigest` and `DigestBuffer` of src/digest.c. A digest that the
-- encoder of Base64 could not write is `none`.
use aws_s3fs.Common.{
  ℕ, ◌+◌, ◌-◌, ◌/◌, ◌%◌, bit_and, Option, some, List, [], ◌∷◌, take, ltb, if◌then◌else◌,
}
use aws_s3fs.Base64.Encode.{encode}
use aws_s3fs.Digest.State.{
  DigestState, HashFunction, HashEncoding, md5, sha1, base64, bin, hex, initialize_digest_state,
}
use aws_s3fs.Digest.Md5.{md5_process_continuous, md5_flush_state, restore_state}
use aws_s3fs.Digest.Sha1.{sha1_input, sha1_result, sha1_state_to_bin_digest}

-- The size of a digest in bytes.
unfoldable pub digest_size : HashFunction → ℕ
digest_size md5 = 16
digest_size sha1 = 20

unfoldable pub hex_char : ℕ → ℕ
hex_char n = if ltb n 10 then b'0' + n else b'a' + (n - 10)

-- `sprintf( …, "%02x", byte & 0x00ff )` for each byte
unfoldable pub hex_bytes : List ℕ → List ℕ
unfolding hex_char
hex_bytes [] = []
hex_bytes (b ∷ rest) =
    let v = bit_and b 0xff in hex_char (v / 16) ∷ hex_char (v % 16) ∷ hex_bytes rest

unfoldable pub bin_digest_to_hex_digest : List ℕ → HashFunction → List ℕ
unfolding hex_bytes
bin_digest_to_hex_digest binary function = hex_bytes (take (digest_size function) binary)

-- The working buffer of `EncodeBase64` outside the tests.
abbrev pub base64_buffer : ℕ
base64_buffer = 2048

unfoldable pub encode_digest : List ℕ → HashFunction → HashEncoding → Option (List ℕ)
encode_digest resblock function hex = some (bin_digest_to_hex_digest resblock function)
encode_digest resblock function base64 = encode base64_buffer (take (digest_size function) resblock)
encode_digest resblock function bin = some (take (digest_size function) resblock)

-- The hash of the bytes fed in the given pieces, one call of the input function for each.
unfoldable pub md5_of_pieces : DigestState → List (List ℕ) → List ℕ
md5_of_pieces st [] = restore_state (md5_flush_state st)
md5_of_pieces st (piece ∷ pieces) = md5_of_pieces (md5_process_continuous piece st) pieces

unfoldable pub sha1_of_pieces : DigestState → List (List ℕ) → List ℕ
sha1_of_pieces st [] = sha1_state_to_bin_digest (sha1_result st).1
sha1_of_pieces st (piece ∷ pieces) = sha1_of_pieces (sha1_input st piece) pieces

unfoldable pub bin_digest : HashFunction → List (List ℕ) → List ℕ
unfolding md5_of_pieces sha1_of_pieces
bin_digest md5 pieces = md5_of_pieces initialize_digest_state pieces
bin_digest sha1 pieces = sha1_of_pieces initialize_digest_state pieces

unfoldable pub digest_buffer : List ℕ → HashFunction → HashEncoding → Option (List ℕ)
unfolding bin_digest encode_digest
digest_buffer buffer function encoding =
    encode_digest (bin_digest function (buffer ∷ [])) function encoding
