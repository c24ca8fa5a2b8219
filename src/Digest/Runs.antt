-- ===== src/Digest/Runs.antt =====
-- Digests of known messages, and the theorems at concrete inputs.
use mathlib.Core.List.{flatten}
use aws_s3fs.Common.{
  ℕ, ◌≡◌, refl, arith, some, List, [], ◌∷◌, ◌++◌, take, drop, replicate, length, All,
}
use aws_s3fs.Base64.Encode.{codes}
use aws_s3fs.Digest.State.{md5, sha1, hex, initialize_digest_state}
use aws_s3fs.Digest.Md5Block.{md5_block}
use aws_s3fs.Digest.Sha1Block.{sha1_block}
use aws_s3fs.Digest.Md5.{
  md5_loop, add_total, md5_process_block, split_blocks, fill_buffer, process_rest,
  md5_process_continuous, little_endian_bytes, restore_state, md5_padding, md5_flush_state,
}
use aws_s3fs.Digest.Sha1.{
  sha1_process_message_block, count_byte, sha1_input_byte, sha1_input_loop, sha1_input, pad_to,
  big_endian_bytes, sha1_pad_block, sha1_pad_message, sha1_result, sha1_state_to_bin_digest,
}
use aws_s3fs.Digest.Hmac.{work_key, hmac}
use aws_s3fs.Digest.Sha1Pad.{sha1_rfc3174, sha1_of_pieces-rfc3174}
use aws_s3fs.Digest.Md5Digest.{md5_rfc1321, md5_of_pieces-rfc1321}
use aws_s3fs.Digest.WorkKey.{IsKeyByte, work_key_long}
use aws_s3fs.Digest.HmacRun.{hmac_rfc2104, hmac-hmac_rfc2104}
use aws_s3fs.Digest.Output.{
  digest_size, hex_bytes, bin_digest_to_hex_digest, encode_digest, bin_digest, digest_buffer,
  sha1_of_pieces, md5_of_pieces,
}

program : Unit {0}
unfolding md5_block sha1_block md5_loop add_total md5_process_block split_blocks fill_buffer
    process_rest md5_process_continuous little_endian_bytes restore_state md5_padding
    md5_flush_state sha1_process_message_block count_byte sha1_input_byte sha1_input_loop sha1_input
    pad_to big_endian_bytes sha1_pad_block sha1_pad_message sha1_result sha1_state_to_bin_digest
    digest_size hex_bytes bin_digest_to_hex_digest encode_digest bin_digest digest_buffer
program = tt

sha1_abc :
    digest_buffer (codes "abc") sha1 hex ≡ some (codes "a9993e364706816aba3e25717850c26c9cd0d89d")
unfolding program
sha1_abc = refl

md5_abc : digest_buffer (codes "abc") md5 hex ≡ some (codes "900150983cd24fb0d6963f7d28e17f72")
unfolding program
md5_abc = refl

abbrev pieces : List (List ℕ)
pieces = codes "Any " ∷ codes "hands" ∷ []

sha1_of_pieces-rfc3174_example :
    sha1_of_pieces initialize_digest_state pieces ≡ sha1_rfc3174 (codes "Any hands")
unfolding flatten
sha1_of_pieces-rfc3174_example = sha1_of_pieces-rfc3174 pieces (omega arith) (omega arith)

md5_of_pieces-rfc1321_example :
    md5_of_pieces initialize_digest_state pieces ≡ md5_rfc1321 (codes "Any hands")
unfolding flatten
md5_of_pieces-rfc1321_example = md5_of_pieces-rfc1321 pieces (omega arith)

hmac-hmac_rfc2104_example :
    hmac (codes "GET") (codes "secret") sha1 hex (replicate 80 7)
    ≡ encode_digest (hmac_rfc2104 sha1 (codes "secret") (codes "GET")) sha1 hex
hmac-hmac_rfc2104_example =
    hmac-hmac_rfc2104 sha1 hex (codes "GET") (codes "secret") (replicate 80 7) (omega arith)
      (omega arith) (omega arith) (omega arith)

abbrev long_key : List ℕ
long_key = replicate 65 66

-- Its hash has no zero byte.
long_key_hash-IsKeyByte : All IsKeyByte (bin_digest md5 (long_key ∷ []))
unfolding program
long_key_hash-IsKeyByte = omega arith

work_key_long_example :
    work_key md5 long_key (replicate 80 7)
    ≡ take 64 (
        bin_digest md5 (long_key ∷ [])
        ++ drop (length (bin_digest md5 (long_key ∷ []))) (replicate 80 7))
work_key_long_example =
    work_key_long md5 long_key (replicate 80 7) (omega arith) long_key_hash-IsKeyByte (omega arith)
      (omega arith)
