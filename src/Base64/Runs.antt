-- ===== src/Base64/Runs.antt =====
-- Runs of the encoder and the decoder, and their theorems at concrete inputs.
use aws_s3fs.Common.{◌≡◌, refl, arith, some, none, map, replicate}
use aws_s3fs.Base64.Encode.{
  to_char, flush_encoded, finish_encode, encode_loop, encode, codes, ◌>>=◌,
}
use aws_s3fs.Base64.Decode.{
  is_base64, sextet, compact4, write_bytes, copy_buffer, flush_decoded, return_block, finish_decode,
  is_accepted, decode_loop, decode,
}
use aws_s3fs.Base64.Rfc.{rfc4648}
use aws_s3fs.Base64.EncodeRun.{encode-eq-rfc4648}
use aws_s3fs.Base64.RoundTrip.{decode-encode, decode_whole_groups}

program : Unit {0}
unfolding to_char encode finish_encode flush_encoded encode_loop is_base64 sextet compact4
    write_bytes copy_buffer flush_decoded return_block finish_decode is_accepted decode_loop decode
program = tt

encode_four : encode 100 (codes "Any ") ≡ some (codes "QW55IA==")
unfolding program
encode_four = refl

decode_four : decode 100 (codes "QW55IA==") ≡ some (map some (codes "Any "))
unfolding program
decode_four = refl

-- A small buffer, flushed on the way.
encode_flushed : encode 10 (codes "Many hands make") ≡ some (codes "TWFueSBoYW5kcyBtYWtl")
unfolding program
encode_flushed = refl

encode_flushed_more : encode 14 (codes "Many hands make") ≡ some (codes "TWFueSBoYW5kcyBt")
unfolding program
encode_flushed_more = refl

decode_three : decode 2048 (codes "TWFu") ≡ some (replicate 3 none)
unfolding program
decode_three = refl

encode-eq-rfc4648_example : encode 100 (codes "Any ") ≡ some (rfc4648 (codes "Any "))
encode-eq-rfc4648_example =
    encode-eq-rfc4648 100 (omega arith) (codes "Any ") (omega arith) (omega arith)

decode-encode_example : (encode 100 (codes "Any ") >>= decode 2048) ≡ some (map some (codes "Any "))
decode-encode_example =
    decode-encode 100 2048 (omega arith) (omega arith) (codes "Any ") (omega arith) (omega arith)

decode_whole_groups_example : decode 2048 (rfc4648 (codes "Man")) ≡ some (replicate 3 none)
decode_whole_groups_example =
    decode_whole_groups 2048 (omega arith) (codes "Man") (omega arith) refl (omega arith)
