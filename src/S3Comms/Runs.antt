-- ===== src/S3Comms/Runs.antt =====
-- Runs of the functions of src/s3comms.c, and the theorems at concrete inputs.
use mathlib.Core.List.{flatten}
use aws_s3fs.Common.{
  ℕ, ◌≡◌, ◌<◌, inl, refl, arith, true, none, some, List, [], ◌∷◌, ◌++◌, map, length, replicate,
}
use aws_s3fs.Base64.Encode.{codes}
use aws_s3fs.Base64.Rfc.{rfc4648}
use aws_s3fs.Digest.State.{sha1}
use aws_s3fs.Digest.HmacRun.{hmac_rfc2104}
use aws_s3fs.S3Comms.Region.{amazon_host, ireland, get_s3_host_name_by_region}
use aws_s3fs.S3Comms.Header.{has_name}
use aws_s3fs.S3Comms.Signature.{create_aws_signature, authorization}
use aws_s3fs.S3Comms.SignHeader.{take_while, drop_while, amz_line, newer_value, sent_header}
use aws_s3fs.S3Comms.SignatureRun.{
  amz_lines, last_value, resource_to_sign, string_to_sign, create_aws_signature-string_to_sign,
}
use aws_s3fs.S3Comms.Callbacks.{CurlReadBuffer, HeaderBuffer, store_pair}
use aws_s3fs.S3Comms.CallbacksRun.{receive, terminated, receive-blocks, HasRoom, store_pair-HasRoom}
use aws_s3fs.S3Comms.Request.{
  S3Comm, CurlRequest, CurlAnswer, unsigned_headers, build_generic_header, sort_headers,
  build_s3_request,
}

abbrev no_headers : HeaderBuffer
no_headers = record { pairs = []; size = 0; room = 0; is_null = true }

abbrev not_found : ℕ
not_found = 404

abbrev bad_request_status : ℕ
bad_request_status = 400

abbrev upload : CurlReadBuffer
upload = record { data_bytes = codes "some text"; size = 9; offset = 0 }

receive-blocks_example :
    receive (record { written = none; size = 0 }) (codes "ab" ∷ codes "c" ∷ []) ≡ record {
      written = some (flatten (map terminated (codes "ab" ∷ codes "c" ∷ [])));
      size = length (flatten (map terminated (codes "ab" ∷ codes "c" ∷ [])));
    }
receive-blocks_example = receive-blocks (codes "ab") (codes "c" ∷ [])

store_pair-HasRoom_example :
    HasRoom (store_pair (codes "ETag", none) no_headers)
    × (store_pair (codes "ETag", none) no_headers).size
      < (store_pair (codes "ETag", none) no_headers).room
store_pair-HasRoom_example = store_pair-HasRoom (codes "ETag", none) no_headers (inl refl)

abbrev some_headers : List (List ℕ)
some_headers = codes "Date: Mon" ∷ codes "X-Amz-Acl:private" ∷ []

program : Unit {0}
unfolding amz_line amz_lines newer_value last_value string_to_sign has_name take_while drop_while
    resource_to_sign
program = tt

-- The string that is signed.
some_string :
    string_to_sign
      (codes "GET")
      some_headers
      (resource_to_sign ireland (codes "b") (codes "/f?acl"))
    ≡ codes "GET\n\n\nMon\nx-amz-acl:private\n/b/f"
unfolding program
some_string = refl

amz_short : length (amz_lines some_headers) < 2048
unfolding program
amz_short = omega arith

create_aws_signature-string_to_sign_example :
    create_aws_signature
      (some (codes "GET"))
      some_headers
      ireland
      (codes "b")
      (codes "/f?acl")
      (codes "id")
      (codes "secret")
      (replicate 80 7)
    ≡ some (
        map sent_header some_headers
        ++ (authorization (codes "id") (
              rfc4648 (
                hmac_rfc2104 sha1 (codes "secret") (
                  string_to_sign
                    (codes "GET")
                    some_headers
                    (resource_to_sign ireland (codes "b") (codes "/f?acl")))))
            ∷ []))
create_aws_signature-string_to_sign_example =
    create_aws_signature-string_to_sign (codes "GET") some_headers ireland (codes "b")
      (codes "/f?acl") (codes "id") (codes "secret") (replicate 80 7) amz_short
      (rw some_string (omega arith)) (omega arith) (rw some_string (omega arith)) (omega arith)
      (omega arith)

-- libcurl hands over a body in two blocks, with the status 200.
abbrev two_blocks : CurlRequest → CurlAnswer
two_blocks request = record {
  curl_status = 0;
  http_status = 200;
  lines = [];
  body = codes "ab" ∷ codes "c" ∷ [];
}

-- The status of libcurl when it has an answer.
abbrev answered : ℕ
answered = 0

abbrev comm : S3Comm
comm = record {
  region = ireland;
  bucket = codes "b";
  key_id = codes "id";
  secret_key = codes "secret";
}

abbrev get_headers : List (List ℕ)
get_headers =
    unsigned_headers (get_s3_host_name_by_region ireland (codes "b")) (codes "Date: Mon") []

get_string :
    string_to_sign (codes "GET") get_headers (resource_to_sign ireland (codes "b") (codes "/f"))
    ≡ codes "GET\n\n\nMon\n/b/f"
unfolding program unsigned_headers build_generic_header sort_headers get_s3_host_name_by_region
    amazon_host
get_string = refl

get_amz_short : length (amz_lines get_headers) < 2048
unfolding program unsigned_headers build_generic_header sort_headers get_s3_host_name_by_region
    amazon_host
get_amz_short = omega arith

abbrev get_signed : List (List ℕ)
get_signed =
    map sent_header get_headers
    ++ (authorization (codes "id") (
          rfc4648 (
            hmac_rfc2104 sha1 (codes "secret") (
              string_to_sign (codes "GET") get_headers
                (resource_to_sign ireland (codes "b") (codes "/f")))))
        ∷ [])

get_built :
    build_s3_request comm
      (codes "GET")
      (get_s3_host_name_by_region ireland (codes "b"))
      (codes "Date: Mon")
      []
      (codes "/f")
      (replicate 80 7)
    ≡ some get_signed
unfolding build_s3_request
get_built =
    create_aws_signature-string_to_sign (codes "GET") get_headers ireland (codes "b") (codes "/f")
      (codes "id") (codes "secret") (replicate 80 7) get_amz_short (rw get_string (omega arith))
      (omega arith) (rw get_string (omega arith)) (omega arith) (omega arith)
