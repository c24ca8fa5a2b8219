-- ===== src/S3Comms/Request.antt =====
-- `BuildGenericHeader`, `BuildS3Request` and `s3_SubmitS3Request` of src/s3comms.c. The text of the
-- `Date:` header comes from `strftime`, and the answer from libcurl: both are arguments.
use aws_s3fs.Common.{
  ℕ, Bool, true, false, ◌&&◌, ◌||◌, Option, none, some, List, [], ◌∷◌, ◌++◌, take, ltb, ◌==◌,
  if◌then◌else◌,
}
use aws_s3fs.Base64.Encode.{codes, ◌>>=◌}
use aws_s3fs.S3Comms.Region.{BucketRegions, get_s3_host_name_by_region, request_url}
use aws_s3fs.S3Comms.Header.{to_lower}
use aws_s3fs.S3Comms.Signature.{create_aws_signature}
use aws_s3fs.S3Comms.Status.{Errno, eio, convert_http_status_to_errno}
use aws_s3fs.S3Comms.Callbacks.{CurlWriteBuffer, HeaderBuffer, curl_write_header}
use aws_s3fs.S3Comms.CallbacksRun.{receive}

pub record S3Comm : Type 0 where
  pub region : BucketRegions
  pub bucket : List ℕ
  pub key_id : List ℕ
  pub secret_key : List ℕ

unfoldable pub build_generic_header : List ℕ → List ℕ → List (List ℕ)
build_generic_header hostname date =
    (codes "Host: " ++ hostname) ∷ date ∷ codes "User-Agent: curl" ∷ []

-- `qsort_strcmp( a, b ) <= 0`
unfoldable pub not_after : List ℕ → List ℕ → Bool
not_after [] b = true
not_after (x ∷ a) [] = false
not_after (x ∷ a) (y ∷ b) =
    ltb (to_lower x) (to_lower y) || (to_lower x == to_lower y && not_after a b)

-- `qsort`, which is a merge sort in the C library: headers that compare equal keep their order.
unfoldable pub insert_header : List ℕ → List (List ℕ) → List (List ℕ)
insert_header header [] = header ∷ []
insert_header header (h ∷ headers) =
    if not_after header h then header ∷ h ∷ headers else h ∷ insert_header header headers

unfoldable pub sort_headers : List (List ℕ) → List (List ℕ)
sort_headers [] = []
sort_headers (header ∷ headers) = insert_header header (sort_headers headers)

-- The list that is signed: at most 100 of the additional headers are taken.
unfoldable pub unsigned_headers : List ℕ → List ℕ → List (List ℕ) → List (List ℕ)
unsigned_headers hostname date additional_headers =
    build_generic_header hostname date ++ sort_headers (take 100 additional_headers)

unfoldable pub build_s3_request :
    S3Comm → List ℕ → List ℕ → List ℕ → List (List ℕ) → List ℕ → List ℕ → Option (List (List ℕ))
build_s3_request instance_ http_method hostname date additional_headers filename stack =
    create_aws_signature (some http_method) (unsigned_headers hostname date additional_headers)
      instance_.region instance_.bucket filename instance_.key_id instance_.secret_key stack

-- What libcurl is asked for.
pub record CurlRequest : Type 0 where
  pub verb : List ℕ
  pub url : List ℕ
  pub headers : List (List ℕ)

-- What libcurl answers: its own status, that of HTTP, the lines of the header with the memory behind
-- each, and the blocks of the body.
pub record CurlAnswer : Type 0 where
  pub curl_status : ℕ
  pub http_status : ℕ
  pub lines : List (List ℕ × List ℕ)
  pub body : List (List ℕ)

pub data Received : Type 0 where
  received_headers : HeaderBuffer → Received
  received_body : CurlWriteBuffer → Received
  nothing_received : Received

unfoldable pub receive_lines : HeaderBuffer → List (List ℕ × List ℕ) → Option HeaderBuffer
receive_lines buffer [] = some buffer
receive_lines buffer ((line, behind) ∷ lines) =
    curl_write_header line behind buffer >>= (λ (next : HeaderBuffer). receive_lines next lines)

-- `strcmp( a, b ) == 0`
unfoldable pub same_string : List ℕ → List ℕ → Bool
same_string [] [] = true
same_string [] (y ∷ b) = false
same_string (x ∷ a) [] = false
same_string (x ∷ a) (y ∷ b) = x == y && same_string a b

-- The callback that is set for the method, over the answer.
unfoldable pub receive_answer : List ℕ → CurlAnswer → Option Received
receive_answer verb answer =
    if same_string verb (codes "HEAD")
      || (same_string verb (codes "DELETE")
          || (same_string verb (codes "POST") || same_string verb (codes "PUT")))
    then receive_lines (record { pairs = []; size = 0; room = 0; is_null = true }) answer.lines
      >>= (λ (buffer : HeaderBuffer). some (received_headers buffer))
    else (if same_string verb (codes "GET")
        then some (received_body (receive (record { written = none; size = 0 }) answer.body))
        else some nothing_received)

unfoldable pub submit_status : CurlAnswer → Errno
submit_status answer =
    if answer.curl_status == 0 then convert_http_status_to_errno answer.http_status else eio

module _ (perform : CurlRequest → CurlAnswer) where
  -- The status and the data that are returned.
  unfoldable pub submit_s3_request :
      S3Comm → List ℕ → List ℕ → List (List ℕ) → List ℕ → List ℕ → Option (Errno × Received)
  submit_s3_request instance_ http_verb date headers filename stack = do
    let host_name = get_s3_host_name_by_region instance_.region instance_.bucket
    all_headers ← build_s3_request instance_ http_verb host_name date headers filename stack
    let request : CurlRequest = record {
      verb = http_verb;
      url = request_url instance_.region instance_.bucket filename;
      headers = all_headers;
    }
    let answer = perform request
    received ← receive_answer http_verb answer
    some (submit_status answer, received)
