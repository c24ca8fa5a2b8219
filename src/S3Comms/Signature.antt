-- ===== src/S3Comms/Signature.antt =====
-- `CreateAwsSignature` of src/s3comms.c. `none` stands for a write behind one of the three buffers or a
-- failed assertion. What `HMAC` finds on the stack is an argument.
use aws_s3fs.Common.{
  ℕ, ◌+◌, ◌-◌, Bool, Option, none, some, List, [], ◌∷◌, ◌++◌, length, ltb, if◌then◌else◌,
}
use aws_s3fs.Base64.Encode.{codes, ◌>>=◌}
use aws_s3fs.Digest.State.{sha1, base64}
use aws_s3fs.Digest.Hmac.{hmac}
use aws_s3fs.S3Comms.Region.{BucketRegions, is_us_standard}
use aws_s3fs.S3Comms.Header.{
  HeaderKind, x_amz, content_md5, content_type, date, other, header_kind, get_header_string_value,
  add_header_value_to_sign_string, signable_path, lower_header,
}

-- The sizes of `messageToSign`, `amzHeaders` and `awsHeader`.
abbrev pub message_room : ℕ
message_room = 4096

abbrev pub amz_room : ℕ
amz_room = 2048

abbrev pub aws_header_room : ℕ
aws_header_room = 100

pub record Signing : Type 0 where
  pub message_length : ℕ
  pub amz_headers : List ℕ
  pub md5_value : Option (List ℕ)
  pub type_value : Option (List ℕ)
  pub date_value : Option (List ℕ)

-- A C string of these bytes fits an array.
abbrev pub fits_in : List ℕ → ℕ → Bool
fits_in s room = ltb (length s) room

-- One header: the state behind the loop's body, and the header as it is left in the list.
unfoldable pub take_header : Signing → List ℕ → HeaderKind → Signing × List ℕ
take_header st header x_amz =
    let lower = lower_header header in
    (
      record st {
        amz_headers = st.amz_headers ++ (lower ++ codes "\n");
        message_length = st.message_length + (length lower + 1);
      },
      lower,
    )
take_header st header content_md5 =
    (record st { md5_value = some (get_header_string_value header) }, header)
take_header st header content_type =
    (record st { type_value = some (get_header_string_value header) }, header)
take_header st header date =
    (record st { date_value = some (get_header_string_value header) }, header)
take_header st header other = (st, header)

unfoldable pub sign_headers : Signing → List (List ℕ) → Option (Signing × List (List ℕ))
sign_headers st [] = some (st, [])
sign_headers st (header ∷ headers) =
    let (st', header') = take_header st header (header_kind header) in
    let rest = sign_headers st' headers in
    if fits_in st'.amz_headers amz_room
    then (if ltb st'.message_length (message_room - 200)
        then rest >>= (λ (r : Signing × List (List ℕ)). some (r.0, header' ∷ r.1))
        else none)
    else none

-- `httpMethod` may be `NULL`.
unfoldable pub method_line : Option (List ℕ) → List ℕ
method_line none = codes "\n"
method_line (some http_method) = http_method ++ codes "\n"

-- The path behind the headers in `messageToSign`.
unfoldable pub signed_resource : BucketRegions → List ℕ → List ℕ → List ℕ
signed_resource region bucket path =
    if is_us_standard region
    then signable_path path
    else codes "/" ++ (bucket ++ signable_path path)

-- `messageToSign` once the headers are read.
unfoldable pub message_to_sign : List ℕ → Signing → List ℕ → List ℕ
message_to_sign line st resource =
    let with_md5 = (add_header_value_to_sign_string line st.md5_value).0 in
    let with_type = (add_header_value_to_sign_string with_md5 st.type_value).0 in
    let with_date = (add_header_value_to_sign_string with_type st.date_value).0 in
    (with_date ++ st.amz_headers) ++ resource

unfoldable pub authorization : List ℕ → List ℕ → List ℕ
authorization key_id signature = codes "Authorization: AWS " ++ (key_id ++ (codes ":" ++ signature))

unfoldable pub create_aws_signature :
    Option (List ℕ)
    → List (List ℕ)
    → BucketRegions
    → List ℕ
    → List ℕ
    → List ℕ
    → List ℕ
    → List ℕ
    → Option (List (List ℕ))
create_aws_signature http_method headers region bucket path key_id secret_key stack = do
  let line = method_line http_method
  let start : Signing = record {
    message_length = length line;
    amz_headers = [];
    md5_value = none;
    type_value = none;
    date_value = none;
  }
  (st, signed) ← sign_headers start headers
  let message = message_to_sign line st (signed_resource region bucket path)
  signature ←
      (if fits_in message message_room then hmac message secret_key sha1 base64 stack else none)
  let aws_header = authorization key_id signature
  if fits_in aws_header aws_header_room then some (signed ++ (aws_header ∷ [])) else none
