-- ===== src/S3Comms/SignatureRun.antt =====
-- `CreateAwsSignature` of src/s3comms.c against the string to sign that the S3 REST authentication asks for.
use aws_s3fs.Common.{
  ℕ, ◌+◌, ◌≡◌, ◌≤◌, ◌<◌, refl, ap, arith, true, not, ◌==◌, Option, none, some, List, [], ◌∷◌, ◌++◌,
  map, length, length-append, append_assoc, append-nil, ltb, All,
}
use aws_s3fs.Base64.Encode.{codes}
use aws_s3fs.Base64.Encoded.{IsByte}
use aws_s3fs.Base64.Rfc.{rfc4648}
use aws_s3fs.Digest.State.{sha1}
use aws_s3fs.Digest.Chain.{word_high_first}
use aws_s3fs.Digest.Sha1Pad.{sha1_rfc3174}
use aws_s3fs.Digest.WorkKey.{IsKeyByte}
use aws_s3fs.Digest.HmacRun.{standard_digest, hmac_rfc2104, hmac-base64}
use aws_s3fs.S3Comms.Region.{
  BucketRegions, us_standard, oregon, northern_california, ireland, singapore, tokyo, sao_paulo,
}
use aws_s3fs.S3Comms.Header.{add_header_value_to_sign_string}
use aws_s3fs.S3Comms.Signature.{
  Signing, sign_headers, method_line, signed_resource, message_to_sign, authorization,
  create_aws_signature,
}
use aws_s3fs.S3Comms.SignHeader.{
  take_while, signable_path_lem, amz_line, newer_value, sent_header, absorb, take_header_lem,
}

-- The lines of all x-amz- headers, and the value in the last header of a name.
unfoldable pub amz_lines : List (List ℕ) → List ℕ
amz_lines [] = []
amz_lines (header ∷ headers) = amz_line header ++ amz_lines headers

unfoldable pub last_value : List ℕ → Option (List ℕ) → List (List ℕ) → Option (List ℕ)
last_value name old [] = old
last_value name old (header ∷ headers) = last_value name (newer_value name old header) headers

abbrev summary : Signing → List (List ℕ) → Signing
summary st headers = record {
  message_length = st.message_length + length (amz_lines headers);
  amz_headers = st.amz_headers ++ amz_lines headers;
  md5_value = last_value (codes "Content-MD5") st.md5_value headers;
  type_value = last_value (codes "Content-Type") st.type_value headers;
  date_value = last_value (codes "Date") st.date_value headers;
}

ltb_lem : (a b : ℕ) → a < b → ltb a b ≡ true
ltb_lem a b h = ground arith

sign_headers-summary :
    (headers : List (List ℕ)) (st : Signing)
    → length (st.amz_headers ++ amz_lines headers) < 2048
    → st.message_length + length (amz_lines headers) < 3896
    → sign_headers st headers ≡ some (summary st headers, map sent_header headers)
unfolding sign_headers amz_lines last_value
sign_headers-summary [] st short fits =
    let same : st.message_length + 0 ≡ st.message_length = omega arith in rw (append-nil, same) refl
sign_headers-summary (header ∷ headers) st short fits =
    let line = amz_line header in
    let assoc = append_assoc st.amz_headers line (amz_lines headers) in
    let joined = length-append line (amz_lines headers) in
    let whole = length-append {0} (st.amz_headers ++ line) (amz_lines headers) in
    let sum : (st.message_length + length line) + length (amz_lines headers)
        ≡ st.message_length + length (line ++ amz_lines headers) =
      omega (arith, joined) in
    let fits_amz =
      ltb_lem (length (st.amz_headers ++ line)) 2048
        (omega (arith, short, whole, ap length assoc)) in
    let fits_message =
      ltb_lem (st.message_length + length line) 3896 (omega (arith, fits, joined)) in
    let rest =
      sign_headers-summary headers (absorb st header) (omega (arith, short, ap length assoc))
        (omega (arith, fits, sum)) in
    rw (take_header_lem st header, rest, fits_amz, fits_message, assoc, sum) refl

-- The string to sign: the method, the values of three headers, the x-amz- headers in lower case and
-- in the order of the list, and the resource.
abbrev text : Option (List ℕ) → List ℕ
text none = []
text (some value) = value

-- The resource: the path up to its query, behind the bucket unless the region is the US Standard one.
unfoldable pub resource_to_sign : BucketRegions → List ℕ → List ℕ → List ℕ
resource_to_sign region bucket path =
    let named = take_while (λ (ch : ℕ). not (ch == b'?')) path in
    elim region [ us_standard ↦ named | _ ↦ b'/' ∷ (bucket ++ named) ]

resource_to_sign_lem :
    (region : BucketRegions) (bucket path : List ℕ)
    → signed_resource region bucket path ≡ resource_to_sign region bucket path
unfolding signed_resource resource_to_sign
resource_to_sign_lem us_standard bucket path = signable_path_lem path
resource_to_sign_lem oregon bucket path = rw (signable_path_lem path) refl
resource_to_sign_lem northern_california bucket path = rw (signable_path_lem path) refl
resource_to_sign_lem ireland bucket path = rw (signable_path_lem path) refl
resource_to_sign_lem singapore bucket path = rw (signable_path_lem path) refl
resource_to_sign_lem tokyo bucket path = rw (signable_path_lem path) refl
resource_to_sign_lem sao_paulo bucket path = rw (signable_path_lem path) refl

unfoldable pub string_to_sign : List ℕ → List (List ℕ) → List ℕ → List ℕ
string_to_sign http_method headers resource =
    let value = λ (name : List ℕ). text (last_value name none headers) ++ codes "\n" in
    http_method
    ++ (codes "\n"
        ++ (value (codes "Content-MD5")
            ++ (value (codes "Content-Type")
                ++ (value (codes "Date") ++ (amz_lines headers ++ resource)))))

add_header_value_lem :
    (message : List ℕ) (value : Option (List ℕ))
    → (add_header_value_to_sign_string message value).0 ≡ message ++ (text value ++ codes "\n")
unfolding add_header_value_to_sign_string
add_header_value_lem message none = refl
add_header_value_lem message (some value) = append_assoc message value (codes "\n")

module _ (http_method : List ℕ) (headers : List (List ℕ)) where
  abbrev start : Signing
  start = record {
    message_length = length (http_method ++ codes "\n");
    amz_headers = [];
    md5_value = none;
    type_value = none;
    date_value = none;
  }

  message_to_sign_lem :
      (resource : List ℕ)
      → message_to_sign (http_method ++ codes "\n") (summary start headers) resource
        ≡ string_to_sign http_method headers resource
  unfolding message_to_sign string_to_sign
  message_to_sign_lem resource = simp (add_header_value_lem, append_assoc)

  -- The headers' part of the string is no longer than the string.
  lengths :
      (resource : List ℕ)
      → length (http_method ++ codes "\n") + length (amz_lines headers)
        ≤ length (string_to_sign http_method headers resource)
  unfolding string_to_sign
  lengths resource =
      let v_md5 = text (last_value (codes "Content-MD5") none headers) ++ codes "\n" in
      let v_type = text (last_value (codes "Content-Type") none headers) ++ codes "\n" in
      let v_date = text (last_value (codes "Date") none headers) ++ codes "\n" in
      let from_amz = amz_lines headers ++ resource in
      let from_date = v_date ++ from_amz in
      let from_type = v_type ++ from_date in
      omega (
        arith,
        length-append {0} http_method (codes "\n"),
        length-append {0} http_method (codes "\n" ++ (v_md5 ++ from_type)),
        length-append {0} v_md5 from_type,
        length-append {0} v_type from_date,
        length-append {0} v_date from_amz,
        length-append {0} (amz_lines headers) resource,
      )

length-signature : (message key : List ℕ) → length (rfc4648 (hmac_rfc2104 sha1 key message)) ≡ 28
unfolding hmac_rfc2104 standard_digest sha1_rfc3174 word_high_first rfc4648
length-signature message key = refl

length-authorization :
    (key_id signature : List ℕ)
    → length (authorization key_id signature) ≡ 20 + length key_id + length signature
unfolding authorization
length-authorization key_id signature =
    omega (arith, length-append {0} key_id (codes ":" ++ signature))

-- A request whose x-amz- headers take fewer than 2048 bytes, whose string to sign consists of fewer than 3896
-- bytes, whose key name has at most 51 bytes and whose key at most 64, none of them zero, is sent with the names
-- of its x-amz- headers in lower case, and behind its headers one with the RFC 2104 code, with SHA-1 and in RFC
-- 4648 text, of this string, whatever the stack holds: lines for the method, for the last values of Content-MD5,
-- Content-Type and Date, and for each x-amz- header with its name in lower case, in the order of the list; and
-- the path up to a question mark, behind a slash and the bucket unless the region is the US Standard one.
pub create_aws_signature-string_to_sign :
    (http_method : List ℕ) (headers : List (List ℕ)) (region : BucketRegions)
    (bucket path key_id secret_key stack : List ℕ)
    → length (amz_lines headers) < 2048
    → length (string_to_sign http_method headers (resource_to_sign region bucket path)) < 3896
    → length key_id ≤ 51
    → All IsByte (string_to_sign http_method headers (resource_to_sign region bucket path))
    → All IsKeyByte secret_key
    → length secret_key ≤ 64
    → create_aws_signature (some http_method) headers region bucket path key_id secret_key stack
      ≡ some (
          map sent_header headers
          ++ (authorization key_id (
                rfc4648 (
                  hmac_rfc2104 sha1 secret_key
                    (string_to_sign http_method headers (resource_to_sign region bucket path))))
              ∷ []))
unfolding create_aws_signature method_line
create_aws_signature-string_to_sign http_method headers region bucket path key_id secret_key stack
      amz fits id bytes key_bytes short =
    let resource = resource_to_sign region bucket path in
    let message = string_to_sign http_method headers resource in
    let read =
      sign_headers-summary headers (start http_method headers) amz
        (omega (arith, fits, lengths http_method headers resource)) in
    let fits_message = ltb_lem (length message) 4096 (omega (arith, fits)) in
    let signature =
      hmac-base64 sha1 message secret_key stack bytes (omega (arith, fits)) key_bytes short in
    let fits_header =
      ltb_lem (length (authorization key_id (rfc4648 (hmac_rfc2104 sha1 secret_key message)))) 100 (
        omega (
          arith,
          id,
          length-authorization key_id (rfc4648 (hmac_rfc2104 sha1 secret_key message)),
          length-signature message secret_key,
        )) in
    rw
      (
        resource_to_sign_lem region bucket path,
        read,
        message_to_sign_lem http_method headers resource,
        fits_message,
        signature,
        fits_header,
      )
      refl
