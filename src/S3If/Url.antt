-- ===== src/S3If/Url.antt =====
-- `EncodeUrl` of src/s3if.c. A byte is a number below 256; `ch >> 4` of a negative `char` keeps its upper
-- four bits under the mask.
use aws_s3fs.Common.{ℕ, ◌/◌, bit_and, Bool, ◌||◌, List, [], ◌∷◌, ◌++◌, get_or, ◌==◌, if◌then◌else◌}
use aws_s3fs.Base64.Encode.{codes}
use aws_s3fs.Base64.Decode.{is_alnum}

abbrev pub hex_char : ℕ → ℕ
hex_char digit = get_or (codes "0123456789ABCDEF") digit 0

abbrev pub is_safe : ℕ → Bool
is_safe ch = is_alnum ch || (ch == b'-' || (ch == b'_' || (ch == b'.' || ch == b'~')))

unfoldable pub encode_char : ℕ → List ℕ
encode_char ch =
    if is_safe ch
    then ch ∷ []
    else (if ch == b' '
        then b'+' ∷ []
        else b'%' ∷ hex_char (bit_and (ch / 16) 0x0f) ∷ hex_char (bit_and ch 0x0f) ∷ [])

unfoldable pub encode_url : List ℕ → List ℕ
encode_url [] = []
encode_url (ch ∷ url) = encode_char ch ++ encode_url url
