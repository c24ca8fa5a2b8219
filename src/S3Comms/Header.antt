-- ===== src/S3Comms/Header.antt =====
-- `GetHeaderStringValue`, `AddHeaderValueToSignString`, `SignablePath` and the tests on a header's name in
-- `CreateAwsSignature` of src/s3comms.c.
use aws_s3fs.Common.{
  ℕ, ◌+◌, Bool, true, false, ◌&&◌, ◌||◌, Option, none, some, List, [], ◌∷◌, ◌++◌, length, leb, ◌==◌,
  if◌then◌else◌,
}
use aws_s3fs.Base64.Encode.{codes}

-- `isspace` in the C locale
abbrev pub is_space : ℕ → Bool
is_space ch = ch == b' ' || (leb 9 ch && leb ch 13)

-- `tolower` in the C locale
abbrev pub to_lower : ℕ → ℕ
to_lower ch = if leb b'A' ch && leb ch b'Z' then ch + 32 else ch

unfoldable pub skip_space : List ℕ → List ℕ
skip_space [] = []
skip_space (ch ∷ s) = if is_space ch then skip_space s else ch ∷ s

unfoldable pub get_header_string_value : List ℕ → List ℕ
get_header_string_value [] = []
get_header_string_value (ch ∷ s) = if ch == b':' then skip_space s else get_header_string_value s

-- The message with a header's value, which may be `NULL`, and the number of bytes added.
unfoldable pub add_header_value_to_sign_string : List ℕ → Option (List ℕ) → List ℕ × ℕ
add_header_value_to_sign_string message none = (message ++ codes "\n", 1)
add_header_value_to_sign_string message (some value) =
    ((message ++ value) ++ codes "\n", length value + 1)

unfoldable pub signable_path : List ℕ → List ℕ
signable_path [] = []
signable_path (ch ∷ path) = if ch == b'?' then [] else ch ∷ signable_path path

-- `strncasecmp( s, name, strlen( name ) ) == 0`
unfoldable pub has_name : List ℕ → List ℕ → Bool
has_name s [] = true
has_name [] (n ∷ name) = false
has_name (ch ∷ s) (n ∷ name) = to_lower ch == to_lower n && has_name s name

-- The branch that `CreateAwsSignature` takes for a header.
pub data HeaderKind : Type 0 where
  x_amz content_md5 content_type date other : HeaderKind

unfoldable pub header_kind : List ℕ → HeaderKind
header_kind header =
    if has_name header (codes "x-amz-")
    then x_amz
    else (if has_name header (codes "Content-MD5")
        then content_md5
        else (if has_name header (codes "Content-Type")
            then content_type
            else (if has_name header (codes "Date") then date else other)))

-- The loop that turns a header's key to lower case; the flag is `convertingHeaderKey`.
unfoldable pub lower_loop : Bool → List ℕ → List ℕ
lower_loop converting [] = []
lower_loop converting (ch ∷ s) =
    if ch == b':'
    then ch ∷ lower_loop false s
    else (if converting then to_lower ch ∷ lower_loop true s else ch ∷ lower_loop false s)

unfoldable pub lower_header : List ℕ → List ℕ
lower_header header = lower_loop true header
