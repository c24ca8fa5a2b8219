-- ===== src/S3Comms/HeaderRun.antt =====
-- Header lines: `GetHeaderStringValue` and `CurlWriteHeader` of src/s3comms.c on a line `key: value`.
use aws_s3fs.Common.{
  ℕ, ◌≡◌, refl, ◌∙◌, arith, true, false, ◌||◌, some, List, [], ◌∷◌, ◌++◌, length, length-append,
  take, take-append, take_of_length-le, leb, ◌==◌, All,
}
use aws_s3fs.Base64.Encode.{codes}
use aws_s3fs.Base64.Decode.{is_alnum}
use aws_s3fs.S3Comms.Header.{is_space, skip_space, get_header_string_value}
use aws_s3fs.S3Comms.Callbacks.{
  HeaderBuffer, skip_to_alnum, ends_key, split_key, skip_colon, value_end, header_data, store_pair,
  curl_write_header,
}

-- A key, and a value that does not start with a space or a colon and holds no end of line.
abbrev pub IsKeyChar : ℕ → Type 0
IsKeyChar ch = ends_key ch ≡ false

abbrev pub IsValueChar : ℕ → Type 0
IsValueChar ch = (ch == 0 || (ch == b'\r' || ch == b'\n')) ≡ false

skip_space-value :
    (ch : ℕ) (value : List ℕ) → is_space ch ≡ false → skip_space (ch ∷ value) ≡ ch ∷ value
unfolding skip_space
skip_space-value ch value h = rw h refl

-- The value of a header line is what stands behind the first colon and the spaces after it, when the
-- key holds no colon or end of line and the value starts with no space.
get_header_string_value-line :
    (key spaces : List ℕ) (ch : ℕ) (value : List ℕ)
    → All IsKeyChar key
    → All (λ (c : ℕ). is_space c ≡ true) spaces
    → is_space ch ≡ false
    → get_header_string_value (key ++ (b':' ∷ (spaces ++ (ch ∷ value)))) ≡ ch ∷ value
unfolding get_header_string_value skip_space
get_header_string_value-line [] [] ch value hk hs h = rw h refl
get_header_string_value-line [] (c ∷ spaces) ch value hk (hc, hs) h =
    rw hc (get_header_string_value-line [] spaces ch value tt hs h)
get_header_string_value-line (k ∷ key) spaces ch value (hk, hks) hs h =
    ground (arith, hk, get_header_string_value-line key spaces ch value hks hs h)

split_key-line :
    (key after : List ℕ)
    → All IsKeyChar key
    → split_key (key ++ (b':' ∷ after)) ≡ (key, b':' ∷ after)
unfolding split_key
split_key-line [] after h = refl
split_key-line (k ∷ key) after (h, hs) = rw (split_key-line key after hs, h) refl

value_end-line :
    (value : List ℕ) → All IsValueChar value → value_end (value ++ codes "\r\n") ≡ value
unfolding value_end
value_end-line [] h = refl
value_end-line (v ∷ value) (h, hs) = rw (h, value_end-line value hs) refl

-- A line `key: value` of the answer's header, of which the key starts with a letter or digit and holds
-- no colon or end of line, and the value is not empty, does not start with a space or a colon and
-- holds no zero byte or end of line, is stored as that pair.
curl_write_header-line :
    (k : ℕ) (key : List ℕ) (v : ℕ) (value behind : List ℕ) (buffer : HeaderBuffer)
    → is_alnum k ≡ true
    → All IsKeyChar (k ∷ key)
    → (v == b':' || is_space v) ≡ false
    → All IsValueChar (v ∷ value)
    → curl_write_header (k ∷ (key ++ (codes ": " ++ (v ∷ (value ++ codes "\r\n"))))) behind buffer
      ≡ some (store_pair (k ∷ key, some (v ∷ value)) buffer)
unfolding curl_write_header skip_to_alnum header_data skip_colon
curl_write_header-line k key v value behind buffer alnum hk start hv =
    let rest = codes ": " ++ (v ∷ (value ++ codes "\r\n")) in
    let line = k ∷ (key ++ rest) in
    let whole : take (length line) (line ++ behind) ≡ line =
      take-append (length line) line behind (omega arith)
      ∙ take_of_length-le (length line) line (omega arith) in
    let fits : leb (length line) (length (line ++ behind)) ≡ true =
      ground (arith, length-append {0} line behind) in
    let key_split = split_key-line (k ∷ key) (b' ' ∷ (v ∷ (value ++ codes "\r\n"))) hk in
    let value_read = value_end-line (v ∷ value) hv in
    rw (alnum, whole, key_split, start, value_read, fits) refl
