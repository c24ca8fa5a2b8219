-- ===== src/Base64/Rfc.antt =====
-- RFC 4648, section 4, as arithmetic: the description that the C code is held against.
use aws_s3fs.Common.{
  ℕ, ◌+◌, ◌-◌, ◌*◌, ◌/◌, ◌%◌, ◌<◌, ◌≡◌, refl, List, [], ◌∷◌, ltb, ◌==◌, if◌then◌else◌,
}
use aws_s3fs.Common.Bits.{agree_below, agree_below→eq}
use aws_s3fs.Base64.Encode.{to_char}

-- Table 1 of the RFC.
unfoldable pub rfc_char : ℕ → ℕ
rfc_char i =
    if ltb i 26
    then b'A' + i
    else if ltb i 52
    then b'a' + (i - 26)
    else if ltb i 62
    then b'0' + (i - 52)
    else if i == 62
    then b'+'
    else b'/'

-- A 24-bit group is four digits in base 64; a short last group is filled with zero bits and padded.
unfoldable pub rfc4648 : List ℕ → List ℕ
rfc4648 [] = []
rfc4648 (a ∷ []) = rfc_char (a / 4) ∷ rfc_char (a * 16 % 64) ∷ b'=' ∷ b'=' ∷ []
rfc4648 (a ∷ b ∷ []) =
    let group = a * 1024 + b * 4 in
    rfc_char (group / 4096) ∷ rfc_char (group / 64 % 64) ∷ rfc_char (group % 64) ∷ b'=' ∷ []
rfc4648 (a ∷ b ∷ c ∷ rest) =
    let group = a * 65536 + b * 256 + c in
    rfc_char (group / 262144)
    ∷ rfc_char (group / 4096 % 64)
    ∷ rfc_char (group / 64 % 64)
    ∷ rfc_char (group % 64)
    ∷ rfc4648 rest

pub to_char-eq-rfc_char : (i : ℕ) → i < 64 → to_char i ≡ rfc_char i
unfolding agree_below to_char rfc_char
to_char-eq-rfc_char = agree_below→eq _ _ 64 refl
