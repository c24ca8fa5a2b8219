-- ===== src/S3Comms/SignHeader.antt =====
-- What one header adds in `CreateAwsSignature` of src/s3comms.c.
use aws_s3fs.Common.{
  ℕ, ◌+◌, ◌≡◌, refl, ap, not, map, drop, arith, Bool, true, false, ◌&&◌, Bool-cases, inl, inr,
  Option, some, List, [], ◌∷◌, ◌++◌, length, length-append, append-nil, ◌==◌, if◌then◌else◌,
}
use aws_s3fs.Base64.Encode.{codes}
use aws_s3fs.S3Comms.Header.{
  header_kind, has_name, is_space, skip_space, signable_path, to_lower, get_header_string_value,
  lower_loop, lower_header,
}
use aws_s3fs.S3Comms.Signature.{Signing, take_header}

abbrev compatible : List ℕ → List ℕ → Bool
compatible [] m = true
compatible (a ∷ n) [] = true
compatible (a ∷ n) (b ∷ m) = to_lower a == to_lower b && compatible n m

-- A header with one name has no name that differs from it.
has_name-exclusive :
    (s n m : List ℕ) → compatible n m ≡ false → has_name s n ≡ true → has_name s m ≡ false
unfolding has_name
has_name-exclusive s [] m c h = absurd (ground (arith, c))
has_name-exclusive s (a ∷ n) [] c h = absurd (ground (arith, c))
has_name-exclusive [] (a ∷ n) (b ∷ m) c h = refl
has_name-exclusive (ch ∷ s) (a ∷ n) (b ∷ m) c h =
    let rest = has_name-exclusive s n m in ground (arith, rest, c, h)

-- The bytes before the first one that fails a test, and those from it on.
unfoldable pub take_while : (ℕ → Bool) → List ℕ → List ℕ
take_while p [] = []
take_while p (ch ∷ s) = if p ch then ch ∷ take_while p s else []

unfoldable pub drop_while : (ℕ → Bool) → List ℕ → List ℕ
drop_while p [] = []
drop_while p (ch ∷ s) = if p ch then drop_while p s else ch ∷ s

abbrev pub no_colon : ℕ → Bool
no_colon ch = not (ch == b':')

-- A header with its name, up to the first colon, in lower case.
abbrev pub lowered : List ℕ → List ℕ
lowered header = map to_lower (take_while no_colon header) ++ drop_while no_colon header

-- The value of a header: what stands behind the first colon and the white space after it.
abbrev pub header_value : List ℕ → List ℕ
header_value header = drop_while is_space (drop 1 (drop_while no_colon header))

lower_loop-rest : (s : List ℕ) → lower_loop false s ≡ s
unfolding lower_loop
lower_loop-rest [] = refl
lower_loop-rest (ch ∷ s) = elim (Bool-cases (ch == b':')) [
  | inl colon ↦ rw colon (ap (λ (t : List ℕ). ch ∷ t) (lower_loop-rest s))
  | inr other ↦ rw other (ap (λ (t : List ℕ). ch ∷ t) (lower_loop-rest s))
]

lower_header_lem : (header : List ℕ) → lower_header header ≡ lowered header
unfolding lower_header lower_loop take_while drop_while
lower_header_lem [] = refl
lower_header_lem (ch ∷ s) = elim (Bool-cases (ch == b':')) [
  | inl colon ↦ rw colon (ap (λ (t : List ℕ). ch ∷ t) (lower_loop-rest s))
  | inr other ↦ rw other (ap (λ (t : List ℕ). to_lower ch ∷ t) (lower_header_lem s))
]

skip_space_lem : (s : List ℕ) → skip_space s ≡ drop_while is_space s
unfolding skip_space drop_while
skip_space_lem [] = refl
skip_space_lem (ch ∷ s) = elim (Bool-cases (is_space ch)) [
  | inl space ↦ rw space (skip_space_lem s)
  | inr other ↦ rw other refl
]

header_value_lem : (header : List ℕ) → get_header_string_value header ≡ header_value header
unfolding get_header_string_value drop_while
header_value_lem [] = refl
header_value_lem (ch ∷ s) = elim (Bool-cases (ch == b':')) [
  | inl colon ↦ rw colon (skip_space_lem s)
  | inr other ↦ rw other (header_value_lem s)
]

pub signable_path_lem :
    (path : List ℕ) → signable_path path ≡ take_while (λ (ch : ℕ). not (ch == b'?')) path
unfolding signable_path take_while
signable_path_lem [] = refl
signable_path_lem (ch ∷ path) = elim (Bool-cases (ch == b'?')) [
  | inl query ↦ rw query refl
  | inr other ↦ rw other (ap (λ (t : List ℕ). ch ∷ t) (signable_path_lem path))
]

-- What a header adds to the string to sign, its value for a name, and the form it is sent in.
unfoldable pub amz_line : List ℕ → List ℕ
amz_line header = if has_name header (codes "x-amz-") then lowered header ++ codes "\n" else []

unfoldable pub newer_value : List ℕ → Option (List ℕ) → List ℕ → Option (List ℕ)
newer_value name old header = if has_name header name then some (header_value header) else old

unfoldable pub sent_header : List ℕ → List ℕ
sent_header header = if has_name header (codes "x-amz-") then lowered header else header

abbrev pub absorb : Signing → List ℕ → Signing
absorb st header = record {
  message_length = st.message_length + length (amz_line header);
  amz_headers = st.amz_headers ++ amz_line header;
  md5_value = newer_value (codes "Content-MD5") st.md5_value header;
  type_value = newer_value (codes "Content-Type") st.type_value header;
  date_value = newer_value (codes "Date") st.date_value header;
}

module _ (st : Signing) (header : List ℕ) where
  exclusive :
      (n m : List ℕ) → compatible n m ≡ false → has_name header n ≡ true → has_name header m ≡ false
  exclusive n m c h = has_name-exclusive header n m c h

  pub take_header_lem :
      take_header st header (header_kind header) ≡ (absorb st header, sent_header header)
  unfolding take_header header_kind amz_line newer_value sent_header
  take_header_lem =
      let same : st.message_length + 0 ≡ st.message_length = omega arith in
      let longer : length (lowered header ++ codes "\n") ≡ length (lowered header) + 1 =
        length-append (lowered header) (codes "\n") in
      let lower = lower_header_lem header in
      let value = header_value_lem header in
      elim (Bool-cases (has_name header (codes "x-amz-"))) [
        | inl x ↦
            rw
              (
                x,
                exclusive (codes "x-amz-") (codes "Content-MD5") refl x,
                exclusive (codes "x-amz-") (codes "Content-Type") refl x,
                exclusive (codes "x-amz-") (codes "Date") refl x,
                lower,
                longer,
              )
              refl
        | inr x ↦ elim (Bool-cases (has_name header (codes "Content-MD5"))) [
          | inl m ↦
              rw
                (
                  x,
                  m,
                  exclusive (codes "Content-MD5") (codes "Content-Type") refl m,
                  exclusive (codes "Content-MD5") (codes "Date") refl m,
                  append-nil,
                  same,
                  value,
                )
                refl
          | inr m ↦ elim (Bool-cases (has_name header (codes "Content-Type"))) [
            | inl t ↦
                rw
                  (
                    x,
                    m,
                    t,
                    exclusive (codes "Content-Type") (codes "Date") refl t,
                    append-nil,
                    same,
                    value,
                  )
                  refl
            | inr t ↦ elim (Bool-cases (has_name header (codes "Date"))) [
              | inl d ↦ rw (x, m, t, d, append-nil, same, value) refl
              | inr d ↦ rw (x, m, t, d, append-nil, same) refl
            ]
          ]
        ]
      ]
