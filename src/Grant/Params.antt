-- ===== src/Grant/Params.antt =====
-- `GetIntParameter`, `GetFileParameter` and `VerifyFilename` of src/grant.c. A parameter string is the list of
-- its bytes before the terminator.
use aws_s3fs.Common.{
  ℕ, zero, suc, ◌+◌, ◌-◌, ◌*◌, ◌^◌, Bool, true, ◌&&◌, ◌||◌, Option, none, some, List, [], ◌∷◌,
  length, leb, ◌==◌, if◌then◌else◌,
}
use aws_s3fs.Base64.Decode.{is_alnum}
use aws_s3fs.S3Comms.Header.{is_space}

-- `isdigit` and `ispunct` in the C locale
abbrev pub is_digit : ℕ → Bool
is_digit ch = leb b'0' ch && leb ch b'9'

abbrev pub is_punct : ℕ → Bool
is_punct ch =
    (leb 33 ch && leb ch 47)
    || ((leb 58 ch && leb ch 64) || ((leb 91 ch && leb ch 96) || (leb 123 ch && leb ch 126)))

unfoldable pub skip_to_alnum : List ℕ → List ℕ
skip_to_alnum [] = []
skip_to_alnum (ch ∷ s) = if is_alnum ch then ch ∷ s else skip_to_alnum s

-- The loop over the digits: `valueLength` stays 0 in it, so that it takes all of them.
unfoldable pub read_digits : ℕ → List ℕ → ℕ × List ℕ
read_digits value [] = (value, [])
read_digits value (ch ∷ s) =
    if is_digit ch then read_digits (value * 10 + (ch - b'0')) s else (value, ch ∷ s)

-- The integer: -1 is `bad_number`, and a value that an `int` does not hold is `overflow`.
pub data IntParameter : Type 0 where
  number : ℕ → IntParameter
  bad_number overflow : IntParameter

unfoldable pub ends_number : List ℕ → Bool
ends_number [] = true
ends_number (ch ∷ s) = ch == b':'

-- The value and the string from the position that is returned on.
unfoldable pub get_int_parameter : List ℕ → IntParameter × List ℕ
get_int_parameter parameterlist =
    let (value, rest) = read_digits 0 (skip_to_alnum parameterlist) in
    (
      if leb (2 ^ 31) value
          then overflow
          else (if ends_number rest then number value else bad_number),
      rest,
    )

unfoldable pub skip_symbols : List ℕ → List ℕ
skip_symbols [] = []
skip_symbols (ch ∷ s) = if is_space ch || is_punct ch then skip_symbols s else ch ∷ s

-- What `GetFileParameter` reads: the name, the last character that it has passed, and the string behind
-- it; `none` is a position behind the terminator.
pub record FileParameter : Type 0 where
  pub filename : List ℕ
  pub last : ℕ
  pub rest : Option (List ℕ)

-- The loop, with the number of characters that still have room.
unfoldable pub read_name : ℕ → List ℕ → FileParameter
read_name room [] = record { filename = []; last = 0; rest = none }
read_name zero (ch ∷ s) = record { filename = []; last = ch; rest = some s }
read_name (suc room) (ch ∷ s) =
    let more = read_name room s in
    if is_alnum ch
    then record more { filename = ch ∷ more.filename }
    else record { filename = []; last = ch; rest = some s }

unfoldable pub get_file_parameter : List ℕ → FileParameter
get_file_parameter parameterlist = read_name 6 (skip_symbols parameterlist)

abbrev pub all_alnum : List ℕ → Bool
all_alnum [] = true
all_alnum (ch ∷ s) = is_alnum ch && all_alnum s

-- A name of at most six characters in an array of seven: its terminator is one of the six characters
-- that are looked at if it is shorter.
unfoldable pub verify_filename : List ℕ → Bool
verify_filename filename = (length filename == 6) && all_alnum filename
