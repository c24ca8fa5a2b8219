-- ===== src/Config/Keys.antt =====
-- `ExtractKey` and `ConfigSetKey` of src/config.c.
use aws_s3fs.Common.{
  ℕ, suc, Bool, true, ◌||◌, Option, none, some, List, [], ◌∷◌, ◌==◌, drop, if◌then◌else◌,
}
use aws_s3fs.Base64.Encode.{codes}
use aws_s3fs.S3Comms.Header.{is_space}

-- A key that is read, the index behind it and the string from there on.
pub record ReadKey : Type 0 where
  pub key : List ℕ
  pub index : ℕ
  pub rest : List ℕ

unfoldable pub read_key : ℕ → List ℕ → ReadKey
read_key index [] = record { key = []; index = index; rest = [] }
read_key index (ch ∷ s) =
    let more = read_key (suc index) s in
    if is_space ch
    then more
    else (if ch == b':'
        then record { key = []; index = index; rest = ch ∷ s }
        else record more { key = ch ∷ more.key })

abbrev pub is_separator : ℕ → Bool
is_separator ch = is_space ch || (ch == b':')

-- The index behind the separators; 0 at the end of the string.
unfoldable pub next_key : ℕ → List ℕ → ℕ
next_key index [] = 0
next_key index (ch ∷ s) = if is_separator ch then next_key (suc index) s else index

unfoldable pub extract_key : ℕ → Option (List ℕ) → Option (List ℕ) × ℕ
extract_key index none = (none, 0)
extract_key index (some config_value) =
    let read = read_key index (drop index config_value) in
    (some read.key, next_key read.index read.rest)

pub record Keys : Type 0 where
  pub key_id : Option (List ℕ)
  pub secret_key : Option (List ℕ)
  pub config_error : Bool

abbrev invalid_secret_key : Option (List ℕ)
invalid_secret_key = some (codes "*")

-- The secret key behind the access key.
unfoldable pub set_secret_key : Option (List ℕ) × ℕ → Option (List ℕ) → Bool → Keys
set_secret_key (none, next) config_value config_error = record {
  key_id = none;
  secret_key = invalid_secret_key;
  config_error = true;
}
set_secret_key (some key_id, next) config_value config_error =
    if next == 0
    then record { key_id = some key_id; secret_key = invalid_secret_key; config_error = true }
    else (let (secret_key, end) = extract_key next config_value in
        record { key_id = some key_id; secret_key = secret_key; config_error = config_error })

-- The keys that were set before are freed.
unfoldable pub config_set_key : Option (List ℕ) → Bool → Keys
config_set_key config_value config_error =
    set_secret_key (extract_key 0 config_value) config_value config_error
