-- ===== src/Config/KeysRun.antt =====
-- `ConfigSetKey` of src/config.c on the strings that it is meant for.
use aws_s3fs.Common.{
  ℕ, suc, ◌+◌, ◌≡◌, refl, ◌∙◌, arith, Bool, true, false, some, List, [], ◌∷◌, ◌++◌, length, drop,
  All, ◌==◌, append-nil,
}
use aws_s3fs.S3Comms.Header.{is_space}
use aws_s3fs.Config.Keys.{
  read_key, is_separator, next_key, extract_key, set_secret_key, config_set_key,
}

-- The characters of a key are neither white space nor a colon.
abbrev IsKeyText : List ℕ → Type 0
IsKeyText = All (λ (ch : ℕ). (is_space ch ≡ false) × ((ch == b':') ≡ false))

abbrev IsBlank : List ℕ → Type 0
IsBlank = All (λ (ch : ℕ). is_space ch ≡ true)

abbrev IsGap : List ℕ → Type 0
IsGap = All (λ (ch : ℕ). is_separator ch ≡ true)

read_key_append :
    (key : List ℕ) (index : ℕ) (s : List ℕ)
    → IsKeyText key
    → read_key index (key ++ s) ≡ record (read_key (index + length key) s) {
      key = key ++ (read_key (index + length key) s).key;
    }
unfolding read_key
read_key_append [] index s h = let e : index + 0 ≡ index = omega arith in rw e refl
read_key_append (ch ∷ key) index s ((space, colon), hs) =
    let e : index + suc (length key) ≡ suc index + length key = omega arith in
    rw (space, colon, e, read_key_append key (suc index) s hs) refl

read_key_blank :
    (blank : List ℕ) (index : ℕ) (s : List ℕ)
    → IsBlank blank
    → read_key index (blank ++ s) ≡ read_key (index + length blank) s
unfolding read_key
read_key_blank [] index s h = let e : index + 0 ≡ index = omega arith in rw e refl
read_key_blank (ch ∷ blank) index s (h, hs) =
    let e : index + suc (length blank) ≡ suc index + length blank = omega arith in
    rw (h, e) (read_key_blank blank (suc index) s hs)

next_key_gap :
    (gap : List ℕ) (index : ℕ) (s : List ℕ)
    → IsGap gap
    → next_key index (gap ++ s) ≡ next_key (index + length gap) s
unfolding next_key
next_key_gap [] index s h = let e : index + 0 ≡ index = omega arith in rw e refl
next_key_gap (ch ∷ gap) index s (h, hs) =
    let e : index + suc (length gap) ≡ suc index + length gap = omega arith in
    rw (h, e) (next_key_gap gap (suc index) s hs)

drop-length : (xs ys : List ℕ) → drop (length xs) (xs ++ ys) ≡ ys
drop-length [] ys = refl
drop-length (x ∷ xs) ys = drop-length xs ys

-- A key that white space and a colon follow.
read_key_colon :
    (key blank s : List ℕ)
    → IsKeyText key
    → IsBlank blank
    → read_key 0 (key ++ (blank ++ (b':' ∷ s)))
      ≡ record { key = key; index = length key + length blank; rest = b':' ∷ s }
unfolding read_key
read_key_colon key blank s hk hb =
    let start : 0 + length key ≡ length key = omega arith in
    rw
      (
        read_key_append key 0 (blank ++ (b':' ∷ s)) hk,
        start,
        read_key_blank blank (length key) (b':' ∷ s) hb,
        append-nil key,
      )
      refl

-- A key that the string ends with.
read_key_last : (key : List ℕ) (index : ℕ) → IsKeyText key → (read_key index key).key ≡ key
unfolding read_key
read_key_last [] index h = refl
read_key_last (ch ∷ key) index ((space, colon), hs) =
    rw (space, colon, read_key_last key (suc index) hs) refl

next_key_start :
    (index ch : ℕ) (s : List ℕ)
    → is_space ch ≡ false
    → (ch == b':') ≡ false
    → next_key index (ch ∷ s) ≡ index
unfolding next_key
next_key_start index ch s space colon = rw (space, colon) refl

-- The string behind two others.
drop_two : (xs ys zs : List ℕ) → drop (length xs + length ys) (xs ++ (ys ++ zs)) ≡ zs
drop_two [] ys zs = let e : 0 + length ys ≡ length ys = omega arith in rw e (drop-length ys zs)
drop_two (x ∷ xs) ys zs =
    let e : suc (length xs) + length ys ≡ suc (length xs + length ys) = omega arith in
    rw e (drop_two xs ys zs)

drop_three :
    (xs ys zs ws : List ℕ)
    → drop (length xs + length ys + length zs) (xs ++ (ys ++ (zs ++ ws))) ≡ ws
drop_three [] ys zs ws =
    let e : 0 + length ys + length zs ≡ length ys + length zs = omega arith in
    rw e (drop_two ys zs ws)
drop_three (x ∷ xs) ys zs ws =
    let e : suc (length xs) + length ys + length zs ≡ suc (length xs + length ys + length zs) =
      omega arith in
    rw e (drop_three xs ys zs ws)

-- From an access key, white space, a colon, more white space and colons, and a secret key that is not
-- empty, exactly these two keys are set, and the error flag is left as it was.
pub config_set_key-pair :
    (key_id blank gap : List ℕ) (ch : ℕ) (secret : List ℕ) (config_error : Bool)
    → IsKeyText key_id
    → IsBlank blank
    → IsGap gap
    → IsKeyText (ch ∷ secret)
    → config_set_key (some (key_id ++ (blank ++ (b':' ∷ (gap ++ (ch ∷ secret)))))) config_error
      ≡ record {
        key_id = some key_id;
        secret_key = some (ch ∷ secret);
        config_error = config_error;
      }
unfolding config_set_key set_secret_key extract_key
config_set_key-pair key_id blank gap ch secret config_error hk hb hg ((space, colon), hs) =
    let next = length key_id + length blank + suc (length gap) in
    let found : next_key (length key_id + length blank) (b':' ∷ (gap ++ (ch ∷ secret))) ≡ next =
      next_key_gap (b':' ∷ gap) (length key_id + length blank) (ch ∷ secret) (refl, hg)
      ∙ next_key_start next ch secret space colon in
    let more : (next == 0) ≡ false = ground arith in
    rw
      (
        read_key_colon key_id blank (gap ++ (ch ∷ secret)) hk hb,
        found,
        more,
        drop_three key_id blank (b':' ∷ gap) (ch ∷ secret),
        read_key_last (ch ∷ secret) next ((space, colon), hs),
      )
      refl
