-- ===== src/Base64/Encode.antt =====
-- `EncodeBase64` of src/base64.c. The array `array3` is an argument of the loop: the bytes taken since the last
-- group. Characters and bytes are numbers below 256.
use Prim.Native.Char.{code}
use Prim.Native.String.{String}
use aws_s3fs.Common.{
  ℕ, ◌+◌, ◌-◌, ◌*◌, ◌/◌, bit_and, bit_or, Option, none, some, List, [], ◌∷◌, ◌++◌, map, length,
  take, replicate, get_or, leb, if◌then◌else◌,
}

-- The bytes of an ASCII literal.
abbrev pub codes : String → List ℕ
codes String.[] = []
codes (String.◌∷◌ c s) = code c ∷ codes s

infixl 5 ◌>>=◌
abbrev pub ◌>>=◌ {ℓ κ} : {A : Type ℓ} {B : Type κ} → Option A → (A → Option B) → Option B
none >>= f = none
some a >>= f = f a

-- `toBase64`
abbrev pub to_base64 : List ℕ
to_base64 = codes "ABCDEFGHIJKLMNOPQRSTUVWXYZabcdefghijklmnopqrstuvwxyz0123456789+/"

-- `toBase64[ sextet ]`
unfoldable pub to_char : ℕ → ℕ
to_char sextet = get_or to_base64 sextet 0

pub record EncodeState : Type 0 where
  pub result : List ℕ
  pub alloc_count : ℕ
  pub build_buffer : List ℕ

-- `array4` from `array3`
unfoldable pub expand3 : ℕ → ℕ → ℕ → List ℕ
expand3 a b c =
    (bit_and a 0xfc / 4)
    ∷ bit_or (bit_and a 0x03 * 16) (bit_and b 0xf0 / 16)
    ∷ bit_or (bit_and b 0x0f * 4) (bit_and c 0xc0 / 64)
    ∷ bit_and c 0x3f
    ∷ []

-- `buildBuffer[ buildIdx++ ] = …` for each character
unfoldable pub write_chars : ℕ → List ℕ → EncodeState → Option EncodeState
write_chars size chars st =
    if leb (length st.build_buffer + length chars) size
    then some (record st { build_buffer = st.build_buffer ++ chars })
    else none

-- `buildBuffer[ buildIdx ] = '\0'; strcat( result, buildBuffer )`
unfoldable pub append_buffer : ℕ → EncodeState → Option EncodeState
append_buffer size st =
    if leb (length st.build_buffer + 1) size
    then (if leb (length st.result + length st.build_buffer + 1) (st.alloc_count * size)
        then some (record st { result = st.result ++ st.build_buffer })
        else none)
    else none

-- The allocation of a new block when the current one is full.
unfoldable pub flush_encoded : ℕ → EncodeState → Option EncodeState
unfolding append_buffer
flush_encoded size st =
    if leb (size - 6) (length st.build_buffer)
    then (do
      st' ← append_buffer size st
      some (record st' { alloc_count = st'.alloc_count + 1; build_buffer = [] }))
    else some st

-- The characters of the last, incomplete group: `count` bytes of `array3` are taken, the others 0.
unfoldable pub last_group : ℕ → List ℕ → List ℕ
last_group count array4 = map to_char (take (count + 1) array4) ++ replicate (3 - count) b'='

unfoldable pub finish_encode : ℕ → EncodeState → List ℕ → Option (List ℕ)
unfolding write_chars append_buffer last_group expand3
finish_encode size st (a ∷ b ∷ _) = do
  st' ← write_chars size (last_group 2 (expand3 a b 0)) st
  st'' ← append_buffer size st'
  some st''.result
finish_encode size st (a ∷ []) = do
  st' ← write_chars size (last_group 1 (expand3 a 0 0)) st
  st'' ← append_buffer size st'
  some st''.result
finish_encode size st [] = some st.result

unfoldable pub encode_loop : ℕ → EncodeState → List ℕ → List ℕ → Option (List ℕ)
unfolding finish_encode flush_encoded
encode_loop size st array3 [] = finish_encode size st array3
encode_loop size st (a ∷ b ∷ []) (c ∷ source) = do
  st' ← write_chars size (map to_char (expand3 a b c)) st
  st'' ← flush_encoded size st'
  encode_loop size st'' [] source
encode_loop size st array3 (ch ∷ source) = encode_loop size st (array3 ++ ch ∷ []) source

unfoldable pub encode : ℕ → List ℕ → Option (List ℕ)
unfolding encode_loop
encode size source =
    encode_loop size (record { result = []; alloc_count = 1; build_buffer = [] }) [] source
