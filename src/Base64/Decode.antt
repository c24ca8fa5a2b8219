-- ===== src/Base64/Decode.antt =====
-- `isBase64` and `DecodeBase64` of src/base64.c. The array `array4` is an argument of the loop: the characters
-- taken since the last group. The block `result` is written from its start without a gap, so it is
-- the list of the bytes written; what lies behind them came from `malloc` and is indeterminate.
use aws_s3fs.Common.{
  ℕ, zero, suc, ◌+◌, ◌-◌, ◌*◌, ◌/◌, ◌%◌, bit_and, bit_or, Bool, true, false, not, ◌&&◌, ◌||◌,
  Option, none, some, List, [], ◌∷◌, ◌++◌, map, length, take, get_or, leb, ◌==◌, if◌then◌else◌,
}
use aws_s3fs.Base64.Encode.{◌>>=◌}

-- `isalnum` in the C locale
abbrev pub is_alnum : ℕ → Bool
is_alnum ch =
    (leb b'0' ch && leb ch b'9') || ((leb b'A' ch && leb ch b'Z') || (leb b'a' ch && leb ch b'z'))

unfoldable pub is_base64 : ℕ → Bool
is_base64 ch = is_alnum ch || (ch == b'/' || ch == b'+')

-- `fromBase64_idx43`
abbrev pub from_base64 : List ℕ
from_base64 =
    62 ∷ 0 ∷ 0 ∷ 0 ∷ 63 ∷ 52 ∷ 53 ∷ 54 ∷ 55 ∷ 56 ∷ 57 ∷ 58 ∷ 59 ∷ 60 ∷ 61 ∷ 0 ∷ 0 ∷ 0 ∷ 0 ∷ 0 ∷ 0
    ∷ 0 ∷ 0 ∷ 1 ∷ 2 ∷ 3 ∷ 4 ∷ 5 ∷ 6 ∷ 7 ∷ 8 ∷ 9 ∷ 10 ∷ 11 ∷ 12 ∷ 13 ∷ 14 ∷ 15 ∷ 16 ∷ 17 ∷ 18 ∷ 19
    ∷ 20 ∷ 21 ∷ 22 ∷ 23 ∷ 24 ∷ 25 ∷ 0 ∷ 0 ∷ 0 ∷ 0 ∷ 0 ∷ 0 ∷ 26 ∷ 27 ∷ 28 ∷ 29 ∷ 30 ∷ 31 ∷ 32 ∷ 33
    ∷ 34 ∷ 35 ∷ 36 ∷ 37 ∷ 38 ∷ 39 ∷ 40 ∷ 41 ∷ 42 ∷ 43 ∷ 44 ∷ 45 ∷ 46 ∷ 47 ∷ 48 ∷ 49 ∷ 50 ∷ 51 ∷ []

-- `fromBase64_idx43[ ch - 43 ]`; the loop has tested `isBase64`, so the index is in the table.
unfoldable pub sextet : ℕ → ℕ
sextet ch = get_or from_base64 (ch - 43) 0

pub record DecodeState : Type 0 where
  pub result : List ℕ
  pub alloc_count : ℕ
  pub build_buffer : List ℕ
  pub decoded_length : ℕ

-- `array3` from `array4`; the elements are `unsigned char`.
unfoldable pub compact4 : ℕ → ℕ → ℕ → ℕ → List ℕ
compact4 a b c d =
    (bit_or (a * 4) (bit_and b 0x30 / 16) % 256)
    ∷ (bit_or (bit_and b 0x0f * 16) (bit_and c 0x3c / 4) % 256)
    ∷ (bit_or (bit_and c 0x03 * 64) d % 256)
    ∷ []

-- `buildBuffer[ buildIdx++ ] = …` for each byte, and `decodedLength`
unfoldable pub write_bytes : ℕ → List ℕ → DecodeState → Option DecodeState
write_bytes size bytes st =
    if leb (length st.build_buffer + length bytes) size
    then some (record st {
      build_buffer = st.build_buffer ++ bytes;
      decoded_length = st.decoded_length + length bytes;
    })
    else none

-- `memcpy( &result[ blockBegin ], buildBuffer, buildIdx )`
unfoldable pub copy_buffer : ℕ → DecodeState → Option DecodeState
copy_buffer size st =
    if leb (length st.result + length st.build_buffer) (st.alloc_count * size)
    then some (record st { result = st.result ++ st.build_buffer })
    else none

unfoldable pub flush_decoded : ℕ → DecodeState → Option DecodeState
unfolding copy_buffer
flush_decoded size st =
    if leb (size - 5) (length st.build_buffer)
    then (do
      st' ← copy_buffer size st
      some (record st' { alloc_count = st'.alloc_count + 1; build_buffer = [] }))
    else some st

-- The first bytes of the block; `none` is an indeterminate byte.
unfoldable pub read_block : ℕ → List ℕ → List (Option ℕ)
read_block zero block = []
read_block (suc n) [] = none ∷ read_block n []
read_block (suc n) (b ∷ block) = some b ∷ read_block n block

-- `memcpy( toReturn, result, decodedLength )`
unfoldable pub return_block : ℕ → DecodeState → Option (List (Option ℕ))
unfolding read_block
return_block size st =
    if leb st.decoded_length (st.alloc_count * size)
    then some (read_block st.decoded_length st.result)
    else none

-- The remaining characters; `array4` is filled up with zeros.
unfoldable pub finish_decode : ℕ → DecodeState → List ℕ → Option (List (Option ℕ))
finish_decode size st [] = return_block size st
finish_decode size st (ch ∷ more) = do
  let array4 = map sextet (ch ∷ more)
  let array3 =
      compact4 (get_or array4 0 0) (get_or array4 1 0) (get_or array4 2 0) (get_or array4 3 0)
  st' ← write_bytes size (take (length more) array3) st
  st'' ← copy_buffer size st'
  return_block size st''

-- The condition of the loop.
unfoldable pub is_accepted : ℕ → Bool
unfolding is_base64
is_accepted ch = not (ch == b'=') && is_base64 ch

unfoldable pub decode_loop : ℕ → DecodeState → List ℕ → List ℕ → Option (List (Option ℕ))
decode_loop size st array4 [] = finish_decode size st array4
decode_loop size st (a ∷ b ∷ c ∷ []) (d ∷ source) = elim (is_accepted d) [
  | true ↦ do
    st' ← write_bytes size (compact4 (sextet a) (sextet b) (sextet c) (sextet d)) st
    st'' ← flush_decoded size st'
    decode_loop size st'' [] source
  | false ↦ finish_decode size st (a ∷ b ∷ c ∷ [])
]
decode_loop size st array4 (ch ∷ source) = elim (is_accepted ch) [
  | true ↦ decode_loop size st (array4 ++ ch ∷ []) source
  | false ↦ finish_decode size st array4
]

unfoldable pub decode : ℕ → List ℕ → Option (List (Option ℕ))
decode size source =
    decode_loop size
      (record { result = []; alloc_count = 1; build_buffer = []; decoded_length = 0 }) [] source
