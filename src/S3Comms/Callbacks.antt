-- ===== src/S3Comms/Callbacks.antt =====
-- `CurlWriteHeader`, `CurlReadData` and `CurlWriteData` of src/s3comms.c, the functions that libcurl
-- calls with a block of `toCopy` bytes.
use aws_s3fs.Common.{
  ℕ, zero, suc, ◌+◌, ◌*◌, ◌%◌, Bool, true, false, ◌||◌, Option, none, some, List, [], ◌∷◌, ◌++◌,
  length, take, get_or, leb, ltb, ◌==◌, if◌then◌else◌,
}
use aws_s3fs.Base64.Encode.{◌>>=◌}
use aws_s3fs.Base64.Decode.{is_alnum}
use aws_s3fs.S3Comms.Header.{is_space}

-- `struct CurlReadBuffer`
pub record CurlReadBuffer : Type 0 where
  pub data_bytes : List ℕ
  pub size : ℕ
  pub offset : ℕ

-- The loop, `left` being how often its test on `bytesCopied` still holds, and `total` `accumulatedTotal`.
unfoldable pub read_loop : ℕ → CurlReadBuffer → ℕ → List ℕ × ℕ
read_loop zero buffer total = ([], total)
read_loop (suc left) buffer total =
    let (copied, end) = read_loop left buffer (total + 1) in
    if ltb total buffer.size then (get_or buffer.data_bytes total 0 ∷ copied, end) else ([], total)

-- The bytes written to `ptr`, and the buffer behind the call. `bytesCopied <= maxWrite` holds for the
-- counts 0 to `maxWrite`.
unfoldable pub curl_read_data : ℕ → CurlReadBuffer → List ℕ × CurlReadBuffer
curl_read_data max_write buffer =
    let (copied, total) = read_loop (max_write + 1) buffer buffer.offset in
    (copied, record buffer { offset = total })

-- `struct CurlWriteBuffer` as `CurlWriteData` uses it; `none` is `data == NULL`.
pub record CurlWriteBuffer : Type 0 where
  pub written : Option (List ℕ)
  pub size : ℕ

-- The bytes before `size` are kept by `realloc`, the block is copied behind them and a zero behind it.
unfoldable pub write_block : Option (List ℕ) → ℕ → List ℕ → List ℕ
write_block none size block = block ++ (0 ∷ [])
write_block (some old) size block = take size old ++ (block ++ (0 ∷ []))

abbrev start_size : CurlWriteBuffer → ℕ
start_size buffer = elim buffer.written [ none ↦ 0 | some _ ↦ buffer.size ]

unfoldable pub curl_write_data : List ℕ → CurlWriteBuffer → CurlWriteBuffer
curl_write_data block buffer = record {
  written = some (write_block buffer.written buffer.size block);
  size = start_size buffer + length block + 1;
}

-- `struct CurlWriteBuffer` as `CurlWriteHeader` uses it: the pairs written, the index `size` of the last
-- of them, and for how many pairs there is room.
pub record HeaderBuffer : Type 0 where
  pub pairs : List (List ℕ × Option (List ℕ))
  pub size : ℕ
  pub room : ℕ
  pub is_null : Bool

-- Memory from `ptr` on, once the characters that are not alphanumeric are skipped; `none` when the
-- memory ends before one is found.
unfoldable pub skip_to_alnum : List ℕ → Option (List ℕ)
skip_to_alnum [] = none
skip_to_alnum (ch ∷ memory) =
    let rest = skip_to_alnum memory in if is_alnum ch then some (ch ∷ memory) else rest

-- The key among the first `toCopy` bytes of the memory, and what follows it.
abbrev pub ends_key : ℕ → Bool
ends_key ch = ch == b':' || (ch == b'\n' || ch == b'\r')

unfoldable pub split_key : List ℕ → List ℕ × List ℕ
split_key [] = ([], [])
split_key (ch ∷ line) =
    let (key, rest) = split_key line in if ends_key ch then ([], ch ∷ line) else (ch ∷ key, rest)

unfoldable pub skip_colon : List ℕ → List ℕ
skip_colon [] = []
skip_colon (ch ∷ line) = if ch == b':' || is_space ch then skip_colon line else ch ∷ line

unfoldable pub value_end : List ℕ → List ℕ
value_end [] = []
value_end (ch ∷ line) = if ch == 0 || (ch == b'\r' || ch == b'\n') then [] else ch ∷ value_end line

-- The header's value: `none` is `NULL`. `after` is what follows the key among the first `toCopy` bytes.
unfoldable pub header_data : List ℕ → Option (List ℕ)
header_data [] = none
header_data (ch ∷ after) =
    if ch == b'\n' || ch == b'\r'
    then none
    else elim (skip_colon (ch ∷ after)) [ [] ↦ none | ◌∷◌ c rest ↦ some (value_end (c ∷ rest)) ]

-- The pair in the array, which has room for ten pairs more whenever its index is a multiple of ten.
unfoldable pub store_pair : List ℕ × Option (List ℕ) → HeaderBuffer → HeaderBuffer
store_pair pair buffer =
    let next = buffer.size + 1 in
    if buffer.is_null
    then record { pairs = pair ∷ []; size = 0; room = 10; is_null = false }
    else record {
      pairs = buffer.pairs ++ (pair ∷ []);
      size = next;
      room = if next % 10 == 0 then (next + 1) * 10 else buffer.room;
      is_null = false;
    }

abbrev pub is_empty_header : List ℕ → Option (List ℕ) → Bool
is_empty_header [] none = true
is_empty_header _ _ = false

-- A line of the answer's header; `behind` is the memory known behind the block that libcurl passes,
-- and `none` says that the call may read past it.
unfoldable pub curl_write_header : List ℕ → List ℕ → HeaderBuffer → Option HeaderBuffer
curl_write_header block behind buffer = do
  memory ← skip_to_alnum (block ++ behind)
  let (key, after) = split_key (take (length block) memory)
  let value = header_data after
  let next = if is_empty_header key value then buffer else store_pair (key, value) buffer
  if leb (length block) (length memory) then some next else none
