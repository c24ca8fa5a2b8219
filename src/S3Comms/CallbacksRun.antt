-- ===== src/S3Comms/CallbacksRun.antt =====
-- What the callbacks of src/s3comms.c do in a call and over a whole transfer.
use mathlib.Core.List.{flatten}
use aws_s3fs.Common.{
  ℕ, zero, suc, ◌+◌, ◌*◌, ◌/◌, ◌≡◌, ◌≤◌, ◌<◌, ◌⊎◌, inl, inr, refl, arith, true, Bool-cases, Option,
  none, some, List, [], ◌∷◌, ◌++◌, map, length, length-append, append-nil, append_assoc, take, drop,
  take_of_length-le, length-take, length-drop, get_or, ltb,
}
use aws_s3fs.S3Comms.Callbacks.{
  CurlReadBuffer, read_loop, curl_read_data, CurlWriteBuffer, write_block, curl_write_data,
  HeaderBuffer, store_pair,
}

drop-get_or :
    (total : ℕ) (bytes : List ℕ)
    → total < length bytes
    → drop total bytes ≡ get_or bytes total 0 ∷ drop (suc total) bytes
drop-get_or total [] h = absurd (omega arith)
drop-get_or zero (b ∷ bytes) h = refl
drop-get_or (suc total) (b ∷ bytes) h = drop-get_or total bytes (omega arith)

drop_end : (total : ℕ) (bytes : List ℕ) → length bytes ≤ total → drop total bytes ≡ []
drop_end zero [] h = refl
drop_end zero (b ∷ bytes) h = absurd (omega arith)
drop_end (suc total) [] h = refl
drop_end (suc total) (b ∷ bytes) h = drop_end total bytes (omega arith)

take-nil : (n : ℕ) → take {A = ℕ} n [] ≡ []
take-nil zero = refl
take-nil (suc n) = refl

read_loop-take :
    (left : ℕ) (buffer : CurlReadBuffer) (total : ℕ)
    → buffer.size ≡ length buffer.data_bytes
    → read_loop left buffer total ≡ (
      take left (drop total buffer.data_bytes),
      total + length (take left (drop total buffer.data_bytes)),
    )
unfolding read_loop
read_loop-take zero buffer total whole = let e : total + 0 ≡ total = omega arith in rw e refl
read_loop-take (suc left) buffer total whole = elim (Bool-cases (ltb total buffer.size)) [
  | inl more ↦
      let room : total < length buffer.data_bytes = ground (arith, more, whole) in
      let next : total + 1 ≡ suc total = omega arith in
      let rest = read_loop-take left buffer (suc total) whole in
      let tail = take left (drop (suc total) buffer.data_bytes) in
      let sum : suc total + length tail ≡ total + suc (length tail) = omega arith in
      rw (next, rest, more, drop-get_or total buffer.data_bytes room, sum) refl
  | inr done ↦
      let end : length buffer.data_bytes ≤ total = ground (arith, done, whole) in
      let e : total + 0 ≡ total = omega arith in
      rw (done, drop_end total buffer.data_bytes end, e) refl
]

-- When the buffer's size is that of its data, a call that libcurl allows `max_write` bytes hands over the next `max_write + 1` bytes of the data,
-- or what is left of it, and moves the offset by as much.
curl_read_data-take :
    (max_write : ℕ) (buffer : CurlReadBuffer)
    → buffer.size ≡ length buffer.data_bytes
    → curl_read_data max_write buffer ≡ (
      take (max_write + 1) (drop buffer.offset buffer.data_bytes),
      record buffer {
        offset =
            buffer.offset + length (take (max_write + 1) (drop buffer.offset buffer.data_bytes));
      },
    )
unfolding curl_read_data
curl_read_data-take max_write buffer whole =
    rw (read_loop-take (max_write + 1) buffer buffer.offset whole) refl

-- When the buffer's size is that of its data and more than `max_write` bytes are left, a call writes one byte more than the block has room for.
curl_read_data-overrun :
    (max_write : ℕ) (buffer : CurlReadBuffer)
    → buffer.size ≡ length buffer.data_bytes
    → buffer.offset + max_write < buffer.size
    → length (curl_read_data max_write buffer).0 ≡ max_write + 1
curl_read_data-overrun max_write buffer whole more =
    rw (curl_read_data-take max_write buffer whole) (
      length-take (max_write + 1) (drop buffer.offset buffer.data_bytes)
        (omega (arith, whole, more, length-drop {0} buffer.offset buffer.data_bytes)))

-- The body of an answer that libcurl hands over in blocks.
unfoldable pub receive : CurlWriteBuffer → List (List ℕ) → CurlWriteBuffer
receive buffer [] = buffer
receive buffer (block ∷ blocks) = receive (curl_write_data block buffer) blocks

-- Each block with the zero that is written behind it.
abbrev pub terminated : List ℕ → List ℕ
terminated block = block ++ (0 ∷ [])

length-terminated : (block : List ℕ) → length (terminated block) ≡ length block + 1
length-terminated block = length-append block (0 ∷ [])

receive-more :
    (blocks : List (List ℕ)) (old : List ℕ)
    → receive (record { written = some old; size = length old }) blocks ≡ record {
      written = some (old ++ flatten (map terminated blocks));
      size = length (old ++ flatten (map terminated blocks));
    }
unfolding receive curl_write_data write_block flatten
receive-more [] old = rw append-nil refl
receive-more (block ∷ blocks) old =
    let len : (length old + length block) + 1 ≡ length (old ++ terminated block) =
      omega (arith, length-append {0} old (terminated block), length-terminated block) in
    rw
      (
        take_of_length-le (length old) old (omega arith),
        len,
        receive-more blocks (old ++ terminated block),
        append_assoc old (terminated block) (flatten (map terminated blocks)),
      )
      refl

-- The body received in one or more blocks: every block is followed by a zero byte, which counts as a
-- byte of the answer, also between the blocks.
pub receive-blocks :
    (block : List ℕ) (blocks : List (List ℕ))
    → receive (record { written = none; size = 0 }) (block ∷ blocks) ≡ record {
      written = some (flatten (map terminated (block ∷ blocks)));
      size = length (flatten (map terminated (block ∷ blocks)));
    }
unfolding receive curl_write_data write_block flatten
receive-blocks block blocks =
    let len : (0 + length block) + 1 ≡ length (terminated block) =
      omega (arith, length-terminated block) in
    rw (len, receive-more blocks (terminated block)) refl

-- The array of header pairs, once there is one: `size` is the index of the last pair, and there is room
-- for ten pairs from the last multiple of ten on.
abbrev pub HasRoom : HeaderBuffer → Type 0
HasRoom buffer =
    buffer.is_null ≡ true
    ⊎ ((length buffer.pairs ≡ suc buffer.size) × (buffer.size / 10 * 10 + 10 ≤ buffer.room))

-- A pair is always stored inside the array, and the array keeps its room.
pub store_pair-HasRoom :
    (pair : List ℕ × Option (List ℕ)) (buffer : HeaderBuffer)
    → HasRoom buffer
    → HasRoom (store_pair pair buffer)
      × (store_pair pair buffer).size < (store_pair pair buffer).room
unfolding store_pair
store_pair-HasRoom pair buffer (inl null) = rw null (inr (omega arith, omega arith), omega arith)
store_pair-HasRoom pair buffer (inr (counted, enough)) = elim (Bool-cases buffer.is_null) [
  | inl null ↦ rw null (inr (omega arith, omega arith), omega arith)
  | inr used ↦
      let more = length-append buffer.pairs (pair ∷ []) in
      rw used (inr (omega (arith, more, counted), ground (arith, enough)), ground (arith, enough))
]
