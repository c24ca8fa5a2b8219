-- ===== src/Digest/Md5.antt =====
-- `MD5ProcessBlock`, `MD5ProcessContinuous`, `MD5FlushState` and `RestoreState` of src/digest.c.
-- `size_t` values are far below 2 ^ 64 and are not wrapped.
use aws_s3fs.Common.{
  ℕ, zero, suc, ◌+◌, ◌-◌, ◌*◌, ◌/◌, ◌%◌, ◌^◌, bit_or, List, [], ◌∷◌, ◌++◌, length, take, drop,
  replicate, ltb, leb, ◌==◌, if◌then◌else◌,
}
use aws_s3fs.Digest.Word.{word_size, make_little_endian}
use aws_s3fs.Digest.State.{Regs, DigestState}
use aws_s3fs.Digest.Md5Block.{md5_block}

-- The loop `while( words < endp )`: each round takes 64 bytes.
unfoldable pub md5_loop : ℕ → List ℕ → Regs → Regs
md5_loop zero bytes r = r
md5_loop (suc n) bytes r = md5_loop n (drop 64 bytes) (md5_block r (take 64 bytes))

-- The byte count in two words.
unfoldable pub add_total : ℕ → DigestState → DigestState
add_total len st =
    let total_0 = (st.total_0 + len) % word_size in
    record st {
      total_0 = total_0;
      total_1 = if ltb total_0 len then (st.total_1 + 1) % word_size else st.total_1;
    }

-- `bytes` is the buffer with its length, a multiple of 64.
unfoldable pub md5_process_block : List ℕ → DigestState → DigestState
unfolding add_total
md5_process_block bytes st =
    let st' = add_total (length bytes) st in
    record st' { regs = md5_loop ((length bytes / 4 + 15) / 16) bytes st.regs }

-- The complete blocks of `bytes`, that is its first `len & ~63` bytes, and what is left.
unfoldable pub split_blocks : List ℕ → List ℕ × List ℕ
split_blocks bytes = let whole = length bytes / 64 * 64 in (take whole bytes, drop whole bytes)

-- The first part of `MD5ProcessContinuous`: the internal buffer is filled up to 128 bytes, and its
-- complete blocks are processed if it holds more than 64.
unfoldable pub fill_buffer : List ℕ → DigestState → DigestState
fill_buffer added st =
    let filled = st.buffer ++ added in
    let (blocks, rest) = split_blocks filled in
    let st' = md5_process_block blocks st in
    if ltb 64 (length filled) then record st' { buffer = rest } else record st { buffer = filled }

-- The second part: complete blocks are processed from the input, and the rest is kept.
unfoldable pub process_rest : List ℕ → DigestState → DigestState
process_rest input st =
    let (blocks, rest) = split_blocks input in
    let st' = if ltb 64 (length input) then md5_process_block blocks st else st in
    let input' = if ltb 64 (length input) then rest else input in
    if ltb 0 (length input') then record st' { buffer = input' } else st'

unfoldable pub md5_process_continuous : List ℕ → DigestState → DigestState
md5_process_continuous input st =
    let to_add =
      if ltb (length input) (128 - length st.buffer)
      then length input
      else 128 - length st.buffer in
    if length st.buffer == 0
    then process_rest input st
    else process_rest (drop to_add input) (fill_buffer (take to_add input) st)

-- The four bytes of a word, the lowest first.
unfoldable pub little_endian_bytes : ℕ → List ℕ
little_endian_bytes w =
    (w % 256) ∷ (w / 0x100 % 256) ∷ (w / 0x10000 % 256) ∷ (w / 0x1000000 % 256) ∷ []

unfoldable pub restore_state : DigestState → List ℕ
restore_state st =
    little_endian_bytes (make_little_endian st.regs.a)
    ++ (little_endian_bytes (make_little_endian st.regs.b)
        ++ (little_endian_bytes (make_little_endian st.regs.c)
            ++ little_endian_bytes (make_little_endian st.regs.d)))

-- `fillbuf`
abbrev pub fillbuf : List ℕ
fillbuf = 0x80 ∷ replicate 63 0

-- The padding's length.
unfoldable pub md5_padding : ℕ → ℕ
md5_padding bytes = if leb 56 bytes then 64 + 56 - bytes else 56 - bytes

unfoldable pub md5_flush_state : DigestState → DigestState
md5_flush_state st =
    let st' = add_total (length st.buffer) st in
    let low = st'.total_0 * 2 ^ 3 % word_size in
    let high = bit_or (st'.total_1 * 2 ^ 3 % word_size) (st'.total_0 / 2 ^ 29) in
    md5_process_block
      (st.buffer
        ++ (take (md5_padding (length st.buffer)) fillbuf
            ++ (little_endian_bytes (make_little_endian low)
                ++ little_endian_bytes (make_little_endian high))))
      st'
