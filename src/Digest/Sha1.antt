-- ===== src/Digest/Sha1.antt =====
-- `SHA1ProcessMessageBlock` on the state, `SHA1Input`, `SHA1PadMessage`, `SHA1Result` and
-- `Sha1StateToBinDigest` of src/digest.c.
use aws_s3fs.Common.{
  ℕ, ◌+◌, ◌-◌, ◌/◌, ◌%◌, bit_and, Bool, true, false, ◌||◌, List, [], ◌∷◌, ◌++◌, length, replicate,
  ltb, ◌==◌, if◌then◌else◌,
}
use aws_s3fs.Digest.Word.{word_size}
use aws_s3fs.Digest.State.{DigestState}
use aws_s3fs.Digest.Sha1Block.{sha1_block}

-- The block is the buffer, which is then empty.
unfoldable pub sha1_process_message_block : DigestState → DigestState
sha1_process_message_block st = record st { regs = sha1_block st.regs st.buffer; buffer = [] }

-- The count of bits in two words; when both wrap, the message is too long.
unfoldable pub count_byte : DigestState → DigestState
count_byte st =
    let total_0 = bit_and ((st.total_0 + 8) % word_size) 0xffffffff in
    let total_1 = bit_and ((st.total_1 + 1) % word_size) 0xffffffff in
    if total_0 == 0
    then record st {
      total_0 = total_0;
      total_1 = total_1;
      corrupted = if total_1 == 0 then true else st.corrupted;
    }
    else record st { total_0 = total_0 }

-- The body of the loop of `SHA1Input`.
unfoldable pub sha1_input_byte : DigestState → ℕ → DigestState
unfolding count_byte sha1_process_message_block
sha1_input_byte st ch =
    let st' = count_byte (record st { buffer = st.buffer ++ bit_and ch 0xff ∷ [] }) in
    if length st'.buffer == 64 then sha1_process_message_block st' else st'

unfoldable pub sha1_input_loop : DigestState → List ℕ → DigestState
sha1_input_loop st [] = st
sha1_input_loop st (ch ∷ message) = elim st.corrupted [
  | true ↦ st
  | false ↦ sha1_input_loop (sha1_input_byte st ch) message
]

unfoldable pub sha1_input : DigestState → List ℕ → DigestState
sha1_input st [] = st
sha1_input st (ch ∷ message) =
    if st.computed || st.corrupted
    then record st { corrupted = true }
    else sha1_input_loop st (ch ∷ message)

-- `while( buflen < size ) buffer[ buflen++ ] = 0;`
unfoldable pub pad_to : ℕ → DigestState → DigestState
pad_to size st = record st { buffer = st.buffer ++ replicate (size - length st.buffer) 0 }

-- The four bytes of a word, the highest first.
unfoldable pub big_endian_bytes : ℕ → List ℕ
big_endian_bytes w =
    bit_and (w / 0x1000000) 0xff
    ∷ bit_and (w / 0x10000) 0xff
    ∷ bit_and (w / 0x100) 0xff
    ∷ bit_and w 0xff
    ∷ []

-- The padding up to the length, with a block of its own if the length does not fit.
unfoldable pub sha1_pad_block : DigestState → DigestState
unfolding pad_to sha1_process_message_block
sha1_pad_block st =
    let st' = record st { buffer = st.buffer ++ 0x80 ∷ [] } in
    if ltb 55 (length st.buffer)
    then pad_to 56 (sha1_process_message_block (pad_to 64 st'))
    else pad_to 56 st'

unfoldable pub sha1_pad_message : DigestState → DigestState
sha1_pad_message st =
    let st' = sha1_pad_block st in
    sha1_process_message_block (record st' {
      buffer = st'.buffer ++ (big_endian_bytes st'.total_1 ++ big_endian_bytes st'.total_0);
    })

-- The result is 1 if the digest could be made.
unfoldable pub sha1_result : DigestState → Bool × DigestState
sha1_result st =
    if st.corrupted
    then (false, st)
    else if st.computed
    then (true, st)
    else (let st' = sha1_pad_message st in (true, record st' { computed = true }))

unfoldable pub sha1_state_to_bin_digest : DigestState → List ℕ
sha1_state_to_bin_digest st =
    big_endian_bytes st.regs.a
    ++ (big_endian_bytes st.regs.b
        ++ (big_endian_bytes st.regs.c
            ++ (big_endian_bytes st.regs.d ++ big_endian_bytes st.regs.e)))
