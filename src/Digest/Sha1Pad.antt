-- ===== src/Digest/Sha1Pad.antt =====
-- The end of a SHA-1 run: the padding and the digest.
use aws_s3fs.Common.{
  ℕ, ◌+◌, ◌-◌, ◌*◌, ◌/◌, ◌%◌, ◌^◌, ◌≡◌, ◌≤◌, ◌<◌, refl, sym, ap, ◌∙◌, arith, false, List, [], ◌∷◌,
  ◌++◌, length, length-append, length-replicate, replicate-append, append_assoc, append-nil,
  replicate, All,
}
use mathlib.Core.List.{flatten}
use native.Mathlib.Decide.{dec_lt}
use aws_s3fs.Common.Bits.{and_byte}
use aws_s3fs.Base64.Encoded.{IsByte}
use aws_s3fs.Digest.State.{DigestState, initial_regs, initialize_digest_state}
use aws_s3fs.Digest.Sha1Block.{sha1_block}
use aws_s3fs.Digest.Sha1Rfc.{sha1_start, sha1_compress, sha1_block_lem}
use aws_s3fs.Digest.Sha1.{
  sha1_process_message_block, sha1_input, sha1_pad_block, sha1_pad_message, sha1_result,
  big_endian_bytes, sha1_state_to_bin_digest,
}
use aws_s3fs.Digest.Output.{sha1_of_pieces}
use aws_s3fs.Digest.Chain.{
  chain, chain-one, chain-append, padded, high_first, word_high_first, hashed, Absorbed-chain,
}
use aws_s3fs.Digest.Sha1Run.{Running, sha1_input-Running, start-Running}

-- The two words of the count are the eight bytes of the number of bits.
totals_high_first :
    (low high bits : ℕ)
    → low < 2 ^ 32
    → low + high * 2 ^ 32 ≡ bits
    → bits < 2 ^ 64
    → big_endian_bytes high ++ big_endian_bytes low ≡ high_first bits
unfolding big_endian_bytes high_first
totals_high_first low high bits hl e hb =
    let a7 : high / 0x1000000 % 256 ≡ bits / 256 ^ 7 % 256 = omega arith in
    let a6 : high / 0x10000 % 256 ≡ bits / 256 ^ 6 % 256 = omega arith in
    let a5 : high / 0x100 % 256 ≡ bits / 256 ^ 5 % 256 = omega arith in
    let a4 : high % 256 ≡ bits / 256 ^ 4 % 256 = omega arith in
    let a3 : low / 0x1000000 % 256 ≡ bits / 256 ^ 3 % 256 = omega arith in
    let a2 : low / 0x10000 % 256 ≡ bits / 256 ^ 2 % 256 = omega arith in
    let a1 : low / 0x100 % 256 ≡ bits / 256 ^ 1 % 256 = omega arith in
    let a0 : low % 256 ≡ bits / 256 ^ 0 % 256 = omega arith in
    ground (
      arith,
      a7,
      a6,
      a5,
      a4,
      a3,
      a2,
      a1,
      a0,
      and_byte (high / 0x1000000),
      and_byte (high / 0x10000),
      and_byte (high / 0x100),
      and_byte high,
      and_byte (low / 0x1000000),
      and_byte (low / 0x10000),
      and_byte (low / 0x100),
      and_byte low,
    )

length-high_first : (n : ℕ) → length (high_first n) ≡ 8
unfolding high_first
length-high_first n = refl

length-zeros : (n : ℕ) → length (replicate {A = ℕ} n 0) ≡ n
length-zeros n = length-replicate n 0

module _ (st : DigestState) (message : List ℕ) (h : Running st message)
    (fits : 8 * length message < 2 ^ 64) where
  abbrev tail : List ℕ
  tail = 0x80 ∷ (replicate ((119 - length message % 64) % 64) 0 ++ high_first (8 * length message))

  buffered : length message % 64 ≡ length st.buffer
  buffered =
      let a = h.absorbed in
      omega (arith, h.room, a.whole, ap length a.split, length-append {0} a.done st.buffer)

  count_bytes :
      big_endian_bytes st.total_1 ++ big_endian_bytes st.total_0 ≡ high_first (8 * length message)
  count_bytes =
      totals_high_first st.total_0 st.total_1 (8 * length message) h.counted.low h.counted.bits fits

  ended : List ℕ
  ended = st.buffer ++ 0x80 ∷ []

  length-ended : length ended ≡ length st.buffer + 1
  unfolding ended
  length-ended = length-append st.buffer (0x80 ∷ [])

  pad_block_short :
      length st.buffer ≤ 55
      → sha1_pad_block st ≡ record st { buffer = ended ++ replicate (56 - length ended) 0 }
  unfolding sha1_pad_block ended
  pad_block_short le = ground arith

  pad_block_long :
      55 < length st.buffer
      → sha1_pad_block st ≡ record st {
        regs = sha1_block st.regs (ended ++ replicate (64 - length ended) 0);
        buffer = replicate 56 0;
      }
  unfolding sha1_pad_block ended
  pad_block_long lt = ground arith

  -- Any split of the zeros gives the same bytes.
  join_tail :
      (k : ℕ)
      → k ≡ (119 - length message % 64) % 64
      → (ended ++ replicate k 0) ++ high_first (8 * length message) ≡ st.buffer ++ tail
  unfolding ended
  join_tail k e = rw (← e) (
      append_assoc (st.buffer ++ 0x80 ∷ []) (replicate k 0) (high_first (8 * length message))
      ∙ append_assoc st.buffer (0x80 ∷ []) (replicate k 0 ++ high_first (8 * length message)))

  length-tail :
      (k : ℕ)
      → k ≡ (119 - length message % 64) % 64
      → length (st.buffer ++ tail) ≡ length st.buffer + 9 + k
  length-tail k e = omega (
    arith,
    e,
    length-append {0} st.buffer tail,
    length-append {0} (replicate ((119 - length message % 64) % 64) 0)
        (high_first (8 * length message)),
    length-zeros ((119 - length message % 64) % 64),
    length-high_first (8 * length message),
  )

  -- The length fits the block at hand.
  pad_short :
      length st.buffer ≤ 55
      → (sha1_pad_message st).regs ≡ chain sha1_block 1 st.regs (st.buffer ++ tail)
  unfolding sha1_pad_message sha1_process_message_block
  pad_short le =
      let k = 56 - length ended in
      let e : k ≡ (119 - length message % 64) % 64 = omega (arith, buffered, length-ended) in
      rw (pad_block_short le, count_bytes, join_tail k e)
        (sym (
          chain-one sha1_block st.regs (st.buffer ++ tail)
            (omega (arith, length-tail k e, length-ended))))

  -- The length goes into a block of its own.
  pad_long :
      55 < length st.buffer
      → (sha1_pad_message st).regs ≡ chain sha1_block 2 st.regs (st.buffer ++ tail)
  unfolding sha1_pad_message sha1_process_message_block
  pad_long lt =
      let k = 64 - length ended in
      let count = high_first (8 * length message) in
      let front = ended ++ replicate k 0 in
      let second = replicate 56 0 ++ count in
      let e : k + 56 ≡ (119 - length message % 64) % 64 = omega (arith, buffered, length-ended) in
      let joined : front ++ second ≡ st.buffer ++ tail =
        sym (append_assoc front (replicate 56 0) count)
        ∙ ap (λ (t : List ℕ). t ++ count)
            (append_assoc ended (replicate k 0) (replicate 56 0)
              ∙ ap (λ (t : List ℕ). ended ++ t) (replicate-append k 56 0))
        ∙ join_tail (k + 56) e in
      let full : length front ≡ 64 =
        omega
          (arith, h.room, length-ended, length-append {0} ended (replicate k 0), length-zeros k) in
      rw
        (
          pad_block_long lt,
          count_bytes,
          ← joined,
          chain-append sha1_block 1 1 st.regs front second full,
        )
        ((λ i. sha1_block (sym (chain-one sha1_block st.regs front full) i) second)
          ∙ sym (
              chain-one sha1_block (chain sha1_block 1 st.regs front) second
                (omega (arith, length-high_first (8 * length message)))))

  -- The padded message is hashed to its last block.
  pub sha1_pad_message-hashed :
      (sha1_pad_message st).regs
      ≡ hashed sha1_block initial_regs message (high_first (8 * length message))
  unfolding hashed padded
  sha1_pad_message-hashed = elim (dec_lt 55 (length st.buffer)) [
    | yes lt ↦
        let e : 119 - length st.buffer ≡ (119 - length message % 64) % 64 =
          omega (arith, buffered, h.room) in
        pad_long lt
        ∙ Absorbed-chain sha1_block st message 2 tail h.absorbed
            (omega (arith, length-tail (119 - length st.buffer) e, h.room))
    | no ge ↦
        let e : 55 - length st.buffer ≡ (119 - length message % 64) % 64 =
          omega (arith, buffered) in
        pad_short (omega arith)
        ∙ Absorbed-chain sha1_block st message 1 tail h.absorbed
            (omega (arith, length-tail (55 - length st.buffer) e))
  ]

big_endian_bytes_lem : (w : ℕ) → big_endian_bytes w ≡ word_high_first w
unfolding big_endian_bytes word_high_first
big_endian_bytes_lem w =
    let e : w % 256 ≡ w / 256 ^ 0 % 256 = omega arith in
    ground
      (arith, e, and_byte (w / 0x1000000), and_byte (w / 0x10000), and_byte (w / 0x100), and_byte w)

-- SHA-1 of RFC 3174.
unfoldable pub sha1_rfc3174 : List ℕ → List ℕ
sha1_rfc3174 message =
    let r = hashed sha1_compress sha1_start message (high_first (8 * length message)) in
    word_high_first r.a
    ++ (word_high_first r.b
        ++ (word_high_first r.c ++ (word_high_first r.d ++ word_high_first r.e)))

sha1_result_regs :
    (st : DigestState)
    → st.computed ≡ false
    → st.corrupted ≡ false
    → (sha1_result st).1.regs ≡ (sha1_pad_message st).regs
unfolding sha1_result
sha1_result_regs st h k = ground arith

sha1_digest_eq :
    (st : DigestState) (message : List ℕ)
    → Running st message
    → 8 * length message < 2 ^ 64
    → sha1_state_to_bin_digest (sha1_result st).1 ≡ sha1_rfc3174 message
unfolding sha1_state_to_bin_digest sha1_rfc3174
sha1_digest_eq st message h fits =
    let same : sha1_block ≡ sha1_compress = λ i r block. sha1_block_lem r block i in
    rw
      (
        sha1_result_regs st h.counted.open_state h.counted.sound,
        sha1_pad_message-hashed st message h fits,
        same,
      )
      (simp big_endian_bytes_lem)

sha1_of_pieces-eq :
    (pieces : List (List ℕ)) (st : DigestState) (message : List ℕ)
    → Running st message
    → All (All IsByte) pieces
    → 8 * (length message + length (flatten pieces)) < 2 ^ 64
    → sha1_of_pieces st pieces ≡ sha1_rfc3174 (message ++ flatten pieces)
unfolding sha1_of_pieces flatten
sha1_of_pieces-eq [] st message h bytes fits =
    rw append-nil (sha1_digest_eq st message h (omega arith))
sha1_of_pieces-eq (piece ∷ pieces) st message h (b, bytes) fits =
    let total = length-append piece (flatten pieces) in
    let grown = length-append message piece in
    rw (← append_assoc message piece (flatten pieces)) (
      sha1_of_pieces-eq pieces (sha1_input st piece) (message ++ piece)
        (sha1_input-Running piece st message h b (omega arith)) bytes (omega arith))

-- For a message of bytes with fewer than 2 ^ 64 bits, fed in any pieces, the SHA-1 functions give the digest of
-- RFC 3174 of the whole message: of its padding, its length, its starting registers, and the schedule and the 80
-- steps for each block by their number.
pub sha1_of_pieces-rfc3174 :
    (pieces : List (List ℕ))
    → All (All IsByte) pieces
    → 8 * length (flatten pieces) < 2 ^ 64
    → sha1_of_pieces initialize_digest_state pieces ≡ sha1_rfc3174 (flatten pieces)
sha1_of_pieces-rfc3174 pieces bytes fits =
    sha1_of_pieces-eq pieces initialize_digest_state [] start-Running bytes (omega arith)
