-- ===== src/Digest/Md5Digest.antt =====
-- The end of an MD5 run: `MD5FlushState` and the digest of a message fed in pieces.
use mathlib.Core.List.{flatten}
use aws_s3fs.Common.{
  ℕ, ◌-◌, ◌*◌, ◌/◌, ◌%◌, ◌^◌, ◌≡◌, ◌<◌, ap, ◌∙◌, arith, List, [], ◌∷◌, ◌++◌, length, length-append,
  append-nil, append_assoc, replicate,
}
use aws_s3fs.Digest.State.{DigestState, initial_regs, initialize_digest_state}
use aws_s3fs.Digest.Md5Block.{md5_block}
use aws_s3fs.Digest.Md5Rfc.{md5_start, md5_compress}
use aws_s3fs.Digest.Md5Rounds.{md5_block_lem}
use aws_s3fs.Digest.Md5.{
  md5_process_continuous, little_endian_bytes, md5_flush_state, restore_state,
}
use aws_s3fs.Digest.Output.{md5_of_pieces}
use aws_s3fs.Digest.Chain.{padded, low_first, word_low_first, hashed, Absorbed-chain}
use aws_s3fs.Digest.Md5Run.{Running, regs-process_block, start-Running}
use aws_s3fs.Digest.Md5Pad.{
  md5_process_continuous-Running, totals_low_first, add_total_lem, length-low_first, length-zeros,
  zeros, tail, padding_eq,
}

module _ (st : DigestState) (message : List ℕ) (h : Running st message)
    (fits : length message < 2 ^ 32) where
  abbrev end : List ℕ
  end = tail st message h fits

  length-end : length (st.buffer ++ end) ≡ 64 * (length (st.buffer ++ end) / 64)
  unfolding tail zeros
  length-end =
      let a = h.absorbed in
      let k = (119 - length message % 64) % 64 in
      let low = low_first (8 * length message) in
      omega (
        arith,
        h.room,
        a.whole,
        ap length a.split,
        length-append {0} a.done st.buffer,
        length-append {0} st.buffer (0x80 ∷ (replicate k 0 ++ low)),
        length-append {0} (replicate k 0) low,
        length-zeros k,
        length-low_first (8 * length message),
      )

  -- What is left of the message, the padding and the count are put through the function.
  pub md5_flush_state-hashed :
      (md5_flush_state st).regs
      ≡ hashed md5_block initial_regs message (low_first (8 * length message))
  unfolding md5_flush_state hashed padded tail zeros
  md5_flush_state-hashed =
      rw
        (
          add_total_lem st (length message) h.low h.high fits,
          padding_eq st message h fits,
          totals_low_first (length message) fits,
        )
        (regs-process_block (st.buffer ++ end) (record st { total_0 = length message; total_1 = 0 })
            (length (st.buffer ++ end) / 64) length-end
          ∙ Absorbed-chain md5_block st message (length (st.buffer ++ end) / 64) end h.absorbed
              length-end)

little_endian_bytes_lem : (w : ℕ) → little_endian_bytes w ≡ word_low_first w
unfolding little_endian_bytes word_low_first
little_endian_bytes_lem w = let e : w % 256 ≡ w / 256 ^ 0 % 256 = omega arith in ground (arith, e)

-- MD5 of RFC 1321.
unfoldable pub md5_rfc1321 : List ℕ → List ℕ
md5_rfc1321 message =
    let r = hashed md5_compress md5_start message (low_first (8 * length message)) in
    word_low_first r.a ++ (word_low_first r.b ++ (word_low_first r.c ++ word_low_first r.d))

md5_digest_eq :
    (st : DigestState) (message : List ℕ)
    → Running st message
    → length message < 2 ^ 32
    → restore_state (md5_flush_state st) ≡ md5_rfc1321 message
unfolding restore_state md5_rfc1321
md5_digest_eq st message h fits =
    let same : md5_block ≡ md5_compress = λ i r block. md5_block_lem r block i in
    rw (md5_flush_state-hashed st message h fits, same) (simp little_endian_bytes_lem)

md5_of_pieces-eq :
    (pieces : List (List ℕ)) (st : DigestState) (message : List ℕ)
    → Running st message
    → length (message ++ flatten pieces) < 2 ^ 32
    → md5_of_pieces st pieces ≡ md5_rfc1321 (message ++ flatten pieces)
unfolding md5_of_pieces flatten
md5_of_pieces-eq [] st message h fits = rw append-nil (
    md5_digest_eq st message h
      (omega (arith, length-append {0} message (let n : List ℕ = [] in n))))
md5_of_pieces-eq (piece ∷ pieces) st message h fits =
    let joined = append_assoc message piece (flatten pieces) in
    let all = ap length joined in
    let front_fits : length (message ++ piece) < 2 ^ 32 =
      omega (arith, all, fits, length-append {0} (message ++ piece) (flatten pieces)) in
    rw (← joined) (
      md5_of_pieces-eq pieces (md5_process_continuous piece st) (message ++ piece)
        (md5_process_continuous-Running st piece message h front_fits) (rw joined fits))

-- For a message of fewer than 2 ^ 32 bytes, fed in any pieces, the MD5 functions give the digest of RFC 1321 of
-- the whole message: of its padding, its length, its starting registers, and its 64 steps for each block by their
-- number, with F and G taken in the form z xor (x and (y xor z)) and y xor (z and (x xor y)).
pub md5_of_pieces-rfc1321 :
    (pieces : List (List ℕ))
    → length (flatten pieces) < 2 ^ 32
    → md5_of_pieces initialize_digest_state pieces ≡ md5_rfc1321 (flatten pieces)
md5_of_pieces-rfc1321 pieces fits =
    md5_of_pieces-eq pieces initialize_digest_state [] start-Running fits
