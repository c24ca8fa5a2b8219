-- ===== src/Digest/Md5Run.antt =====
-- MD5 over a message that is fed in pieces: what a state takes in.
use native.Mathlib.Decide.{dec_lt}
use aws_s3fs.Common.{
  ℕ, zero, suc, ◌+◌, ◌*◌, ◌/◌, ◌%◌, ◌^◌, ◌≡◌, ◌≤◌, ◌<◌, refl, sym, ap, ◌∙◌, arith, List, [], ◌++◌,
  length, length-append, take, drop, take-append-drop, length-take, length-drop, eq-nil,
}
use aws_s3fs.Digest.State.{Regs, DigestState, initialize_digest_state}
use aws_s3fs.Digest.Md5Block.{md5_block}
use aws_s3fs.Digest.Md5.{
  md5_loop, add_total, md5_process_block, split_blocks, fill_buffer, process_rest,
}
use aws_s3fs.Digest.Chain.{chain, Absorbed, Absorbed-step}

md5_loop-chain :
    (n : ℕ) (bytes : List ℕ) (r : Regs) → md5_loop n bytes r ≡ chain md5_block n r bytes
unfolding md5_loop chain
md5_loop-chain zero bytes r = refl
md5_loop-chain (suc n) bytes r = md5_loop-chain n (drop 64 bytes) (md5_block r (take 64 bytes))

-- A call on `m` whole blocks, with a count that does not wrap.
process_block_lem :
    (bytes : List ℕ) (st : DigestState) (m : ℕ)
    → length bytes ≡ 64 * m
    → st.total_0 + length bytes < 2 ^ 32
    → md5_process_block bytes st
      ≡ record st { total_0 = st.total_0 + length bytes; regs = chain md5_block m st.regs bytes }
unfolding md5_process_block add_total
process_block_lem bytes st m len fits =
    let rounds : (length bytes / 4 + 15) / 16 ≡ m = omega (arith, len) in
    ground (arith, rounds, md5_loop-chain m bytes st.regs)

-- A state in the middle of a run.
pub record Running (st : DigestState) (message : List ℕ) : Type 0 where
  pub absorbed : Absorbed md5_block st message
  pub low : st.total_0 + length st.buffer ≡ length message
  pub high : st.total_1 ≡ 0
  pub room : length st.buffer ≤ 64

-- The whole blocks of some bytes and the rest.
module _ (bytes : List ℕ) where
  blocks_length : length (split_blocks bytes).0 ≡ 64 * (length bytes / 64)
  unfolding split_blocks
  blocks_length = length-take (length bytes / 64 * 64) bytes (omega arith) ∙ omega arith

  rest_length : length (split_blocks bytes).1 ≡ length bytes % 64
  unfolding split_blocks
  rest_length = length-drop (length bytes / 64 * 64) bytes ∙ omega arith

  split_eq : bytes ≡ (split_blocks bytes).0 ++ (split_blocks bytes).1
  unfolding split_blocks
  split_eq = sym (take-append-drop (length bytes / 64 * 64) bytes)

-- A state from which the blocks `front` of the bytes at hand were processed and `rest` is kept.
abbrev advanced : DigestState → List ℕ → List ℕ → DigestState
advanced st front rest = record st {
  total_0 = st.total_0 + length front;
  regs = chain md5_block (length front / 64) st.regs front;
  buffer = rest;
}

advanced-Running :
    (st : DigestState) (message more front rest : List ℕ)
    → Running st message
    → length (message ++ more) < 2 ^ 32
    → st.buffer ++ more ≡ front ++ rest
    → length front ≡ 64 * (length front / 64)
    → length rest ≤ 64
    → Running (advanced st front rest) (message ++ more)
advanced-Running st message more front rest h fits cut len room = record {
  absorbed =
      Absorbed-step md5_block st (advanced st front rest) message more front (length front / 64)
        h.absorbed cut len refl;
  low = omega (
    arith,
    h.low,
    length-append {0} message more,
    ap length cut,
    length-append {0} st.buffer more,
    length-append {0} front rest,
  );
  high = h.high;
  room = room;
}

kept_eq : (st : DigestState) (b : List ℕ) → record st { buffer = b } ≡ advanced st [] b
unfolding chain
kept_eq st b = ground arith

module _ (st : DigestState) (message : List ℕ) (h : Running st message) (more : List ℕ)
    (fits : length (message ++ more) < 2 ^ 32) where
  abbrev filled : List ℕ
  filled = st.buffer ++ more

  total : st.total_0 + length filled ≡ length (message ++ more)
  total = omega (arith, h.low, length-append {0} message more, length-append {0} st.buffer more)

  blocks_eq : md5_process_block (split_blocks filled).0 st ≡ record st {
    total_0 = st.total_0 + length (split_blocks filled).0;
    regs = chain md5_block (length (split_blocks filled).0 / 64) st.regs (split_blocks filled).0;
  }
  blocks_eq =
      process_block_lem (split_blocks filled).0 st (length (split_blocks filled).0 / 64)
        (omega (arith, blocks_length filled)) (omega (arith, blocks_length filled, total))

  fill_buffer_big :
      64 < length filled
      → fill_buffer more st ≡ advanced st (split_blocks filled).0 (split_blocks filled).1
  unfolding fill_buffer
  fill_buffer_big big = ground (arith, blocks_eq)

  fill_buffer_small : length filled ≤ 64 → fill_buffer more st ≡ record st { buffer = filled }
  unfolding fill_buffer
  fill_buffer_small small = ground arith

  -- The internal buffer is filled, and its whole blocks are processed once it holds more than one.
  pub fill_buffer-Running : Running (fill_buffer more st) (message ++ more)
  fill_buffer-Running = elim (dec_lt 64 (length filled)) [
    | yes big ↦ rw (fill_buffer_big big) (
        advanced-Running st message more (split_blocks filled).0 (split_blocks filled).1 h fits
          (split_eq filled) (omega (arith, blocks_length filled))
          (omega (arith, rest_length filled)))
    | no small ↦
        rw (fill_buffer_small (omega arith), kept_eq st filled)
          (advanced-Running st message more [] filled h fits refl refl (omega arith))
  ]

  -- A buffer that is filled to 128 bytes is empty afterwards.
  pub fill_buffer_whole : length filled ≡ 128 → (fill_buffer more st).buffer ≡ []
  fill_buffer_whole e =
      rw (fill_buffer_big (omega arith))
        (eq-nil (split_blocks filled).1 (rest_length filled ∙ omega arith))

  process_rest_big :
      st.buffer ≡ []
      → 64 < length more
      → process_rest more st ≡ advanced st (split_blocks more).0 (split_blocks more).1
  unfolding process_rest
  process_rest_big e big =
      let len = ap length e in
      ground (
        arith,
        process_block_lem (split_blocks more).0 st (length (split_blocks more).0 / 64)
            (omega (arith, blocks_length more))
            (omega (arith, blocks_length more, total, len, length-append {0} st.buffer more)),
        eq-nil (split_blocks more).1,
      )

  process_rest_small :
      st.buffer ≡ [] → length more ≤ 64 → process_rest more st ≡ record st { buffer = more }
  unfolding process_rest
  process_rest_small e small = ground (arith, eq-nil more)

  -- With an empty buffer, whole blocks are processed from the input if it is longer than one.
  pub process_rest-Running : st.buffer ≡ [] → Running (process_rest more st) (message ++ more)
  process_rest-Running e =
      let joined = ap (λ (t : List ℕ). t ++ more) e in
      elim (dec_lt 64 (length more)) [
        | yes big ↦ rw (process_rest_big e big) (
            advanced-Running st message more (split_blocks more).0 (split_blocks more).1 h fits
              (joined ∙ split_eq more) (omega (arith, blocks_length more))
              (omega (arith, rest_length more)))
        | no small ↦
            rw (process_rest_small e (omega arith), kept_eq st more)
              (advanced-Running st message more [] more h fits joined refl (omega arith))
      ]

-- The registers after a call on whole blocks, whatever the count.
pub regs-process_block :
    (bytes : List ℕ) (st : DigestState) (m : ℕ)
    → length bytes ≡ 64 * m
    → (md5_process_block bytes st).regs ≡ chain md5_block m st.regs bytes
unfolding md5_process_block
regs-process_block bytes st m len =
    let rounds : (length bytes / 4 + 15) / 16 ≡ m = omega (arith, len) in
    rw rounds (md5_loop-chain m bytes st.regs)

pub start-Running : Running initialize_digest_state []
start-Running = record {
  absorbed = record {
    blocks = 0;
    done = [];
    whole = refl;
    split = refl;
    chained = unfold chain in refl;
  };
  low = refl;
  high = refl;
  room = omega arith;
}
