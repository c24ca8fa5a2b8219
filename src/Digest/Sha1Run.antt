-- ===== src/Digest/Sha1Run.antt =====
-- SHA-1 over a message that is fed in pieces, against RFC 3174's padding and iteration.
use aws_s3fs.Common.{
  ℕ, ◌+◌, ◌*◌, ◌%◌, ◌^◌, ◌≡◌, ◌≢◌, ◌<◌, refl, sym, ◌∙◌, arith, false, List, [], ◌∷◌, ◌++◌, length,
  length-append, append_assoc, append-nil, if◌then◌else◌, All, Bool-cases, ◌==◌, inl, inr,
}
use aws_s3fs.Common.Bits.{and_word, and_ff}
use aws_s3fs.Base64.Encoded.{IsByte}
use aws_s3fs.Digest.State.{DigestState, initialize_digest_state}
use aws_s3fs.Digest.Sha1Block.{sha1_block}
use aws_s3fs.Digest.Sha1.{
  sha1_process_message_block, count_byte, sha1_input_byte, sha1_input_loop, sha1_input,
}
use aws_s3fs.Digest.Chain.{chain, chain-one, Absorbed, Absorbed-step}

-- A state that has taken in a message of `n` bytes, in the middle of a run.
pub record Counted (st : DigestState) (n : ℕ) : Type 0 where
  pub low : st.total_0 < 2 ^ 32
  pub bits : st.total_0 + st.total_1 * 2 ^ 32 ≡ 8 * n
  pub open_state : st.computed ≡ false
  pub sound : st.corrupted ≡ false

module _ (st : DigestState) (n : ℕ) (h : Counted st n) (fits : 8 * (n + 1) < 2 ^ 64) where
  count_byte_total :
      ((count_byte st).total_0 < 2 ^ 32)
      × ((count_byte st).total_0 + (count_byte st).total_1 * 2 ^ 32 ≡ 8 * (n + 1))
      × ((count_byte st).corrupted ≡ false)
      × ((count_byte st).computed ≡ false)
      × ((count_byte st).buffer ≡ st.buffer)
      × ((count_byte st).regs ≡ st.regs)
  unfolding count_byte
  count_byte_total = ground (
    arith,
    and_word ((st.total_0 + 8) % 2 ^ 32) (omega arith),
    and_word ((st.total_1 + 1) % 2 ^ 32) (omega arith),
  )

-- A state in the middle of a run: what it has taken in, the count of it, and room in the buffer.
pub record Running (st : DigestState) (message : List ℕ) : Type 0 where
  pub absorbed : Absorbed sha1_block st message
  pub counted : Counted st (length message)
  pub room : length st.buffer < 64

module _ (st : DigestState) (message : List ℕ) (ch : ℕ) where
  abbrev with_byte : DigestState
  with_byte = record st { buffer = st.buffer ++ ch ∷ [] }

  input_byte_eq :
      IsByte ch
      → sha1_input_byte st ch ≡ (
          if length (count_byte with_byte).buffer == 64
          then sha1_process_message_block (count_byte with_byte)
          else count_byte with_byte)
  unfolding sha1_input_byte
  input_byte_eq hc = rw (and_ff ch hc)

  module _ (h : Running st message) (hc : IsByte ch)
      (fits : 8 * (length message + 1) < 2 ^ 64) where
    count : Counted with_byte (length message)
    count = record {
      low = h.counted.low;
      bits = h.counted.bits;
      open_state = h.counted.open_state;
      sound = h.counted.sound;
    }

    longer : length (message ++ ch ∷ []) ≡ length message + 1
    longer = length-append message (ch ∷ [])

    -- A byte completes a block, which is processed, or stays in the buffer.
    input_byte_full :
        length (st.buffer ++ ch ∷ []) ≡ 64
        → Running (sha1_process_message_block (count_byte with_byte)) (message ++ ch ∷ [])
    unfolding sha1_process_message_block
    input_byte_full full =
        let (low, bits, ok, op, buf, regs) =
          count_byte_total with_byte (length message) count fits in
        let st' = sha1_process_message_block (count_byte with_byte) in
        record {
          absorbed =
              Absorbed-step sha1_block st st' message (ch ∷ []) (st.buffer ++ ch ∷ []) 1 h.absorbed
                (sym (append-nil (st.buffer ++ ch ∷ []))) full
                ((λ i. sha1_block (regs i) (buf i))
                  ∙ sym (chain-one sha1_block st.regs (st.buffer ++ ch ∷ []) full));
          counted = record { low = low; bits = rw longer bits; open_state = op; sound = ok };
          room = omega arith;
        }

    input_byte_part :
        length (st.buffer ++ ch ∷ []) ≢ 64 → Running (count_byte with_byte) (message ++ ch ∷ [])
    input_byte_part part =
        let (low, bits, ok, op, buf, regs) =
          count_byte_total with_byte (length message) count fits in
        record {
          absorbed =
              Absorbed-step sha1_block st (count_byte with_byte) message (ch ∷ []) [] 0 h.absorbed
                (sym buf) refl (unfold chain in regs);
          counted = record { low = low; bits = rw longer bits; open_state = op; sound = ok };
          room = rw buf (omega (arith, h.room, length-append {0} st.buffer (ch ∷ [])));
        }

    sha1_input_byte-Running : Running (sha1_input_byte st ch) (message ++ ch ∷ [])
    sha1_input_byte-Running =
        let buf = (count_byte_total with_byte (length message) count fits).4 in
        elim (Bool-cases (length (count_byte with_byte).buffer == 64)) [
          | inl full ↦ rw (input_byte_eq hc, full) (input_byte_full (ground (arith, buf, full)))
          | inr part ↦
              rw (input_byte_eq hc, part) (input_byte_part (λ e. ground (arith, buf, part)))
        ]

input_loop_eq :
    (st : DigestState) (ch : ℕ) (piece : List ℕ)
    → st.corrupted ≡ false
    → sha1_input_loop st (ch ∷ piece) ≡ sha1_input_loop (sha1_input_byte st ch) piece
unfolding sha1_input_loop
input_loop_eq st ch piece h = ground arith

input_eq :
    (st : DigestState) (ch : ℕ) (piece : List ℕ)
    → st.computed ≡ false
    → st.corrupted ≡ false
    → sha1_input st (ch ∷ piece) ≡ sha1_input_loop st (ch ∷ piece)
unfolding sha1_input
input_eq st ch piece h k = ground arith

sha1_input_loop-Running :
    (piece : List ℕ) (st : DigestState) (message : List ℕ)
    → Running st message
    → All IsByte piece
    → 8 * (length message + length piece) < 2 ^ 64
    → Running (sha1_input_loop st piece) (message ++ piece)
sha1_input_loop-Running [] st message h bytes fits = unfold sha1_input_loop in rw append-nil h
sha1_input_loop-Running (ch ∷ piece) st message h (hc, bytes) fits =
    let next = sha1_input_byte-Running st message ch h hc (omega arith) in
    let len = length-append message (ch ∷ []) in
    rw (input_loop_eq st ch piece h.counted.sound, ← append_assoc message (ch ∷ []) piece)
      (sha1_input_loop-Running piece (sha1_input_byte st ch) (message ++ ch ∷ []) next bytes
        (omega arith))

-- One call of the input function on a state in the middle of a run.
pub sha1_input-Running :
    (piece : List ℕ) (st : DigestState) (message : List ℕ)
    → Running st message
    → All IsByte piece
    → 8 * (length message + length piece) < 2 ^ 64
    → Running (sha1_input st piece) (message ++ piece)
sha1_input-Running [] st message h bytes fits = unfold sha1_input in rw append-nil h
sha1_input-Running (ch ∷ piece) st message h bytes fits =
    rw (input_eq st ch piece h.counted.open_state h.counted.sound)
      (sha1_input_loop-Running (ch ∷ piece) st message h bytes fits)

pub start-Running : Running initialize_digest_state []
start-Running = record {
  absorbed = record {
    blocks = 0;
    done = [];
    whole = refl;
    split = refl;
    chained = unfold chain in refl;
  };
  counted = record { low = omega arith; bits = refl; open_state = refl; sound = refl };
  room = omega arith;
}
