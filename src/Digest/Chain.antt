-- ===== src/Digest/Chain.antt =====
-- The iteration that RFC 1321 and RFC 3174 describe: a message is padded to whole blocks of 64
-- bytes, which are put through a compression function one after the other.
use native.Mathlib.Nat.{zero-add}
use aws_s3fs.Common.{
  ℕ, zero, suc, ◌+◌, ◌-◌, ◌*◌, ◌/◌, ◌%◌, ◌^◌, ◌≡◌, sym, ap, ◌∙◌, arith, List, [], ◌∷◌, ◌++◌, map,
  length, length-append, append_assoc, take, drop, take-append, drop-append, take_of_length-le,
  length-drop, replicate,
}
use aws_s3fs.Digest.State.{Regs, DigestState, initial_regs}

-- The first `n` blocks of `bytes`.
unfoldable pub chain : (Regs → List ℕ → Regs) → ℕ → Regs → List ℕ → Regs
chain block zero r bytes = r
chain block (suc n) r bytes = chain block n (block r (take 64 bytes)) (drop 64 bytes)

-- The bit 1, zeros until 8 bytes are left of a block, and the length in those 8 bytes.
unfoldable pub padded : List ℕ → List ℕ → List ℕ
padded message length_bytes =
    message ++ (0x80 ∷ (replicate ((119 - length message % 64) % 64) 0 ++ length_bytes))

-- The byte of weight 256 ^ k in a count.
abbrev pub weight_byte : ℕ → ℕ → ℕ
weight_byte n k = n / 256 ^ k % 256

-- The eight bytes of a bit count, the highest first (RFC 3174) or the lowest first (RFC 1321).
unfoldable pub high_first : ℕ → List ℕ
high_first n = map (weight_byte n) (7 ∷ 6 ∷ 5 ∷ 4 ∷ 3 ∷ 2 ∷ 1 ∷ 0 ∷ [])

unfoldable pub low_first : ℕ → List ℕ
low_first n = map (weight_byte n) (0 ∷ 1 ∷ 2 ∷ 3 ∷ 4 ∷ 5 ∷ 6 ∷ 7 ∷ [])

-- The bytes of a word in either order.
unfoldable pub word_high_first : ℕ → List ℕ
word_high_first w = map (weight_byte w) (3 ∷ 2 ∷ 1 ∷ 0 ∷ [])

unfoldable pub word_low_first : ℕ → List ℕ
word_low_first w = map (weight_byte w) (0 ∷ 1 ∷ 2 ∷ 3 ∷ [])

module _ (block : Regs → List ℕ → Regs) where
  -- The registers after a padded message.
  unfoldable pub hashed : Regs → List ℕ → List ℕ → Regs
  unfolding chain padded
  hashed start message length_bytes =
      let all = padded message length_bytes in chain block (length all / 64) start all

  pub chain-append :
      (m n : ℕ) (r : Regs) (done more : List ℕ)
      → length done ≡ 64 * m
      → chain block (m + n) r (done ++ more) ≡ chain block n (chain block m r done) more
  unfolding chain
  chain-append zero n r [] more h = rw zero-add
  chain-append zero n r (x ∷ done) more h = absurd (omega arith)
  chain-append (suc m) n r done more h =
      let e : suc m + n ≡ suc (m + n) = omega arith in
      rw e (
        (λ i.
          chain block (m + n) (block r (take-append 64 done more (omega arith) i))
            (drop-append 64 done more (omega arith) i))
        ∙ chain-append m n (block r (take 64 done)) (drop 64 done) more
            (omega (arith, length-drop {0} 64 done)))

  pub chain-one :
      (r : Regs) (bytes : List ℕ) → length bytes ≡ 64 → chain block 1 r bytes ≡ block r bytes
  unfolding chain
  chain-one r bytes h = rw (take_of_length-le 64 bytes (omega arith))

  -- What a hash function's state has taken in of a message: whole blocks, and the rest buffered.
  pub record Absorbed (st : DigestState) (message : List ℕ) : Type 0 where
    pub blocks : ℕ
    pub done : List ℕ
    pub whole : length done ≡ 64 * blocks
    pub split : message ≡ done ++ st.buffer
    pub chained : st.regs ≡ chain block blocks initial_regs done

  -- The registers once the message is completed to whole blocks.
  pub Absorbed-chain :
      (st : DigestState) (message : List ℕ) (n : ℕ) (rest : List ℕ)
      → Absorbed st message
      → length (st.buffer ++ rest) ≡ 64 * n
      → chain block n st.regs (st.buffer ++ rest)
        ≡ chain block (length (message ++ rest) / 64) initial_regs (message ++ rest)
  Absorbed-chain st message n rest h len =
      let e : length (h.done ++ (st.buffer ++ rest)) / 64 ≡ h.blocks + n =
        omega (arith, h.whole, len, length-append {0} h.done (st.buffer ++ rest)) in
      rw (h.split, h.chained, append_assoc h.done st.buffer rest, e)
        (sym (chain-append h.blocks n initial_regs h.done (st.buffer ++ rest) h.whole))

  -- A step that puts the whole blocks `front` of the buffered bytes through the function.
  pub Absorbed-step :
      (st st' : DigestState) (message more front : List ℕ) (n : ℕ)
      → Absorbed st message
      → st.buffer ++ more ≡ front ++ st'.buffer
      → length front ≡ 64 * n
      → st'.regs ≡ chain block n st.regs front
      → Absorbed st' (message ++ more)
  Absorbed-step st st' message more front n h cut len step = record {
    blocks = h.blocks + n;
    done = h.done ++ front;
    whole = omega (arith, h.whole, len, length-append {0} h.done front);
    split =
        ap (λ (t : List ℕ). t ++ more) h.split
        ∙ append_assoc h.done st.buffer more
        ∙ ap (λ (t : List ℕ). h.done ++ t) cut
        ∙ sym (append_assoc h.done front st'.buffer);
    chained =
        step
        ∙ ap (λ (r : Regs). chain block n r front) h.chained
        ∙ sym (chain-append h.blocks n initial_regs h.done front h.whole);
  }
