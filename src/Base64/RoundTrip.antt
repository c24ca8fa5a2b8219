-- ===== src/Base64/RoundTrip.antt =====
-- `DecodeBase64` on what `EncodeBase64` returns.
use native.Mathlib.Nat.{zero-add}
use aws_s3fs.Common.{
  ℕ, suc, ◌+◌, ◌-◌, ◌*◌, ◌/◌, ◌%◌, ◌≤◌, ◌<◌, ◌≡◌, ◌≢◌, refl, ap, ◌∙◌, arith, false, some, none,
  List, [], ◌∷◌, ◌++◌, map, replicate, length, length-append, append_assoc, All,
}
use aws_s3fs.Base64.Encode.{encode, ◌>>=◌}
use aws_s3fs.Base64.EncodeRun.{encode-eq-rfc4648}
use aws_s3fs.Base64.Encoded.{IsByte, rfc4648-group}
use aws_s3fs.Base64.Rfc.{rfc_char, rfc4648}
use aws_s3fs.Base64.Decode.{
  DecodeState, compact4, write_bytes, flush_decoded, is_accepted, return_block, finish_decode,
  decode_loop, decode,
}
use aws_s3fs.Base64.Decoded.{
  sextet-rfc_char, is_accepted-rfc_char, compact4_lem, Fits, output, grown, read_block-nil,
  write_group, flush_kept, group_step, finish_step,
}

pad_refused : is_accepted b'=' ≡ false
unfolding is_accepted
pad_refused = refl

module _ (size : ℕ) (st : DecodeState) (i j k l : ℕ) (hi : i < 64) (hj : j < 64) (hk : k < 64) where
  -- Four characters of the alphabet make one round of the loop's compaction.
  loop_group :
      (rest : List ℕ)
      → l < 64
      → decode_loop size st [] (rfc_char i ∷ rfc_char j ∷ rfc_char k ∷ rfc_char l ∷ rest) ≡ (do
        st' ← write_bytes size (compact4 i j k l) st
        st'' ← flush_decoded size st'
        decode_loop size st'' [] rest)
  unfolding decode_loop
  loop_group rest hl = ground (
    arith,
    is_accepted-rfc_char i hi,
    is_accepted-rfc_char j hj,
    is_accepted-rfc_char k hk,
    is_accepted-rfc_char l hl,
    sextet-rfc_char i hi,
    sextet-rfc_char j hj,
    sextet-rfc_char k hk,
    sextet-rfc_char l hl,
  )

  loop_two :
      (rest : List ℕ)
      → decode_loop size st [] (rfc_char i ∷ rfc_char j ∷ b'=' ∷ rest)
        ≡ finish_decode size st (rfc_char i ∷ rfc_char j ∷ [])
  unfolding decode_loop
  loop_two rest = ground (arith, is_accepted-rfc_char i hi, is_accepted-rfc_char j hj, pad_refused)

  loop_three :
      (rest : List ℕ)
      → decode_loop size st [] (rfc_char i ∷ rfc_char j ∷ rfc_char k ∷ b'=' ∷ rest)
        ≡ finish_decode size st (rfc_char i ∷ rfc_char j ∷ rfc_char k ∷ [])
  unfolding decode_loop
  loop_three rest = ground (
    arith,
    is_accepted-rfc_char i hi,
    is_accepted-rfc_char j hj,
    is_accepted-rfc_char k hk,
    pad_refused,
  )

-- A full group's characters are compacted to its bytes.
compact4-group :
    (a b c : ℕ)
    → IsByte a
    → IsByte b
    → IsByte c
    → compact4 (a / 4) (a % 4 * 16 + b / 16) (b % 16 * 4 + c / 64) (c % 64) ≡ a ∷ b ∷ c ∷ []
compact4-group a b c ha hb hc =
    let e0 : a / 4 * 4 + (a % 4 * 16 + b / 16) / 16 ≡ a = omega arith in
    let e1 : (a % 4 * 16 + b / 16) % 16 * 16 + (b % 16 * 4 + c / 64) / 4 ≡ b = omega arith in
    let e2 : (b % 16 * 4 + c / 64) % 4 * 64 + c % 64 ≡ c = omega arith in
    rw (
      compact4_lem (a / 4) (a % 4 * 16 + b / 16) (b % 16 * 4 + c / 64) (c % 64) (omega arith)
          (omega arith) (omega arith) (omega arith),
      e0,
      e1,
      e2,
    )

compact4-two :
    (a b : ℕ)
    → IsByte a
    → IsByte b
    → compact4 (a / 4) (a % 4 * 16 + b / 16) (b % 16 * 4) 0 ≡ a ∷ b ∷ 0 ∷ []
compact4-two a b ha hb =
    let e0 : a / 4 * 4 + (a % 4 * 16 + b / 16) / 16 ≡ a = omega arith in
    let e1 : (a % 4 * 16 + b / 16) % 16 * 16 + b % 16 * 4 / 4 ≡ b = omega arith in
    let e2 : b % 16 * 4 % 4 * 64 + 0 ≡ 0 = omega arith in
    rw (
      compact4_lem (a / 4) (a % 4 * 16 + b / 16) (b % 16 * 4) 0 (omega arith) (omega arith)
          (omega arith) (omega arith),
      e0,
      e1,
      e2,
    )

compact4-one : (a : ℕ) → IsByte a → compact4 (a / 4) (a % 4 * 16) 0 0 ≡ a ∷ 0 ∷ 0 ∷ []
compact4-one a ha =
    let e0 : a / 4 * 4 + a % 4 * 16 / 16 ≡ a = omega arith in
    let e1 : a % 4 * 16 % 16 * 16 + 0 ≡ 0 = omega arith in
    rw (
      compact4_lem (a / 4) (a % 4 * 16) 0 0 (omega arith) (omega arith) (omega arith) (omega arith),
      e0,
      e1,
    )

-- The characters of a short last group.
rfc4648-two :
    (a b : ℕ)
    → IsByte a
    → IsByte b
    → rfc4648 (a ∷ b ∷ [])
      ≡ rfc_char (a / 4) ∷ rfc_char (a % 4 * 16 + b / 16) ∷ rfc_char (b % 16 * 4) ∷ b'=' ∷ []
unfolding rfc4648
rfc4648-two a b ha hb =
    let e0 : (a * 1024 + b * 4) / 4096 ≡ a / 4 = omega arith in
    let e1 : (a * 1024 + b * 4) / 64 % 64 ≡ a % 4 * 16 + b / 16 = omega arith in
    let e2 : (a * 1024 + b * 4) % 64 ≡ b % 16 * 4 = omega arith in rw (e0, e1, e2)

rfc4648-one :
    (a : ℕ)
    → IsByte a
    → rfc4648 (a ∷ []) ≡ rfc_char (a / 4) ∷ rfc_char (a % 4 * 16) ∷ b'=' ∷ b'=' ∷ []
unfolding rfc4648
rfc4648-one a ha = let e : a * 16 % 64 ≡ a % 4 * 16 = omega arith in rw e

module _ (size : ℕ) (wide : 10 ≤ size) where
  decode_one :
      (a : ℕ) (st : DecodeState)
      → Fits size st
      → IsByte a
      → decode_loop size st [] (rfc4648 (a ∷ [])) ≡ some (map some (output st ++ a ∷ []))
  unfolding finish_decode
  decode_one a st fits ha =
      let i = a / 4 in
      let j = a % 4 * 16 in
      rw
        (
          rfc4648-one a ha,
          loop_two size st i j 0 0 (omega arith) (omega arith) (omega arith) (b'=' ∷ []),
          sextet-rfc_char i (omega arith),
          sextet-rfc_char j (omega arith),
          compact4-one a ha,
        )
        (finish_step size wide st fits (a ∷ []) (omega arith))

  decode_two :
      (a b : ℕ) (st : DecodeState)
      → Fits size st
      → IsByte a
      → IsByte b
      → decode_loop size st [] (rfc4648 (a ∷ b ∷ [])) ≡ some (map some (output st ++ a ∷ b ∷ []))
  unfolding finish_decode
  decode_two a b st fits ha hb =
      let i = a / 4 in
      let j = a % 4 * 16 + b / 16 in
      let k = b % 16 * 4 in
      rw
        (
          rfc4648-two a b ha hb,
          loop_three size st i j k 0 (omega arith) (omega arith) (omega arith) [],
          sextet-rfc_char i (omega arith),
          sextet-rfc_char j (omega arith),
          sextet-rfc_char k (omega arith),
          compact4-two a b ha hb,
        )
        (finish_step size wide st fits (a ∷ b ∷ []) (omega arith))

  -- One round on the characters of a full group.
  decode_group :
      (a b c : ℕ) (rest : List ℕ) (st : DecodeState)
      → Fits size st
      → IsByte a
      → IsByte b
      → IsByte c
      → decode_loop size st [] (rfc4648 (a ∷ b ∷ c ∷ rest)) ≡ (do
        st' ← flush_decoded size (grown st (a ∷ b ∷ c ∷ []))
        decode_loop size st' [] (rfc4648 rest))
  decode_group a b c rest st fits ha hb hc =
      let i = a / 4 in
      let j = a % 4 * 16 + b / 16 in
      let k = b % 16 * 4 + c / 64 in
      rw (
        rfc4648-group a b c ha hb hc rest,
        loop_group size st i j k (c % 64) (omega arith) (omega arith) (omega arith) (rfc4648 rest)
            (omega arith),
        compact4-group a b c ha hb hc,
        write_group size wide st fits (a ∷ b ∷ c ∷ []) (omega arith),
      )

  decode_loop-rfc4648 :
      (source : List ℕ) (st : DecodeState)
      → Fits size st
      → All IsByte source
      → length source % 3 ≢ 0
      → decode_loop size st [] (rfc4648 source) ≡ some (map some (output st ++ source))
  decode_loop-rfc4648 [] st fits bytes h = absurd (h refl)
  decode_loop-rfc4648 (a ∷ []) st fits (ha, _) h = decode_one a st fits ha
  decode_loop-rfc4648 (a ∷ b ∷ []) st fits (ha, (hb, _)) h = decode_two a b st fits ha hb
  decode_loop-rfc4648 (a ∷ b ∷ c ∷ rest) st fits (ha, (hb, (hc, bytes))) h =
      let group : List ℕ = a ∷ b ∷ c ∷ [] in
      let (st', step, fits', out) = group_step size wide st fits group refl in
      rw (decode_group a b c rest st fits ha hb hc, step)
        (decode_loop-rfc4648 rest st' fits' bytes (λ e. h (omega arith))
          ∙ ap (λ (t : List ℕ). some (map some t)) (rw out (append_assoc (output st) group rest)))

  -- While the buffer does not fill up, nothing reaches the block, though the bytes are counted.
  decode_loop_unflushed :
      (source : List ℕ) (st : DecodeState)
      → Fits size st
      → st.result ≡ []
      → All IsByte source
      → length source % 3 ≡ 0
      → length st.build_buffer + length source < size - 5
      → decode_loop size st [] (rfc4648 source)
        ≡ some (replicate (st.decoded_length + length source) none)
  decode_loop_unflushed [] st fits e bytes h short =
      unfold decode_loop finish_decode return_block rfc4648 in
      rw e (ground (arith, read_block-nil st.decoded_length))
  decode_loop_unflushed (a ∷ []) st fits e bytes h short = absurd (omega arith)
  decode_loop_unflushed (a ∷ b ∷ []) st fits e bytes h short = absurd (omega arith)
  decode_loop_unflushed (a ∷ b ∷ c ∷ rest) st fits e (ha, (hb, (hc, bytes))) h short =
      let group : List ℕ = a ∷ b ∷ c ∷ [] in
      let len = length-append st.build_buffer group in
      let total : st.decoded_length + 3 + length rest
          ≡ st.decoded_length + suc (suc (suc (length rest))) =
        omega arith in
      rw
        (
          decode_group a b c rest st fits ha hb hc,
          flush_kept size wide st fits group refl (omega arith),
          ← total,
        )
        (decode_loop_unflushed rest (grown st group) (omega arith) e bytes (omega arith)
          (omega arith))

  start-Fits :
      Fits size (record { result = []; alloc_count = 1; build_buffer = []; decoded_length = 0 })
  start-Fits = omega arith

  -- For text of bytes whose number is a multiple of three, less than the working buffer minus five,
  -- the decoder returns that many bytes and every one of them is indeterminate.
  pub decode_whole_groups :
      (source : List ℕ)
      → All IsByte source
      → length source % 3 ≡ 0
      → length source < size - 5
      → decode size (rfc4648 source) ≡ some (replicate (length source) none)
  unfolding decode
  decode_whole_groups source bytes h short =
      rw zero-add at (decode_loop_unflushed source _ start-Fits refl bytes h (omega arith))

-- For bytes whose number is no multiple of three, and working buffers of at least ten bytes, the
-- decoder gets back exactly the bytes that were encoded, and neither run writes out of bounds.
pub decode-encode :
    (encode_size decode_size : ℕ)
    → 10 ≤ encode_size
    → 10 ≤ decode_size
    → (source : List ℕ) → All IsByte source
    → length source % 3 ≢ 0
    → (encode encode_size source >>= decode decode_size) ≡ some (map some source)
unfolding decode
decode-encode m n hm hn source bytes h =
    rw (encode-eq-rfc4648 m hm source bytes h)
      (decode_loop-rfc4648 n hn source _ (start-Fits n hn) bytes h)
