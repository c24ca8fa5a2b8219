-- ===== src/Base64/EncodeRun.antt =====
-- The whole run of `EncodeBase64`, for each remainder of the length by three.
use aws_s3fs.Common.{
  ℕ, ◌+◌, ◌-◌, ◌*◌, ◌/◌, ◌%◌, ◌≤◌, ◌<◌, ◌≡◌, ◌≢◌, refl, ap, ◌∙◌, arith, some, List, [], ◌∷◌, ◌++◌,
  map, length, length-append, append_assoc, map-take, All,
}
use native.Mathlib.Nat.{add-zero}
use aws_s3fs.Base64.Encode.{EncodeState, to_char, expand3, last_group, encode_loop, encode}
use aws_s3fs.Base64.Rfc.{rfc4648}
use aws_s3fs.Base64.Encoded.{
  IsByte, Fits, output, grown, group_chars, map-expand3, rfc4648-group, write_group, group_step,
  flush_kept, finish_step,
}

last_group-two :
    (a b : ℕ) → IsByte a → IsByte b → last_group 2 (expand3 a b 0) ≡ rfc4648 (a ∷ b ∷ [])
unfolding last_group rfc4648
last_group-two a b ha hb =
    let e0 : (a * 1024 + b * 4) / 4096 ≡ a / 4 = omega arith in
    let e1 : (a * 1024 + b * 4) / 64 % 64 ≡ a % 4 * 16 + b / 16 = omega arith in
    let e2 : (a * 1024 + b * 4) % 64 ≡ b % 16 * 4 = omega arith in
    rw (e0, e1, e2, map-take, map-expand3 a b 0 ha hb (omega arith), add-zero)

last_group-one : (a : ℕ) → IsByte a → last_group 1 (expand3 a 0 0) ≡ rfc4648 (a ∷ [])
unfolding last_group rfc4648
last_group-one a ha =
    let e : a * 16 % 64 ≡ a % 4 * 16 = omega arith in
    rw (e, map-take, map-expand3 a 0 0 ha (omega arith) (omega arith), add-zero)

module _ (size : ℕ) (wide : 10 ≤ size) where
  -- The bytes of the source, the state that a group leads to, and the rest of the run.
  encode_loop-eq-rfc4648 :
      (source : List ℕ) (st : EncodeState)
      → Fits size st
      → All IsByte source
      → length source % 3 ≢ 0
      → encode_loop size st [] source ≡ some (output st ++ rfc4648 source)
  unfolding encode_loop
  encode_loop-eq-rfc4648 [] st fits bytes h = absurd (h refl)
  encode_loop-eq-rfc4648 (a ∷ []) st fits (ha, _) h =
      rw (← last_group-one a ha) (finish_step size wide st fits (last_group 1 (expand3 a 0 0)) refl)
  encode_loop-eq-rfc4648 (a ∷ b ∷ []) st fits (ha, (hb, _)) h =
      rw (← last_group-two a b ha hb)
        (finish_step size wide st fits (last_group 2 (expand3 a b 0)) refl)
  encode_loop-eq-rfc4648 (a ∷ b ∷ c ∷ rest) st fits (ha, (hb, (hc, bytes))) h =
      let chars = map to_char (expand3 a b c) in
      let (st', step, fits', out) = group_step size wide st fits chars refl in
      rw (write_group size wide st fits chars refl, step)
        (encode_loop-eq-rfc4648 rest st' fits' bytes (λ e. h (omega arith))
          ∙ ap some (
              rw (out, rfc4648-group a b c ha hb hc rest, map-expand3 a b c ha hb hc)
                (append_assoc (output st) (group_chars a b c) (rfc4648 rest))))

  -- While the buffer does not fill up, nothing reaches `result`.
  encode_loop_unflushed :
      (source : List ℕ) (st : EncodeState)
      → Fits size st
      → length source % 3 ≡ 0
      → length st.build_buffer * 3 + length source * 4 < (size - 6) * 3
      → encode_loop size st [] source ≡ some st.result
  unfolding encode_loop
  encode_loop_unflushed [] st fits h short = refl
  encode_loop_unflushed (a ∷ []) st fits h short = absurd (omega arith)
  encode_loop_unflushed (a ∷ b ∷ []) st fits h short = absurd (omega arith)
  encode_loop_unflushed (a ∷ b ∷ c ∷ rest) st fits h short =
      let chars = map to_char (expand3 a b c) in
      let len = length-append st.build_buffer chars in
      rw
        (
          write_group size wide st fits chars refl,
          flush_kept size wide st fits chars refl (omega arith),
        )
        (encode_loop_unflushed rest (grown st chars) (omega arith) (omega arith) (omega arith))

  start-Fits : Fits size (record { result = []; alloc_count = 1; build_buffer = [] })
  start-Fits = omega arith

  -- For a source of bytes whose length is no multiple of three, and a working buffer of at least
  -- ten bytes, the encoder makes no write out of bounds and returns the RFC 4648 text.
  pub encode-eq-rfc4648 :
      (source : List ℕ)
      → All IsByte source
      → length source % 3 ≢ 0
      → encode size source ≡ some (rfc4648 source)
  unfolding encode
  encode-eq-rfc4648 source bytes h = encode_loop-eq-rfc4648 source _ start-Fits bytes h

  -- For a source whose length is a multiple of three and whose text is shorter than the working
  -- buffer less six bytes, the encoder returns the empty text: the buffer is not appended.
  encode_multiple_of_three :
      (source : List ℕ)
      → length source % 3 ≡ 0
      → length source * 4 < (size - 6) * 3
      → encode size source ≡ some []
  unfolding encode
  encode_multiple_of_three source h short =
      encode_loop_unflushed source _ start-Fits h (omega arith)
