-- ===== src/Digest/WorkKey.antt =====
-- The working key of `HMAC`: right for a key of at most 64 bytes, and not for a longer one.
use native.Mathlib.Decide.{dec_lt}
use aws_s3fs.Common.{
  ℕ, zero, suc, ◌+◌, ◌-◌, ◌≡◌, ◌≤◌, ◌<◌, refl, sym, ap, ◌∙◌, arith, List, [], ◌∷◌, ◌++◌, length,
  length-append, append-nil, append_assoc, take, drop, replicate, take-append_ge, take-append,
  take-take, length-take-le, take_of_length-le, take-replicate, length-drop, length-replicate, All,
  All-append, All-drop,
}
use aws_s3fs.Digest.State.{HashFunction}
use aws_s3fs.Digest.Output.{bin_digest}
use aws_s3fs.Digest.Hmac.{strlen, work_memory, work_key}

-- A byte of a C string.
abbrev pub IsKeyByte : ℕ → Type 0
IsKeyByte b = (0 < b) × (b < 256)

strlen-append : (xs ys : List ℕ) → All IsKeyByte xs → strlen (xs ++ ys) ≡ length xs + strlen ys
unfolding strlen
strlen-append [] ys h = omega arith
strlen-append (x ∷ xs) ys (h, hs) = ground (arith, strlen-append xs ys hs)

strlen-zeros : (n : ℕ) (ys : List ℕ) → 0 < n → strlen (replicate n 0 ++ ys) ≡ 0
unfolding strlen
strlen-zeros zero ys h = absurd (omega arith)
strlen-zeros (suc n) ys h = refl

length-zeros : (n : ℕ) → length (replicate {A = ℕ} n 0) ≡ n
length-zeros n = length-replicate n 0

-- The padding of the working key, for any width of the array, given the memory and the length that
-- `strlen` sees.
abbrev padded_key : ℕ → List ℕ → ℕ → List ℕ
padded_key width memory kept =
    take width (take kept (take width memory) ++ replicate (width - kept) 0)

-- A string with its terminator inside the array.
padded_key_short :
    (width : ℕ) (key rest : List ℕ) (n : ℕ)
    → length key + n ≡ width
    → padded_key width ((key ++ replicate n 0) ++ rest) (length key) ≡ key ++ replicate n 0
padded_key_short width key rest n e =
    let zeros = replicate {A = ℕ} n 0 in
    let len : length (key ++ zeros) ≡ width =
      omega (arith, e, length-append {0} key zeros, length-zeros n) in
    let gap : width - length key ≡ n = omega arith in
    let array : take width ((key ++ zeros) ++ rest) ≡ key ++ zeros =
      take-append width (key ++ zeros) rest (omega (arith, len))
      ∙ take_of_length-le width (key ++ zeros) (omega (arith, len)) in
    let kept : take (length key) (key ++ zeros) ≡ key =
      take-append (length key) key zeros (omega arith)
      ∙ take_of_length-le (length key) key (omega arith) in
    rw (array, kept, gap) (take_of_length-le width (key ++ zeros) (omega (arith, len)))

-- An array that holds no terminator.
padded_key_full :
    (width : ℕ) (memory : List ℕ) (kept : ℕ)
    → width ≤ kept
    → padded_key width memory kept ≡ take width memory
padded_key_full width memory kept h =
    let gap : width - kept ≡ 0 = omega arith in
    rw
      (
        gap,
        take_of_length-le kept (take width memory) (omega (arith, length-take-le {0} width memory)),
        append-nil,
      )
      (take-take width memory)

fill_eq :
    (width : ℕ) (key : List ℕ)
    → length key ≤ width
    → take width (key ++ replicate width 0) ≡ key ++ replicate (width - length key) 0
fill_eq width key h =
    take-append_ge width key (replicate width 0) h
    ∙ ap (λ (t : List ℕ). key ++ t) (take-replicate (width - length key) width 0 (omega arith))

module _ (function : HashFunction) (key stack : List ℕ) where
  abbrev filled : List ℕ
  filled = key ++ replicate (64 - length key) 0

  memory_fits : length key ≤ 64 → work_memory function key stack ≡ filled ++ drop 64 stack
  unfolding work_memory
  memory_fits h = ground (arith, fill_eq 64 key h)

  memory_long :
      64 < length key
      → work_memory function key stack
        ≡ bin_digest function (key ∷ []) ++ drop (length (bin_digest function (key ∷ []))) stack
  unfolding work_memory
  memory_long h = ground arith

  work_key_lem :
      work_key function key stack
      ≡ padded_key 64 (work_memory function key stack) (strlen (work_memory function key stack))
  unfolding work_key
  work_key_lem = refl

  strlen-filled :
      All IsKeyByte key
      → strlen (filled ++ drop 64 stack)
        ≡ length key + strlen (replicate (64 - length key) 0 ++ drop 64 stack)
  strlen-filled bytes =
      ap strlen (append_assoc key (replicate (64 - length key) 0) (drop 64 stack))
      ∙ strlen-append key (replicate (64 - length key) 0 ++ drop 64 stack) bytes

  -- A key of at most 64 bytes, none of them zero, is filled up with zeros, whatever lies on the stack.
  pub work_key_fits : All IsKeyByte key → length key ≤ 64 → work_key function key stack ≡ filled
  work_key_fits bytes fits = elim (dec_lt (length key) 64) [
    | yes short ↦
        let len : strlen (filled ++ drop 64 stack) ≡ length key =
          strlen-filled bytes
          ∙ omega (arith, strlen-zeros (64 - length key) (drop 64 stack) (omega arith)) in
        rw (work_key_lem, memory_fits fits, len)
          (padded_key_short 64 key (drop 64 stack) (64 - length key) (omega arith))
    | no full ↦
        let len : length filled ≡ 64 = omega (
          arith,
          length-append {0} key (replicate (64 - length key) 0),
          length-zeros (64 - length key),
        ) in
        rw (work_key_lem, memory_fits fits)
          (padded_key_full 64 (filled ++ drop 64 stack) (strlen (filled ++ drop 64 stack))
              (omega (arith, strlen-filled bytes))
            ∙ take-append 64 filled (drop 64 stack) (omega (arith, len))
            ∙ take_of_length-le 64 filled (omega (arith, len)))
  ]

  -- For a key of more than 64 bytes, whose hash has no zero byte, and a stack of 64 bytes or more
  -- none of which is zero, the working key is the hash followed by what lies behind it on the stack.
  pub work_key_long :
      64 < length key
      → All IsKeyByte (bin_digest function (key ∷ []))
      → All IsKeyByte stack
      → 64 ≤ length stack
      → work_key function key stack
        ≡ take 64
            (bin_digest function (key ∷ []) ++ drop (length (bin_digest function (key ∷ []))) stack)
  work_key_long long hash junk deep =
      let h = bin_digest function (key ∷ []) in
      let rest = drop (length h) stack in
      let len : strlen (h ++ rest) ≡ length (h ++ rest) =
        ap strlen (sym (append-nil (h ++ rest)))
        ∙ strlen-append (h ++ rest) []
            (All-append IsKeyByte h rest hash (All-drop IsKeyByte (length h) stack junk))
        ∙ (unfold strlen in omega arith) in
      rw (work_key_lem, memory_long long)
        (padded_key_full 64 (h ++ rest) (strlen (h ++ rest))
          (omega (arith, len, length-append {0} h rest, length-drop {0} (length h) stack)))
