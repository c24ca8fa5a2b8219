-- ===== src/Digest/Hmac.antt =====
-- `XorMemory` and `HMAC` of src/digest.c. The key is a C string: its bytes before the terminator, none of them 0.
-- `workKey` is not initialised: `stack` are the bytes that lie at its address, and behind it, when
-- the function is called.
use aws_s3fs.Common.{
  ℕ, ◌-◌, bit_xor, Option, List, [], ◌∷◌, ◌++◌, map, length, take, drop, replicate, suc, ltb, ◌==◌,
  if◌then◌else◌,
}
use aws_s3fs.Digest.State.{HashFunction, HashEncoding}
use aws_s3fs.Digest.Output.{bin_digest, encode_digest}

unfoldable pub xor_memory : List ℕ → ℕ → List ℕ
xor_memory source ch = map (λ b. bit_xor b ch) source

-- `strlen`: the bytes before the first 0.
unfoldable pub strlen : List ℕ → ℕ
strlen [] = 0
strlen (b ∷ memory) = let n = strlen memory in if b == 0 then 0 else suc n

-- The memory at `workKey` when the key, or its hash, is copied into it. `strncpy` fills up with 0.
unfoldable pub work_memory : HashFunction → List ℕ → List ℕ → List ℕ
work_memory function key stack =
    if ltb 64 (length key)
    then (let hash = bin_digest function (key ∷ []) in hash ++ drop (length hash) stack)
    else take 64 (key ++ replicate 64 0) ++ drop 64 stack

-- `workKey` once it is zero-padded behind its first `strlen( workKey )` bytes.
unfoldable pub work_key : HashFunction → List ℕ → List ℕ → List ℕ
work_key function key stack =
    let memory = work_memory function key stack in
    let kept = strlen memory in take 64 (take kept (take 64 memory) ++ replicate (64 - kept) 0)

unfoldable pub hmac : List ℕ → List ℕ → HashFunction → HashEncoding → List ℕ → Option (List ℕ)
hmac message key function encoding stack =
    let work = work_key function key stack in
    let outer_xor = xor_memory work 0x5c in
    let inner_xor = xor_memory work 0x36 in
    let pass_1 = bin_digest function (inner_xor ∷ message ∷ []) in
    let pass_2 = bin_digest function (outer_xor ∷ pass_1 ∷ []) in
    encode_digest pass_2 function encoding
