-- ===== src/Grant/CopyRun.antt =====
-- The parts that the loop of `CreateFileChunk` of src/grant.c copies out of a file.
use aws_s3fs.Common.{and_false}
use aws_s3fs.Common.{
  ℕ, zero, suc, ◌+◌, ◌-◌, ◌*◌, ◌%◌, ◌≡◌, ◌≤◌, ◌<◌, refl, sym, ap, ◌∙◌, arith, true, false, ◌&&◌,
  Bool-cases, inl, inr, Option, some, List, [], ◌∷◌, ◌++◌, length, take, drop, length-take,
  length-drop, drop-add, take_of_length-le, ltb, ◌==◌, if◌then◌else◌,
}
use aws_s3fs.Grant.Copy.{
  preferred_size, number_of_multiparts, part_size, chunk_size, bytes_read, copy_loop,
  copy_file_chunk,
}

pub take-add : (a b : ℕ) (xs : List ℕ) → take a xs ++ take b (drop a xs) ≡ take (a + b) xs
take-add zero b xs = let e : 0 + b ≡ b = omega arith in rw e refl
take-add (suc a) b [] =
    take_of_length-le b [] (omega arith) ∙ sym (take_of_length-le (suc a + b) [] (omega arith))
take-add (suc a) b (x ∷ xs) =
    let e : suc a + b ≡ suc (a + b) = omega arith in
    rw e (ap (λ (t : List ℕ). x ∷ t) (take-add a b xs))

pub part_size_small : (part filesize : ℕ) → part_size part filesize ≤ 26214400
unfolding part_size
part_size_small part filesize = elim (Bool-cases (part == number_of_multiparts filesize)) [
  | inl last ↦ rw last (omega arith)
  | inr inner ↦ rw inner (omega arith)
]

module _ (file : List ℕ) (pread : ℕ → ℕ → Option (List ℕ))
    (reads : (count offset : ℕ) → pread count offset ≡ some (take count (drop offset file))) where
  -- What a round reads.
  round_reads :
      (size offset relative count : ℕ)
      → chunk_size size relative ≡ count
      → bytes_read (pread (chunk_size size relative) (offset + relative))
        ≡ take count (drop relative (drop offset file))
  unfolding bytes_read
  round_reads size offset relative count e =
      rw (e, reads count (offset + relative), drop-add offset relative file) refl

  last_size :
      (size relative : ℕ)
      → size ≤ 26214400
      → relative ≤ size
      → size < 262144 + relative
      → chunk_size size relative ≡ size - relative
  unfolding chunk_size
  last_size size relative small start h =
      let test : ltb size (262144 + relative) ≡ true = ground (arith, h) in
      let e : (size + 18446744073709551616 - relative) % 18446744073709551616 ≡ size - relative =
        omega (arith, small, start) in
      rw (test, e) refl

  full_size : (size relative : ℕ) → 262144 + relative ≤ size → chunk_size size relative ≡ 262144
  unfolding chunk_size
  full_size size relative h =
      let test : ltb size (262144 + relative) ≡ false = ground (arith, h) in rw test refl

  -- One round of the loop that reads `count` bytes.
  copy_round :
      (fuel size offset relative index count : ℕ)
      → index * 262144 ≡ relative
      → chunk_size size relative ≡ count
      → count + relative ≤ size
      → size ≤ length (drop offset file)
      → copy_loop pread (suc fuel) size offset index relative (take relative (drop offset file)) ≡ (
          if ltb 0 count && ltb (relative + count) size
          then copy_loop pread fuel size offset
              (index + 1)
              (relative + count)
              (take (relative + count) (drop offset file))
          else some (take (relative + count) (drop offset file)))
  unfolding copy_loop
  copy_round fuel size offset relative index count i c h room =
      let more = drop relative (drop offset file) in
      let there : length more ≡ length (drop offset file) - relative =
        length-drop relative (drop offset file) in
      let counted : length (take count more) ≡ count =
        length-take count more (omega (arith, there, h, room)) in
      rw
        (
          i,
          round_reads size offset relative count c,
          counted,
          take-add relative count (drop offset file),
        )
        refl

  copy_loop_lem :
      (fuel size offset index : ℕ)
      → size ≤ 26214400
      → size ≤ length (drop offset file)
      → index * 262144 ≤ size
      → size < (fuel + index) * 262144
      → copy_loop pread fuel size offset index
          (index * 262144)
          (take (index * 262144) (drop offset file))
        ≡ some (take size (drop offset file))
  copy_loop_lem zero size offset index small room start enough =
      absurd (omega (arith, start, enough))
  copy_loop_lem (suc fuel) size offset index small room start enough =
      let relative = index * 262144 in
      elim (Bool-cases (ltb size (262144 + relative))) [
        | inl last ↦
            let count = last_size size relative small start (ground (arith, last)) in
            let whole : relative + (size - relative) ≡ size = omega (arith, start) in
            let stop : ltb size size ≡ false = ground arith in
            copy_round fuel size offset relative index (size - relative) refl count
              (omega (arith, start)) room
            ∙ rw (whole, stop, and_false (ltb 0 (size - relative))) refl
        | inr full ↦
            let fits : 262144 + relative ≤ size = ground (arith, full) in
            copy_round fuel size offset relative index 262144 refl (full_size size relative fits)
              fits room
            ∙ elim (Bool-cases (ltb (relative + 262144) size)) [
              | inl more ↦
                  let e : (index + 1) * 262144 ≡ relative + 262144 = omega arith in
                  let below : relative + 262144 < size = ground (arith, more) in
                  rw (more, sym e)
                    (copy_loop_lem fuel size offset (index + 1) small room (omega (arith, below))
                      (omega (arith, enough)))
              | inr done ↦
                  let e : relative + 262144 ≡ size = ground (arith, done, fits) in rw (done, e) refl
            ]
      ]

  -- If each `pread` returns the bytes of the file that are asked for, up to its end, then 101 rounds are enough
  -- for any part from 1 on that lies in the file, and the destination holds that part: as many bytes as `part_size` says,
  -- from the part's offset on.
  pub copy_file_chunk-part :
      (fuel part : ℕ)
      → 101 ≤ fuel
      → 1 ≤ part
      → (part - 1) * preferred_size + part_size part (length file) ≤ length file
      → copy_file_chunk pread fuel part (length file)
        ≡ some (take (part_size part (length file)) (drop ((part - 1) * preferred_size) file))
  unfolding copy_file_chunk
  copy_file_chunk-part fuel part enough positive inside =
      let test : (part == 0) ≡ false = ground (arith, positive) in
      let offset = (part - 1) * preferred_size in
      let size = part_size part (length file) in
      let there = length-drop offset file in
      let small = part_size_small part (length file) in
      rw test (
        copy_loop_lem fuel size offset 0 small (omega (arith, there, inside)) (omega arith)
          (omega (arith, enough, small)))
