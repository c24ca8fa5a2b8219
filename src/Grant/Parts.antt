-- ===== src/Grant/Parts.antt =====
-- The parts of a file that are copied for a multipart upload, joined again: `NumberOfMultiparts` of
-- src/filecache.c with `CreateFileChunk` of src/grant.c.
use aws_s3fs.Common.{
  ℕ, zero, suc, ◌+◌, ◌-◌, ◌*◌, ◌/◌, ◌%◌, ◌≡◌, ◌≢◌, ◌≤◌, ◌<◌, refl, ap, ◌∙◌, arith, true, false,
  Option, some, List, [], length, take, drop, take_of_length-le, leb, ◌==◌,
}
use aws_s3fs.Grant.Copy.{
  preferred_size, number_of_multiparts, part_size, copy_file_chunk, joined_parts,
}
use aws_s3fs.Grant.CopyRun.{take-add, copy_file_chunk-part}

-- The number of parts of a file that is not too large.
parts_of :
    (filesize : ℕ)
    → 0 < filesize
    → filesize ≤ 262144000000
    → number_of_multiparts filesize ≡ suc ((filesize - 1) / 26214400)
unfolding number_of_multiparts
parts_of filesize some_bytes fits =
    let test : leb filesize 262144000000 ≡ true = ground (arith, fits) in
    rw test (omega (arith, some_bytes))

module _ (file : List ℕ) (pread : ℕ → ℕ → Option (List ℕ))
    (reads : (count offset : ℕ) → pread count offset ≡ some (take count (drop offset file)))
    (some_bytes : 0 < length file) (fits : length file ≤ 262144000000) where
  -- A part that is not the last one is as large as it should be.
  inner_size :
      (count : ℕ)
      → suc count ≤ (length file - 1) / 26214400
      → part_size (suc count) (length file) ≡ 26214400
  unfolding part_size
  inner_size count h =
      let n = (length file - 1) / 26214400 in
      let other : (suc count == suc n) ≡ false = ground (arith, h) in
      rw (parts_of (length file) some_bytes fits, other) refl

  last_part_size :
      part_size (suc ((length file - 1) / 26214400)) (length file) ≡ length file % 26214400
  unfolding part_size
  last_part_size =
      let n = (length file - 1) / 26214400 in
      let same : (suc n == suc n) ≡ true = ground arith in
      rw (parts_of (length file) some_bytes fits, same) refl

  -- One more part behind those that are copied.
  join_one :
      (fuel count size : ℕ)
      → 101 ≤ fuel
      → part_size (suc count) (length file) ≡ size
      → count * 26214400 + size ≤ length file
      → joined_parts pread fuel count (length file) ≡ some (take (count * 26214400) file)
      → joined_parts pread fuel (suc count) (length file)
        ≡ some (take (count * 26214400 + size) file)
  unfolding joined_parts
  join_one fuel count size enough e inside before =
      let back : suc count - 1 ≡ count = omega arith in
      let part =
        copy_file_chunk-part file pread reads fuel (suc count) enough (omega arith)
          (rw (back, e) inside) in
      rw (before, part, back, e, take-add (count * 26214400) size file) refl

  inner_parts :
      (fuel count : ℕ)
      → 101 ≤ fuel
      → count ≤ (length file - 1) / 26214400
      → joined_parts pread fuel count (length file) ≡ some (take (count * 26214400) file)
  unfolding joined_parts
  inner_parts fuel zero enough h =
      let e : 0 ≡ 0 * 26214400 = omega arith in ap (λ k. some (take k file)) e
  inner_parts fuel (suc count) enough h =
      let e : count * 26214400 + 26214400 ≡ suc count * 26214400 = omega arith in
      join_one fuel count 26214400 enough (inner_size count h) (omega (arith, h))
        (inner_parts fuel count enough (omega (arith, h)))
      ∙ ap (λ k. some (take k file)) e

  all_parts :
      (fuel : ℕ)
      → 101 ≤ fuel
      → joined_parts pread fuel (number_of_multiparts (length file)) (length file)
        ≡ some (take ((length file - 1) / 26214400 * 26214400 + length file % 26214400) file)
  all_parts fuel enough =
      let n = (length file - 1) / 26214400 in
      rw (parts_of (length file) some_bytes fits) (
        join_one fuel n (length file % 26214400) enough last_part_size (omega arith)
          (inner_parts fuel n enough (omega arith)))

  -- If each `pread` returns the bytes of the file that are asked for, up to its end: of a file with at least one byte and at most 10000 parts, the parts that are copied give the whole file, if
  -- its length is no multiple of the preferred size of a part.
  pub joined_parts-whole :
      (fuel : ℕ)
      → 101 ≤ fuel
      → length file % preferred_size ≢ 0
      → joined_parts pread fuel (number_of_multiparts (length file)) (length file) ≡ some file
  joined_parts-whole fuel enough rest =
      let e : (length file - 1) / 26214400 * 26214400 + length file % 26214400 ≡ length file =
        omega (arith, rest) in
      all_parts fuel enough
      ∙ (ap (λ k. some (take k file)) e
          ∙ ap some (take_of_length-le (length file) file (omega arith)))

  -- If each `pread` returns the bytes that are asked for, up to the end of the file, and the file has at least
  -- one byte and at most 10000 parts, and its length is a multiple of the preferred size of a part, then the
  -- last part is empty, and the parts give the file without its last 26214400 bytes.
  pub joined_parts-lost :
      (fuel : ℕ)
      → 101 ≤ fuel
      → length file % preferred_size ≡ 0
      → (copy_file_chunk pread fuel (number_of_multiparts (length file)) (length file) ≡ some [])
        × (joined_parts pread fuel (number_of_multiparts (length file)) (length file)
            ≡ some (take (length file - preferred_size) file))
  joined_parts-lost fuel enough none_left =
      let n = (length file - 1) / 26214400 in
      let e : n * 26214400 + length file % 26214400 ≡ length file - 26214400 =
        omega (arith, none_left, some_bytes) in
      let back : suc n - 1 ≡ n = omega arith in
      let size = last_part_size ∙ none_left in
      let part =
        copy_file_chunk-part file pread reads fuel (suc n) enough (omega arith)
          (rw (back, size) (omega arith)) in
      (
        rw (parts_of (length file) some_bytes fits) (part ∙ rw size refl),
        all_parts fuel enough ∙ ap (λ k. some (take k file)) e,
      )
