-- ===== src/Grant/Copy.antt =====
-- `NumberOfMultiparts` of src/filecache.c, the size of a part in `CreateFilePart` of src/downloadqueue.c, and
-- the copy of a part in `CreateFileChunk` of src/grant.c.
use aws_s3fs.Base64.Encode.{◌>>=◌}
use aws_s3fs.Common.{
  ℕ, zero, suc, ◌+◌, ◌-◌, ◌*◌, ◌/◌, ◌%◌, ◌^◌, ◌&&◌, Option, none, some, List, [], ◌++◌, length, leb,
  ltb, ◌==◌, if◌then◌else◌,
}

-- `PREFERRED_CHUNK_SIZE * 1024 * 1024`
abbrev pub preferred_size : ℕ
preferred_size = 26214400

abbrev pub maximum_multiparts : ℕ
maximum_multiparts = 10000

unfoldable pub number_of_multiparts : ℕ → ℕ
number_of_multiparts filesize =
    if leb filesize (preferred_size * maximum_multiparts)
    then (filesize + preferred_size - 1) / preferred_size
    else maximum_multiparts

-- The number of bytes in a part.
unfoldable pub part_size : ℕ → ℕ → ℕ
part_size part filesize =
    if part == number_of_multiparts filesize then filesize % preferred_size else preferred_size

abbrev pub copy_chunk_size : ℕ
copy_chunk_size = 262144

-- The size of the chunk to read, as `pread` receives it: a negative size wraps around.
unfoldable pub chunk_size : ℕ → ℕ → ℕ
chunk_size size relative =
    if ltb size (copy_chunk_size + relative)
    then (size + 2 ^ 64 - relative) % 2 ^ 64
    else copy_chunk_size

-- The bytes that are read, none at an error.
unfoldable pub bytes_read : Option (List ℕ) → List ℕ
bytes_read none = []
bytes_read (some bytes) = bytes

-- `pread` of the source: a number of bytes, from an offset; `none` is its -1.
module _ (pread : ℕ → ℕ → Option (List ℕ)) where
  -- The loop, with the contents of the destination; `none` is the end of the fuel.
  unfoldable pub copy_loop : ℕ → ℕ → ℕ → ℕ → ℕ → List ℕ → Option (List ℕ)
  copy_loop zero size offset index copied dest = none
  copy_loop (suc fuel) size offset index copied dest =
      let relative = index * copy_chunk_size in
      let bytes = bytes_read (pread (chunk_size size relative) (offset + relative)) in
      let now = copied + length bytes in
      let rest = copy_loop fuel size offset (index + 1) now (dest ++ bytes) in
      if ltb 0 (length bytes) && ltb now size then rest else some (dest ++ bytes)

  -- The copy of a part of a file of the given size into an empty file. The offset of part 0 is negative,
  -- where `pread` fails, so that nothing is copied.
  unfoldable pub copy_file_chunk : ℕ → ℕ → ℕ → Option (List ℕ)
  copy_file_chunk fuel part filesize =
      if part == 0
      then some []
      else copy_loop fuel (part_size part filesize) ((part - 1) * preferred_size) 0 0 []

-- The parts 1 to `count` of a file, copied and joined in their order.
unfoldable pub joined_parts : (ℕ → ℕ → Option (List ℕ)) → ℕ → ℕ → ℕ → Option (List ℕ)
joined_parts pread fuel zero filesize = some []
joined_parts pread fuel (suc count) filesize = do
  front ← joined_parts pread fuel count filesize
  part ← copy_file_chunk pread fuel (suc count) filesize
  some (front ++ part)
