-- ===== src/Grant/Requests.antt =====
-- The requests that `MoveToSharedCache` and `CreateFilePart` of src/downloadqueue.c send to the privileged
-- process, and the blocks that they are built in.
use aws_s3fs.Common.{
  ℕ, zero, suc, ◌+◌, ◌-◌, ◌/◌, ◌%◌, ◌^◌, Option, none, some, List, [], ◌∷◌, ◌++◌, length, leb, ltb,
  if◌then◌else◌,
}
use aws_s3fs.Base64.Encode.{codes, ◌>>=◌}

-- `%d` of a number that is not negative; an `int` has at most ten digits.
unfoldable pub digits_within : ℕ → ℕ → List ℕ
digits_within zero n = []
digits_within (suc more) n =
    let front = digits_within more (n / 10) in
    if ltb n 10 then (n + b'0') ∷ [] else front ++ ((n % 10 + b'0') ∷ [])

unfoldable pub decimal : ℕ → List ℕ
decimal n = digits_within 10 n

-- `%d` of an id that is cast to an `int`.
unfoldable pub int_text : ℕ → List ℕ
int_text n = if ltb n (2 ^ 31) then decimal n else b'-' ∷ decimal (2 ^ 32 - n)

unfoldable pub chown_request : ℕ → ℕ → List ℕ → List ℕ
chown_request uid gid path =
    codes "CHOWN " ++ (int_text uid ++ (codes ":" ++ (int_text gid ++ (codes ":" ++ path))))

-- The size of the block for a request on a path.
unfoldable pub chown_room : List ℕ → ℕ
chown_room path = length path + length (codes "chown xxxxx xxxxx ") + 1

unfoldable pub publish_request : List ℕ → List ℕ → List ℕ
publish_request parentname filename = codes "PUBLISH " ++ (parentname ++ (codes ":" ++ filename))

-- A request with its terminator in its block; `none` is a write behind the block.
unfoldable pub in_block : ℕ → List ℕ → Option (List ℕ)
in_block room request = if leb (length request + 1) room then some request else none

-- The requests of `MoveToSharedCache`, in the order in which they are sent.
unfoldable pub move_to_shared_cache : List ℕ → ℕ → ℕ → List ℕ → ℕ → ℕ → Option (List (List ℕ))
move_to_shared_cache parentname parent_uid parent_gid filename uid gid = do
  let path = parentname ++ (codes "/" ++ filename)
  for_directory ← in_block (chown_room parentname) (chown_request parent_uid parent_gid parentname)
  for_file ← in_block (chown_room path) (chown_request uid gid path)
  some (for_directory ∷ for_file ∷ publish_request parentname filename ∷ [])

unfoldable pub chunk_request : ℕ → List ℕ → List ℕ → List ℕ
chunk_request part filepath chunk_path =
    codes "CHUNK " ++ (decimal part ++ (codes ":" ++ (filepath ++ (codes ":" ++ chunk_path))))
