-- ===== src/Grant/Calls.antt =====
-- `GrantPublish`, `GrantChown`, the parameters of `CreateFileChunk` and the dispatch in
-- `InitializePermissionsGrant` of src/grant.c, as the system calls that they make. `none` stands for an
-- integer overflow. A parameter behind the terminator of the request is read from what the memory
-- holds there.
use aws_s3fs.Common.{
  ℕ, Bool, ◌&&◌, Option, none, some, List, [], ◌∷◌, ◌++◌, drop, ltb, ◌==◌, if◌then◌else◌,
}
use aws_s3fs.Base64.Encode.{codes, ◌>>=◌}
use aws_s3fs.S3Comms.Header.{has_name}
use aws_s3fs.Grant.Params.{
  IntParameter, number, bad_number, overflow, get_int_parameter, get_file_parameter,
  verify_filename,
}

pub data SystemCall : Type 0 where
  chown : (path : List ℕ) (uid gid : ℕ) → SystemCall
  rename : (from to : List ℕ) → SystemCall
  rmdir : (path : List ℕ) → SystemCall
  -- The copy of a part of a file into another, `CreateFileChunk` behind its checks.
  copy_part : (part : ℕ) (source destination : List ℕ) → SystemCall

-- A name with an optional directory: what is valid, and the string behind it.
pub record PathParameter : Type 0 where
  pub path : List ℕ
  pub valid : Bool
  pub rest : Option (List ℕ)

unfoldable pub get_path_parameter : List ℕ → Option PathParameter
get_path_parameter parameters =
    let first = get_file_parameter parameters in
    if first.last == b'/'
    then (do
      rest ← first.rest
      let second = get_file_parameter rest
      some (record {
        path = first.filename ++ (codes "/" ++ second.filename);
        valid = verify_filename first.filename && verify_filename second.filename;
        rest = second.rest;
      }))
    else some (record {
      path = first.filename;
      valid = verify_filename first.filename;
      rest = first.rest;
    })

-- The position behind the terminator is in the string that stands there.
unfoldable pub behind : List ℕ → Option (List ℕ) → List ℕ
behind stale none = stale
behind stale (some rest) = rest

-- `CACHE_FILES` and `CACHE_INPROGRESS` depend on the configured directory; `stale` is the string behind the
-- terminator of the request in its buffer, which the request does not write.
module _ (cache_files cache_inprogress stale : List ℕ) where
  unfoldable pub grant_publish : List ℕ → Option (List SystemCall)
  grant_publish parameters =
      let directory = get_file_parameter parameters in
      let file = get_file_parameter (behind stale directory.rest) in
      let calls =
        rename (cache_inprogress ++ directory.filename) (cache_files ++ directory.filename)
        ∷ rmdir (cache_inprogress ++ directory.filename)
        ∷ rename (cache_inprogress ++ file.filename)
            (cache_files ++ (directory.filename ++ (codes "/" ++ file.filename)))
        ∷ [] in
      some
        (if verify_filename directory.filename && verify_filename file.filename then calls else [])

  unfoldable pub grant_chown_to : ℕ → ℕ → List ℕ → Option (List SystemCall)
  grant_chown_to uid gid parameters = do
    file ← get_path_parameter parameters
    some (if file.valid then chown (cache_files ++ file.path) uid gid ∷ [] else [])

  unfoldable pub grant_chown_gid : ℕ → IntParameter × List ℕ → Option (List SystemCall)
  grant_chown_gid uid (number gid, rest) = grant_chown_to uid gid rest
  grant_chown_gid uid (bad_number, rest) = some []
  grant_chown_gid uid (overflow, rest) = none

  unfoldable pub grant_chown_uid : IntParameter × List ℕ → Option (List SystemCall)
  grant_chown_uid (number uid, rest) = grant_chown_gid uid (get_int_parameter rest)
  grant_chown_uid (bad_number, rest) = some []
  grant_chown_uid (overflow, rest) = none

  unfoldable pub grant_chown : List ℕ → Option (List SystemCall)
  grant_chown parameters = grant_chown_uid (get_int_parameter parameters)

  unfoldable pub copy_to : ℕ → PathParameter → Option (List SystemCall)
  copy_to part source =
      if source.valid
      then (let destination = (get_file_parameter (behind stale source.rest)).filename in
          some (
            if verify_filename destination
            then copy_part part (cache_files ++ source.path) (cache_inprogress ++ destination) ∷ []
            else []))
      else some []

  unfoldable pub create_file_chunk_of : IntParameter × List ℕ → Option (List SystemCall)
  create_file_chunk_of (number part, rest) =
      if ltb 10000 part then some [] else get_path_parameter rest >>= copy_to part
  create_file_chunk_of (bad_number, rest) = some []
  create_file_chunk_of (overflow, rest) = none

  unfoldable pub create_file_chunk : List ℕ → Option (List SystemCall)
  create_file_chunk parameters = create_file_chunk_of (get_int_parameter parameters)

  -- The comparison of the command counts the terminator that is sent with the request.
  unfoldable pub dispatch : List ℕ → Option (List SystemCall)
  dispatch request =
      if has_name request (codes "CHOWN ")
      then grant_chown (drop 6 request)
      else (if has_name request (codes "PUBLISH ")
          then grant_publish (drop 8 request)
          else (if has_name request (codes "CHUNK ")
              then create_file_chunk (drop 6 request)
              else some []))

  -- A request with the process that sent it: the calls, and the reply.
  unfoldable pub serve_request : ℕ → ℕ → List ℕ → Option (List SystemCall × List ℕ)
  serve_request child_pid sender request =
      let calls = dispatch request in
      if sender == child_pid
      then calls >>= (λ (c : List SystemCall). some (c, codes "ACK"))
      else some ([], codes "Not authorized")
