-- ===== src/Grant/Confined.antt =====
-- Whatever is sent to the privileged process of src/grant.c, it stays in the cache directories.
use aws_s3fs.Common.{
  ℕ, ◌≡◌, ◌⊎◌, refl, arith, Bool, true, false, ◌&&◌, Bool-cases, Option-cases, inl, inr, Option,
  none, some, List, [], ◌++◌, length, drop, ltb, ◌==◌, ==_iff, All,
}
use mathlib.Core.Path.{subst}
use aws_s3fs.Base64.Encode.{codes}
use aws_s3fs.S3Comms.Header.{has_name}
use aws_s3fs.Grant.Params.{
  IntParameter, number, bad_number, overflow, get_int_parameter, get_file_parameter,
  verify_filename, all_alnum,
}
use aws_s3fs.Grant.Calls.{
  SystemCall, chown, rename, rmdir, copy_part, behind, PathParameter, get_path_parameter,
  grant_publish, grant_chown_to, grant_chown_gid, grant_chown_uid, grant_chown, copy_to,
  create_file_chunk_of, create_file_chunk, dispatch, serve_request,
}

-- A name of six letters or digits.
pub record IsCacheName (name : List ℕ) : Type 0 where
  pub six : length name ≡ 6
  pub plain : all_alnum name ≡ true

-- A name of the cache, or two with a slash between them.
pub data IsCachePath : List ℕ → Type 0 where
  one_name : {name : List ℕ} → IsCacheName name → IsCachePath name
  two_names :
      {directory name : List ℕ}
      → IsCacheName directory
      → IsCacheName name
      → IsCachePath (directory ++ (codes "/" ++ name))

pub verify_filename-IsCacheName : (name : List ℕ) → verify_filename name ≡ true → IsCacheName name
unfolding verify_filename
verify_filename-IsCacheName name h = record { six = ground (arith, h); plain = ground (arith, h) }

and_split : (a b : Bool) → (a && b) ≡ true → (a ≡ true) × (b ≡ true)
and_split true b h = (refl, h)
and_split false b h = absurd (ground (arith, h))

-- A path that is read, if it is valid.
abbrev PathValid : Option PathParameter → Type 0
PathValid none = Unit {0}
PathValid (some file) = file.valid ≡ true → IsCachePath file.path

path_parameter-PathValid : (parameters : List ℕ) → PathValid (get_path_parameter parameters)
unfolding get_path_parameter
path_parameter-PathValid parameters =
    let first = get_file_parameter parameters in
    elim (Bool-cases (first.last == b'/')) [
      | inl slash ↦ elim (Option-cases first.rest) [
        | inl past ↦ rw (slash, past) tt
        | inr (rest, more) ↦
            rw (slash, more)
              (λ h.
                let (one, two) =
                  and_split (verify_filename first.filename)
                    (verify_filename (get_file_parameter rest).filename) h in
                two_names (verify_filename-IsCacheName first.filename one)
                  (verify_filename-IsCacheName (get_file_parameter rest).filename two))
      ]
      | inr other ↦ rw other (λ h. one_name (verify_filename-IsCacheName first.filename h))
    ]

module _ (cache_files cache_inprogress : List ℕ) where
  -- A call that touches nothing but the two cache directories.
  pub data IsConfined : SystemCall → Type 0 where
    confined_chown :
        {path : List ℕ} {uid gid : ℕ}
        → IsCachePath path
        → IsConfined (chown (cache_files ++ path) uid gid)
    confined_rename :
        {from to : List ℕ}
        → IsCacheName from
        → IsCachePath to
        → IsConfined (rename (cache_inprogress ++ from) (cache_files ++ to))
    confined_rmdir :
        {name : List ℕ} → IsCacheName name → IsConfined (rmdir (cache_inprogress ++ name))
    confined_copy :
        {part : ℕ} {source destination : List ℕ}
        → IsCachePath source
        → IsCacheName destination
        → IsConfined (copy_part part (cache_files ++ source) (cache_inprogress ++ destination))

module _ (cache_files cache_inprogress stale : List ℕ) where
  abbrev Safe : Option (List SystemCall) → Type 0
  Safe none = Unit {0}
  Safe (some calls) = All (IsConfined cache_files cache_inprogress) calls

  chown_to-Safe :
      (uid gid : ℕ) (parameters : List ℕ)
      → Safe (grant_chown_to cache_files cache_inprogress stale uid gid parameters)
  unfolding grant_chown_to
  chown_to-Safe uid gid parameters =
      let valid = path_parameter-PathValid parameters in
      elim (Option-cases (get_path_parameter parameters)) [
        | inl past ↦ rw past tt
        | inr (file, read) ↦
            let path = subst PathValid read valid in
            elim (Bool-cases file.valid) [
              | inl yes_valid ↦ rw (read, yes_valid) (confined_chown (path yes_valid), tt)
              | inr invalid ↦ rw (read, invalid) tt
            ]
      ]

  chown_gid-Safe :
      (uid : ℕ) (gid : IntParameter) (rest : List ℕ)
      → Safe (grant_chown_gid cache_files cache_inprogress stale uid (gid, rest))
  unfolding grant_chown_gid
  chown_gid-Safe uid (number gid) rest = chown_to-Safe uid gid rest
  chown_gid-Safe uid bad_number rest = tt
  chown_gid-Safe uid overflow rest = tt

  chown_uid-Safe :
      (uid : IntParameter) (rest : List ℕ)
      → Safe (grant_chown_uid cache_files cache_inprogress stale (uid, rest))
  unfolding grant_chown_uid
  chown_uid-Safe (number uid) rest =
      chown_gid-Safe uid (get_int_parameter rest).0 (get_int_parameter rest).1
  chown_uid-Safe bad_number rest = tt
  chown_uid-Safe overflow rest = tt

  copy_to-Safe :
      (part : ℕ) (source : PathParameter)
      → (source.valid ≡ true → IsCachePath source.path)
      → Safe (copy_to cache_files cache_inprogress stale part source)
  unfolding copy_to
  copy_to-Safe part source path =
      let name = (get_file_parameter (behind stale source.rest)).filename in
      elim (Bool-cases source.valid) [
        | inl yes_valid ↦ elim (Bool-cases (verify_filename name)) [
          | inl good ↦
              rw (yes_valid, good)
                (confined_copy (path yes_valid) (verify_filename-IsCacheName name good), tt)
          | inr bad ↦ rw (yes_valid, bad) tt
        ]
        | inr invalid ↦ rw invalid tt
      ]

  chunk_of-Safe :
      (part : IntParameter) (rest : List ℕ)
      → Safe (create_file_chunk_of cache_files cache_inprogress stale (part, rest))
  unfolding create_file_chunk_of
  chunk_of-Safe bad_number rest = tt
  chunk_of-Safe overflow rest = tt
  chunk_of-Safe (number part) rest =
      let valid = path_parameter-PathValid rest in
      elim (Bool-cases (ltb 10000 part)) [
        | inl large ↦ rw large tt
        | inr fits ↦ elim (Option-cases (get_path_parameter rest)) [
          | inl past ↦ rw (fits, past) tt
          | inr (source, read) ↦
              rw (fits, read) (copy_to-Safe part source (subst PathValid read valid))
        ]
      ]

  publish-Safe :
      (parameters : List ℕ) → Safe (grant_publish cache_files cache_inprogress stale parameters)
  unfolding grant_publish
  publish-Safe parameters =
      let directory = get_file_parameter parameters in
      let file = get_file_parameter (behind stale directory.rest) in
      elim (Bool-cases (verify_filename directory.filename && verify_filename file.filename)) [
        | inl good ↦
            let (one, two) =
              and_split (verify_filename directory.filename) (verify_filename file.filename) good in
            let dir = verify_filename-IsCacheName directory.filename one in
            let name = verify_filename-IsCacheName file.filename two in
            rw good (
              confined_rename dir (one_name dir),
              (confined_rmdir dir, (confined_rename name (two_names dir name), tt)),
            )
        | inr bad ↦ rw bad tt
      ]

  dispatch-Safe : (request : List ℕ) → Safe (dispatch cache_files cache_inprogress stale request)
  unfolding dispatch grant_chown create_file_chunk
  dispatch-Safe request = elim (Bool-cases (has_name request (codes "CHOWN "))) [
    | inl a ↦ let p = get_int_parameter (drop 6 request) in rw a (chown_uid-Safe p.0 p.1)
    | inr not_a ↦ elim (Bool-cases (has_name request (codes "PUBLISH "))) [
      | inl b ↦ rw (not_a, b) (publish-Safe (drop 8 request))
      | inr not_b ↦ elim (Bool-cases (has_name request (codes "CHUNK "))) [
        | inl c ↦
            let p = get_int_parameter (drop 6 request) in
            rw (not_a, not_b, c) (chunk_of-Safe p.0 p.1)
        | inr not_c ↦ rw (not_a, not_b, not_c) tt
      ]
    ]
  ]

  abbrev Served : ℕ → ℕ → Option (List SystemCall × List ℕ) → Type 0
  Served child_pid sender none = Unit {0}
  Served child_pid sender (some (calls, reply)) =
      All (IsConfined cache_files cache_inprogress) calls × ((sender ≡ child_pid) ⊎ (calls ≡ []))

  serve_request-Served :
      (child_pid sender : ℕ) (request : List ℕ)
      → Served child_pid sender
          (serve_request cache_files cache_inprogress stale child_pid sender request)
  unfolding serve_request
  serve_request-Served child_pid sender request =
      let safe = dispatch-Safe request in
      elim (Bool-cases (sender == child_pid)) [
        | inl child ↦ elim (Option-cases (dispatch cache_files cache_inprogress stale request)) [
          | inl past ↦ rw (child, past) tt
          | inr (calls, made) ↦
              rw (child, made) (subst Safe made safe, inl ((==_iff sender child_pid).0 child))
        ]
        | inr stranger ↦ rw stranger (tt, inr refl)
      ]

  -- Whatever request a process sends, in which no integer that is read exceeds an `int`, and whatever stands
  -- behind it in the buffer, each call that is made for it touches nothing but names of six letters or digits
  -- in the two cache directories, or such a name in such a directory; and no call is made for a process that
  -- is not the download queue.
  pub serve_request-IsConfined :
      (child_pid sender : ℕ) (request : List ℕ) (calls : List SystemCall) (reply : List ℕ)
      → serve_request cache_files cache_inprogress stale child_pid sender request
        ≡ some (calls, reply)
      → All (IsConfined cache_files cache_inprogress) calls × ((sender ≡ child_pid) ⊎ (calls ≡ []))
  serve_request-IsConfined child_pid sender request calls reply served =
      subst (Served child_pid sender) served (serve_request-Served child_pid sender request)
