-- ===== src/Grant/Exchange.antt =====
-- What the privileged process of src/grant.c does with the requests that `MoveToSharedCache` of
-- src/downloadqueue.c sends.
use aws_s3fs.Common.{
  ℕ, ◌≡◌, ◌<◌, refl, sym, ap, ◌∙◌, arith, true, false, ◌||◌, Bool-cases, inl, inr, none, some, List,
  [], ◌∷◌, ◌++◌, append-nil, map, length, length-append, ltb, leb, ◌+◌,
}
use aws_s3fs.Base64.Encode.{codes, ◌>>=◌}
use aws_s3fs.Base64.Decode.{is_alnum}
use aws_s3fs.S3Comms.Header.{is_space, has_name}
use aws_s3fs.Grant.Params.{
  is_punct, number, get_int_parameter, FileParameter, skip_to_alnum, skip_symbols, read_name,
  get_file_parameter, verify_filename, all_alnum,
}
use aws_s3fs.Grant.Calls.{
  chown, rename, rmdir, behind, get_path_parameter, grant_publish, grant_chown_to, grant_chown_gid,
  grant_chown_uid, grant_chown, dispatch,
}
use aws_s3fs.Grant.Requests.{
  decimal, int_text, in_block, chown_room, chown_request, publish_request, move_to_shared_cache,
}
use aws_s3fs.Grant.Decimal.{get_int_parameter-decimal, length-decimal}
use aws_s3fs.Grant.Confined.{IsCacheName}

-- What is left when a name ends before `s`.
abbrev after : List ℕ → List ℕ → FileParameter
after name [] = record { filename = name; last = 0; rest = none }
after name (ch ∷ s) = record { filename = name; last = ch; rest = some s }

read_name_all :
    (name s : List ℕ) → all_alnum name ≡ true → read_name (length name) (name ++ s) ≡ after name s
unfolding read_name
read_name_all [] [] h = refl
read_name_all [] (x ∷ s) h = refl
read_name_all (ch ∷ name) [] h = elim (Bool-cases (is_alnum ch)) [
  | inl yes_alnum ↦ rw (yes_alnum, read_name_all name [] (ground (arith, h))) refl
  | inr no_alnum ↦ absurd (ground (arith, h, no_alnum))
]
read_name_all (ch ∷ name) (x ∷ s) h = elim (Bool-cases (is_alnum ch)) [
  | inl yes_alnum ↦ rw (yes_alnum, read_name_all name (x ∷ s) (ground (arith, h))) refl
  | inr no_alnum ↦ absurd (ground (arith, h, no_alnum))
]

alnum_is_no_symbol : (ch : ℕ) → is_alnum ch ≡ true → (is_space ch || is_punct ch) ≡ false
alnum_is_no_symbol ch h = ground (arith, h)

skip_none : (name s : List ℕ) → IsCacheName name → skip_symbols (name ++ s) ≡ name ++ s
unfolding skip_symbols
skip_none [] s n = absurd (omega (arith, n.six))
skip_none (ch ∷ name) s n =
    let alnum : is_alnum ch ≡ true = ground (arith, n.plain) in
    rw (alnum_is_no_symbol ch alnum) refl

-- `GetFileParameter` on a name of the cache.
get_file_parameter-name :
    (name s : List ℕ) → IsCacheName name → get_file_parameter (name ++ s) ≡ after name s
unfolding get_file_parameter
get_file_parameter-name name s n = rw (skip_none name s n, sym n.six) (read_name_all name s n.plain)

-- The same behind a colon.
get_file_parameter-colon :
    (name s : List ℕ)
    → IsCacheName name
    → get_file_parameter (codes ":" ++ (name ++ s)) ≡ after name s
unfolding get_file_parameter skip_symbols
get_file_parameter-colon name s n = get_file_parameter-name name s n

verified : (name : List ℕ) → IsCacheName name → verify_filename name ≡ true
unfolding verify_filename
verified name n = ground (arith, n.six, n.plain)

-- A path that is read, with nothing behind it.
one_path :
    (name : List ℕ)
    → IsCacheName name
    → get_path_parameter (codes ":" ++ name)
      ≡ some (record { path = name; valid = true; rest = none })
unfolding get_path_parameter
one_path name n =
    let read =
      sym (ap (λ t. get_file_parameter (codes ":" ++ t)) (append-nil name))
      ∙ get_file_parameter-colon name [] n in
    rw (read, verified name n) refl

two_paths :
    (directory name : List ℕ)
    → IsCacheName directory
    → IsCacheName name
    → get_path_parameter (codes ":" ++ (directory ++ (codes "/" ++ name)))
      ≡ some (record { path = directory ++ (codes "/" ++ name); valid = true; rest = none })
unfolding get_path_parameter
two_paths directory name d n =
    let first = get_file_parameter-colon directory (codes "/" ++ name) d in
    let second =
      sym (ap get_file_parameter (append-nil name)) ∙ get_file_parameter-name name [] n in
    rw (first, second, verified directory d, verified name n) refl

-- The colon before a number is skipped.
number_behind_colon : (s : List ℕ) → get_int_parameter (codes ":" ++ s) ≡ get_int_parameter s
unfolding get_int_parameter skip_to_alnum
number_behind_colon s = refl

-- Ids of at most five digits fit the block.
chown_fits :
    (uid gid : ℕ) (path : List ℕ)
    → uid < 100000
    → gid < 100000
    → in_block (chown_room path) (chown_request uid gid path) ≡ some (chown_request uid gid path)
unfolding in_block chown_room chown_request int_text
chown_fits uid gid path u g =
    let small_uid : ltb uid 2147483648 ≡ true = ground (arith, u) in
    let small_gid : ltb gid 2147483648 ≡ true = ground (arith, g) in
    let uid_text = length-decimal uid u in
    let gid_text = length-decimal gid g in
    let behind_gid = length-append {0} (decimal gid) (codes ":" ++ path) in
    let behind_uid =
      length-append {0} (decimal uid) (codes ":" ++ (decimal gid ++ (codes ":" ++ path))) in
    let fits : leb
          (length (
              codes "CHOWN "
              ++ (decimal uid ++ (codes ":" ++ (decimal gid ++ (codes ":" ++ path)))))
            + 1)
          (length path + 18 + 1)
        ≡ true =
      ground (arith, uid_text, gid_text, behind_gid, behind_uid) in
    rw (small_uid, small_gid, fits) refl

module _ (cache_files cache_inprogress stale : List ℕ) where
  chown_to_path :
      (uid gid : ℕ) (path : List ℕ)
      → get_path_parameter (codes ":" ++ path)
        ≡ some (record { path = path; valid = true; rest = none })
      → grant_chown_to cache_files cache_inprogress stale uid gid (codes ":" ++ path)
        ≡ some (chown (cache_files ++ path) uid gid ∷ [])
  unfolding grant_chown_to
  chown_to_path uid gid path read = rw read refl

  chown_gid_step :
      (uid : ℕ) (rest : List ℕ)
      → grant_chown_uid cache_files cache_inprogress stale (number uid, rest)
        ≡ grant_chown_gid cache_files cache_inprogress stale uid (get_int_parameter rest)
  unfolding grant_chown_uid
  chown_gid_step uid rest = refl

  chown_to_step :
      (uid gid : ℕ) (rest : List ℕ)
      → grant_chown_gid cache_files cache_inprogress stale uid (number gid, rest)
        ≡ grant_chown_to cache_files cache_inprogress stale uid gid rest
  unfolding grant_chown_gid
  chown_to_step uid gid rest = refl

  dispatch-chown :
      (uid gid : ℕ) (path : List ℕ)
      → uid < 2147483648
      → gid < 2147483648
      → get_path_parameter (codes ":" ++ path)
        ≡ some (record { path = path; valid = true; rest = none })
      → dispatch cache_files cache_inprogress stale (chown_request uid gid path)
        ≡ some (chown (cache_files ++ path) uid gid ∷ [])
  unfolding dispatch chown_request int_text has_name grant_chown
  dispatch-chown uid gid path u g read =
      let small_uid : ltb uid 2147483648 ≡ true = ground (arith, u) in
      let small_gid : ltb gid 2147483648 ≡ true = ground (arith, g) in
      let first = get_int_parameter-decimal uid (decimal gid ++ (codes ":" ++ path)) u in
      let second = get_int_parameter-decimal gid path g in
      rw
        (
          small_uid,
          small_gid,
          first,
          chown_gid_step uid (codes ":" ++ (decimal gid ++ (codes ":" ++ path))),
          number_behind_colon (decimal gid ++ (codes ":" ++ path)),
          second,
          chown_to_step uid gid (codes ":" ++ path),
        )
        (chown_to_path uid gid path read)

  dispatch-publish :
      (directory name : List ℕ)
      → IsCacheName directory
      → IsCacheName name
      → dispatch cache_files cache_inprogress stale (publish_request directory name)
        ≡ some (
            rename (cache_inprogress ++ directory) (cache_files ++ directory)
            ∷ rmdir (cache_inprogress ++ directory)
            ∷ rename (cache_inprogress ++ name) (cache_files ++ (directory ++ (codes "/" ++ name)))
            ∷ [])
  unfolding dispatch publish_request has_name grant_publish behind
  dispatch-publish directory name d n =
      let second =
        sym (ap (λ t. get_file_parameter t) (append-nil name))
        ∙ get_file_parameter-name name [] n in
      rw
        (
          get_file_parameter-name directory (codes ":" ++ name) d,
          second,
          verified directory d,
          verified name n,
        )
        refl

  -- For six-character names and ids below 100000, the requests of `MoveToSharedCache` fit their blocks, and
  -- have these effects and no others, in this order: the directory under its published name is given its
  -- owner, then the file under its published name, and only then are the directory and the file moved there.
  pub dispatch-move_to_shared_cache :
      (parentname filename : List ℕ) (parent_uid parent_gid uid gid : ℕ)
      → IsCacheName parentname
      → IsCacheName filename
      → parent_uid < 100000
      → parent_gid < 100000
      → uid < 100000
      → gid < 100000
      → (move_to_shared_cache parentname parent_uid parent_gid filename uid gid
          >>= (λ (requests : List (List ℕ)).
              some (map (dispatch cache_files cache_inprogress stale) requests)))
        ≡ some (
            some (chown (cache_files ++ parentname) parent_uid parent_gid ∷ [])
            ∷ some (chown (cache_files ++ (parentname ++ (codes "/" ++ filename))) uid gid ∷ [])
            ∷ some (
                rename (cache_inprogress ++ parentname) (cache_files ++ parentname)
                ∷ rmdir (cache_inprogress ++ parentname)
                ∷ rename
                    (cache_inprogress ++ filename)
                    (cache_files ++ (parentname ++ (codes "/" ++ filename)))
                ∷ [])
            ∷ [])
  unfolding move_to_shared_cache
  dispatch-move_to_shared_cache parentname filename parent_uid parent_gid uid gid p f pu pg u g =
      let path = parentname ++ (codes "/" ++ filename) in
      rw
        (
          chown_fits parent_uid parent_gid parentname pu pg,
          chown_fits uid gid path u g,
          dispatch-chown parent_uid parent_gid parentname (omega (arith, pu)) (omega (arith, pg))
              (one_path parentname p),
          dispatch-chown uid gid path (omega (arith, u)) (omega (arith, g))
              (two_paths parentname filename p f),
          dispatch-publish parentname filename p f,
        )
        refl
