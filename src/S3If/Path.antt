-- ===== src/S3If/Path.antt =====
-- `GetParentDir`, `StripTrailingSlash`, `AddTrailingSlash`, `CleanPath` and the normalisation at the start of
-- `S3FileStat` in src/s3if.c. A path is the list of its bytes before the terminator.
use aws_s3fs.Common.{
  ℕ, zero, suc, ◌-◌, Bool, true, false, not, ◌&&◌, Option, none, some, List, [], ◌∷◌, ◌++◌, length,
  take, get_or, ◌==◌, if◌then◌else◌,
}
use aws_s3fs.Base64.Encode.{codes}

-- `while( ( endIdx != 0 ) && ( path[ endIdx ] != '/' ) ) endIdx--;`
unfoldable pub slash_index : List ℕ → ℕ → ℕ
slash_index path zero = zero
slash_index path (suc end_idx) =
    let before = slash_index path end_idx in
    if get_or path (suc end_idx) 0 == b'/' then suc end_idx else before

-- The index of the last character is -1 for the empty path, where the loop leaves the array: `none`.
unfoldable pub get_parent_dir : List ℕ → Option (List ℕ)
get_parent_dir [] = none
get_parent_dir (ch ∷ rest) =
    let path = ch ∷ rest in
    let end_idx = slash_index path (length path - 1) in
    if end_idx == 0 then some (codes "/") else some (take end_idx path)

-- `while( --dirnameLength != 0 )`: `count` is what `dirnameLength` is after the decrement.
unfoldable pub strip_loop : List ℕ → ℕ → List ℕ
strip_loop dirname zero = dirname
strip_loop dirname (suc count) =
    let stripped = strip_loop (take (suc count) dirname) count in
    if get_or dirname (suc count) 0 == b'/' then stripped else dirname

-- The string is not `NULL`, and it is the same whether it is stripped in place or in a copy. For the
-- empty string the length becomes -1, and the loop reads in front of the string: `none`.
unfoldable pub strip_trailing_slash : List ℕ → Option (List ℕ)
strip_trailing_slash [] = none
strip_trailing_slash (ch ∷ rest) =
    let dirname = ch ∷ rest in some (strip_loop dirname (length dirname - 1))

-- A block with its terminator is `some`; `none` is one that `strncpy` leaves without a terminator.
unfoldable add_trailing_slash : Option (List ℕ) → Option (List ℕ)
add_trailing_slash none = some (codes "/")
add_trailing_slash (some filename) =
    let filename_length = length filename in
    if not (filename_length == 0) && not (get_or filename (filename_length - 1) 0 == b'/')
    then some (filename ++ codes "/")
    else none

-- The loop of `CleanPath` with its two flags.
unfoldable pub clean_loop : Bool → Bool → List ℕ → List ℕ
clean_loop escaped slash_found [] = []
clean_loop true slash_found (ch ∷ inpath) = clean_loop true slash_found inpath
clean_loop false slash_found (ch ∷ inpath) =
    let now_escaped = ch == b'\\' in
    if ch == b'/' && not slash_found
    then ch ∷ clean_loop now_escaped true inpath
    else (if not (ch == b'/')
        then ch ∷ clean_loop now_escaped false inpath
        else clean_loop now_escaped slash_found inpath)

unfoldable clean_path : List ℕ → Option (List ℕ)
clean_path inpath = strip_trailing_slash (clean_loop false false inpath)

-- The filename that `S3FileStat` looks up: exactly one leading slash and no trailing one.
unfoldable pub skip_slashes : List ℕ → List ℕ
skip_slashes [] = []
skip_slashes (ch ∷ file) = if ch == b'/' then skip_slashes file else ch ∷ file

unfoldable pub stat_filename : List ℕ → Option (List ℕ)
stat_filename file = strip_trailing_slash (b'/' ∷ skip_slashes file)
