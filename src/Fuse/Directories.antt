-- ===== src/Fuse/Directories.antt =====
-- `GetNextPathComponent` and `ValidateDirectoryComponents` of src/fuseif.c.
use aws_s3fs.Common.{
  ℕ, zero, suc, ◌-◌, ◌+◌, Bool, false, not, ◌&&◌, Option, none, some, List, [], ◌∷◌, ◌++◌, length,
  take, drop, ltb, ◌==◌, if◌then◌else◌,
}
use aws_s3fs.Base64.Encode.{codes}
use aws_s3fs.Fuse.Access.{S3FileInfo, System, is_executable}

-- What an operation returns: 0, or the negative of an error number.
pub data Errno : Type 0 where
  enoent eacces enotdir eisdir enfile : Errno
  other_errno : ℕ → Errno

pub data Status : Type 0 where
  success : Status
  failure : Errno → Status

-- The result of `S3FileStat`.
pub data Stat : Type 0 where
  found : S3FileInfo → Stat
  not_found : Errno → Stat

-- How far the scan goes: it ends at a slash behind a backslash.
unfoldable pub scan_component : Bool → List ℕ → ℕ
scan_component escaped [] = 0
scan_component escaped (ch ∷ path) =
    let rest = scan_component (ch == b'\\' && not escaped) path in
    if ch == b'/' && escaped then 0 else suc rest

unfoldable pub skip_slashes_from : List ℕ → List ℕ
skip_slashes_from [] = []
skip_slashes_from (ch ∷ path) = if ch == b'/' then skip_slashes_from path else ch ∷ path

-- The component, or `none` for a length of 0 or less, and the path from the returned position on.
unfoldable pub get_next_path_component : List ℕ → Option (List ℕ) × List ℕ
get_next_path_component path =
    let end_pos = scan_component false path in
    let component_length = if end_pos == length path then end_pos - 1 else end_pos in
    if ltb 0 component_length
    then (some (take component_length path), skip_slashes_from (drop end_pos path))
    else (none, path)

-- `S3FileStat` of a path; it is another component, and a parameter here.
abbrev pub FileStat : Type 0
FileStat = List ℕ → Stat

abbrev pub directory_type : ℕ
directory_type = b'd'

-- What the loop makes of one component's information; `none` goes on.
unfoldable pub examine_component : System → Bool → Stat → Option Errno
examine_component system verify_execution_bit (not_found e) = some enoent
examine_component system verify_execution_bit (found file_info) =
    if not (file_info.file_type == directory_type)
    then some enotdir
    else (if verify_execution_bit && not (is_executable system file_info)
        then some eacces
        else none)

unfoldable pub go_on : Option Errno → Option Status → Option Status
go_on none rest = rest
go_on (some e) rest = some (failure e)

-- A round of the loop, with the rest of the loop from an accumulated path and what is left of the prefix.
unfoldable pub validate_component :
    FileStat
    → System
    → Bool
    → (List ℕ → List ℕ → Option Status)
    → List ℕ
    → Option (List ℕ) × List ℕ
    → Option Status
validate_component stat system verify rest accumulated (none, path) = some success
validate_component stat system verify rest accumulated (some component, path) =
    go_on (examine_component system verify (stat (accumulated ++ component)))
      (rest (accumulated ++ (component ++ codes "/")) path)

-- The loop; `none` is the end of the fuel.
unfoldable pub validate_loop : ℕ → FileStat → System → Bool → List ℕ → List ℕ → Option Status
validate_loop zero stat system verify accumulated path = none
validate_loop (suc fuel) stat system verify accumulated path =
    validate_component stat system verify (validate_loop fuel stat system verify) accumulated
      (get_next_path_component path)

-- `g_path_get_dirname` is GLib's, and a parameter.
unfoldable pub validate_directory_components :
    (List ℕ → List ℕ) → FileStat → System → Bool → List ℕ → Option Status
validate_directory_components dirname stat system verify path =
    validate_loop (length (dirname path) + 1) stat system verify [] (dirname path)
