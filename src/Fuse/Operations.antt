-- ===== src/Fuse/Operations.antt =====
-- `SetOpenFlags`, `s3fs_getattr`, `s3fs_open`, `s3fs_opendir` and `s3fs_access` of src/fuseif.c. `none` is the
-- end of the fuel of the loop over the directories.
use aws_s3fs.Common.{
  ℕ, ◌+◌, ◌/◌, Bool, true, false, not, ◌&&◌, ◌||◌, Option, none, some, List, [], ◌∷◌, bit_and,
  bit_or, ◌==◌, if◌then◌else◌,
}
use aws_s3fs.Fuse.Access.{S3FileInfo, System, honors, is_readable, is_executable, is_writeable}
use aws_s3fs.Fuse.Directories.{
  enoent, eacces, enotdir, eisdir, enfile, Status, success, failure, Stat, found, not_found,
  FileStat, directory_type, validate_directory_components,
}

-- The open flags that `s3fs_open` reads.
pub record OpenFlags : Type 0 where
  pub of_rdonly : Bool
  pub of_wronly : Bool
  pub of_rdwr : Bool
  pub of_append : Bool
  pub of_nofollow : Bool

-- `O_WRONLY`, `O_RDWR`, `O_APPEND` and `O_NOFOLLOW` of Linux on x86
abbrev has_flag : ℕ → ℕ → Bool
has_flag flags flag = not (bit_and flags flag == 0)

unfoldable pub set_open_flags : ℕ → OpenFlags
set_open_flags flags = record {
  of_rdonly = not (has_flag flags 1 || has_flag flags 2);
  of_wronly = has_flag flags 1;
  of_rdwr = has_flag flags 2;
  of_append = has_flag flags 1024;
  of_nofollow = has_flag flags 131072;
}

-- The permissions of the file itself, for the access that is asked for.
unfoldable pub check_file : System → OpenFlags → S3FileInfo → Status
check_file system flags fi =
    if flags.of_wronly && is_writeable system fi
    then success
    else (if flags.of_rdonly || (flags.of_rdwr || flags.of_append)
        then (if (flags.of_rdwr || flags.of_append) && not (is_writeable system fi)
            then failure eacces
            else (if is_readable system fi then success else failure eacces))
        else failure eacces)

unfoldable pub open_file : System → OpenFlags → S3FileInfo → Stat → Status
open_file system flags parent_fi (not_found e) = failure enoent
open_file system flags parent_fi (found fi) =
    if flags.of_nofollow && (fi.file_type == b'l')
    then failure eacces
    else (if flags.of_wronly || flags.of_rdwr
        then (if fi.file_type == directory_type
            then failure eisdir
            else (if not (is_executable system parent_fi)
                then failure eacces
                else check_file system flags fi))
        else check_file system flags fi)

unfoldable pub open_in_parent : System → OpenFlags → Stat → Stat → Status
open_in_parent system flags (not_found e) file = failure eacces
open_in_parent system flags (found parent_fi) file =
    if is_executable system parent_fi then open_file system flags parent_fi file else failure eacces

unfoldable pub then_status : Option Status → Option Status → Option Status
then_status none next = none
then_status (some success) next = next
then_status (some (failure e)) next = some (failure e)

-- `s3fs_open` up to the call of `S3Open`, whose result it returns on success.
unfoldable pub s3fs_open : (List ℕ → List ℕ) → FileStat → System → List ℕ → ℕ → Option Status
s3fs_open dirname stat system [] flags = some (failure enoent)
s3fs_open dirname stat system (ch ∷ path) flags =
    then_status (validate_directory_components dirname stat system false (ch ∷ path)) (
      some (
        open_in_parent system (set_open_flags flags) (stat (dirname (ch ∷ path)))
          (stat (ch ∷ path))))

unfoldable pub open_directory : System → Stat → Status
open_directory system (not_found e) = failure enfile
open_directory system (found fi) =
    if fi.file_type == directory_type
    then (if is_executable system fi then success else failure eacces)
    else failure enotdir

unfoldable pub s3fs_opendir : FileStat → System → List ℕ → Status
s3fs_opendir stat system dir = open_directory system (stat dir)

-- `R_OK`, `W_OK` and `X_OK`
unfoldable pub granted_mask : System → S3FileInfo → ℕ
granted_mask system fi =
    bit_or
      (bit_or (if is_readable system fi then 4 else 0) (if is_writeable system fi then 2 else 0))
      (if is_executable system fi then 1 else 0)

unfoldable pub access_file : System → ℕ → Stat → Status
access_file system mask (not_found e) = failure e
access_file system mask (found fi) =
    if mask == 0 || honors (granted_mask system fi) mask then success else failure eacces

unfoldable pub s3fs_access : (List ℕ → List ℕ) → FileStat → System → List ℕ → ℕ → Option Status
s3fs_access dirname stat system path mask =
    then_status (validate_directory_components dirname stat system true path)
      (some (access_file system mask (stat path)))

-- The fields of `struct stat` that are filled; the others are 0, `st_blksize` is 65536 and `st_nlink` is 1.
pub record FileAttributes : Type 0 where
  pub st_mode : ℕ
  pub st_uid : ℕ
  pub st_gid : ℕ
  pub st_size : ℕ
  pub st_blocks : ℕ
  pub st_atime : ℕ
  pub st_mtime : ℕ
  pub st_ctime : ℕ

unfoldable pub type_mode : ℕ → ℕ
type_mode file_type =
    if file_type == directory_type
    then 16384
    else (if file_type == b'f' then 32768 else (if file_type == b'l' then 40960 else 0))

unfoldable pub copy_file_info_to_file_stat : S3FileInfo → FileAttributes
copy_file_info_to_file_stat fi = record {
  st_mode =
      bit_or
        (bit_or (bit_or (type_mode fi.file_type) fi.permissions)
          (if fi.file_type == b'l' then 511 else 0))
        (bit_or (bit_or (if fi.exe_gid then 1024 else 0) (if fi.exe_uid then 2048 else 0))
          (if fi.sticky then 512 else 0));
  st_uid = fi.uid;
  st_gid = fi.gid;
  st_size = fi.size;
  st_blocks = (fi.size + 511) / 512;
  st_atime = fi.atime;
  st_mtime = fi.mtime;
  st_ctime = fi.ctime;
}

-- The status, and the attributes where they are filled in.
unfoldable pub attributes_of : Stat → Status × Option FileAttributes
attributes_of (not_found e) = (failure e, none)
attributes_of (found fi) = (success, some (copy_file_info_to_file_stat fi))

unfoldable pub getattr_after : Option Status → Stat → Option (Status × Option FileAttributes)
getattr_after none file = none
getattr_after (some success) file = some (attributes_of file)
getattr_after (some (failure e)) file = some (failure e, none)

unfoldable pub s3fs_getattr :
    (List ℕ → List ℕ) → FileStat → System → List ℕ → Option (Status × Option FileAttributes)
s3fs_getattr dirname stat system [] = some (failure enoent, none)
s3fs_getattr dirname stat system (ch ∷ path) =
    getattr_after (validate_directory_components dirname stat system true (ch ∷ path))
      (stat (ch ∷ path))
