-- ===== src/Fuse/Access.antt =====
-- `IsUserMemberOfGroup`, `VerifyAccessPermission` and the functions that call it in src/fuseif.c.
use aws_s3fs.Common.{
  ℕ, ◌/◌, Bool, true, false, not, ◌&&◌, ◌||◌, Option, none, some, List, [], ◌∷◌, bit_and, ◌==◌,
  if◌then◌else◌,
}
use aws_s3fs.StatCache.Table.{same_key}

-- `struct S3FileInfo`, without the flags that no permission depends on.
pub record S3FileInfo : Type 0 where
  pub uid : ℕ
  pub gid : ℕ
  pub permissions : ℕ
  pub file_type : ℕ
  pub exe_uid : Bool
  pub exe_gid : Bool
  pub sticky : Bool
  pub size : ℕ
  pub atime : ℕ
  pub mtime : ℕ
  pub ctime : ℕ

-- An entry of the password database.
pub record Passwd : Type 0 where
  pub pw_name : List ℕ
  pub pw_gid : ℕ

-- The calling process and the system's databases: `getuid`, `getgid`, `getpwuid_r`, and the members of
-- `getgrgid_r`.
pub record System : Type 0 where
  pub getuid : ℕ
  pub getgid : ℕ
  pub getpwuid : ℕ → Option Passwd
  pub getgrgid : ℕ → Option (List (List ℕ))

unfoldable pub is_member : List ℕ → List (List ℕ) → Bool
is_member name [] = false
is_member name (membername ∷ members) = same_key membername name || is_member name members

unfoldable pub is_in_group : List ℕ → Option (List (List ℕ)) → Bool
is_in_group name none = false
is_in_group name (some members) = is_member name members

unfoldable pub is_passwd_in_group : System → ℕ → Option Passwd → Bool
is_passwd_in_group system gid none = false
is_passwd_in_group system gid (some pwd) =
    if pwd.pw_gid == gid then true else is_in_group pwd.pw_name (system.getgrgid gid)

-- The block that is freed without having been allocated is not modelled.
unfoldable pub is_user_member_of_group : System → ℕ → ℕ → Bool
is_user_member_of_group system gid my_uid = is_passwd_in_group system gid (system.getpwuid my_uid)

-- `( bits & mask ) == mask`
abbrev pub honors : ℕ → ℕ → Bool
honors bits mask = bit_and bits mask == mask

unfoldable pub verify_access_permission : System → ℕ → ℕ → ℕ → ℕ → Bool
verify_access_permission system permissions file_uid file_gid mask =
    if system.getuid == file_uid && honors (permissions / 64) mask
    then true
    else (if honors (permissions / 8) mask
        then is_user_member_of_group system file_gid system.getgid
        else (if honors permissions mask && not (system.getuid == file_uid)
            then true
            else system.getuid == 0 || system.getgid == 0))

unfoldable pub is_readable : System → S3FileInfo → Bool
is_readable system fi = verify_access_permission system fi.permissions fi.uid fi.gid 4

unfoldable pub is_executable : System → S3FileInfo → Bool
is_executable system fi = verify_access_permission system fi.permissions fi.uid fi.gid 1

unfoldable pub is_writeable : System → S3FileInfo → Bool
is_writeable system fi = verify_access_permission system fi.permissions fi.uid fi.gid 2
