-- ===== src/Fuse/Runs.antt =====
-- Runs of the permission checks.
use aws_s3fs.Common.{ℕ, ◌≡◌, refl, arith, true, false, some, List, [], if◌then◌else◌}
use aws_s3fs.Base64.Encode.{codes}
use aws_s3fs.StatCache.Table.{same_key}
use aws_s3fs.Fuse.Access.{S3FileInfo, System, verify_access_permission, is_executable, is_writeable}
use aws_s3fs.Fuse.Directories.{
  Status, enoent, success, failure, found, not_found, FileStat, scan_component,
  get_next_path_component, validate_component, validate_loop, validate_directory_components,
}
use aws_s3fs.Fuse.Operations.{
  set_open_flags, check_file, open_file, open_in_parent, then_status, s3fs_open,
}
use aws_s3fs.Fuse.OpenRun.{Opened, s3fs_open-IsPermitted}
use aws_s3fs.Fuse.DirectoriesRun.{
  validate_directory_components-total, validate_directory_components-cut,
}

-- A user who owns the files.
abbrev user : System
user = record {
  getuid = 1000;
  getgid = 100;
  getpwuid = λ uid. some (record { pw_name = codes "user"; pw_gid = 100 });
  getgrgid = λ gid. some [];
}

abbrev info : ℕ → ℕ → S3FileInfo
info file_type permissions = record {
  uid = 1000;
  gid = 100;
  permissions = permissions;
  file_type = file_type;
  exe_uid = false;
  exe_gid = false;
  sticky = false;
  size = 5;
  atime = 0;
  mtime = 0;
  ctime = 0;
}

-- A directory `/` with permissions 0755 that has one file with 0644.
abbrev stat : FileStat
stat path =
    if same_key path (codes "/")
    then found (info b'd' 493)
    else (if same_key path (codes "/f") then found (info b'f' 420) else not_found enoent)

abbrev root_directory : List ℕ → List ℕ
root_directory path = codes "/"

it_opens : s3fs_open root_directory stat user (codes "/f") 1 ≡ some success
unfolding s3fs_open validate_directory_components validate_loop validate_component
    get_next_path_component scan_component then_status open_in_parent open_file check_file
    set_open_flags is_executable is_writeable verify_access_permission
it_opens = refl

s3fs_open-IsPermitted_example :
    Opened user (set_open_flags 1) (stat (root_directory (codes "/f"))) (stat (codes "/f"))
s3fs_open-IsPermitted_example =
    s3fs_open-IsPermitted root_directory stat user (codes "/f") 1 it_opens

validate_directory_components-total_example :
    (status : Status) × (validate_directory_components root_directory stat user true (codes "/f")
      ≡ some status)
validate_directory_components-total_example =
    validate_directory_components-total root_directory stat user true (codes "/f")

abbrev directory : List ℕ → List ℕ
directory path = codes "/dir"

validate_directory_components-cut_example :
    validate_directory_components directory stat user true (codes "/dir/f") ≡ some (failure enoent)
validate_directory_components-cut_example =
    validate_directory_components-cut directory stat user true (codes "/dir/f") (omega arith)
      (refl, (refl, (refl, (refl, tt))))
