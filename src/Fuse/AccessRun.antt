-- ===== src/Fuse/AccessRun.antt =====
-- Who `VerifyAccessPermission` of src/fuseif.c gives access.
use aws_s3fs.Common.{ℕ, ◌/◌, ◌≡◌, refl, Bool, true, false, not, ◌&&◌, ◌||◌, ◌==◌, if◌then◌else◌}
use aws_s3fs.Fuse.Access.{System, is_user_member_of_group, honors, verify_access_permission}

in_order :
    (owner group member others root : Bool)
    → (if owner then true else (if group then member else (if others then true else root)))
      ≡ (if group && not member then owner else (owner || ((group && member) || (others || root))))
in_order true true true others root = refl
in_order true true false others root = refl
in_order true false member others root = refl
in_order false true true others root = refl
in_order false true false others root = refl
in_order false false member true root = refl
in_order false false member false root = refl

module _ (system : System) (permissions file_uid file_gid mask : ℕ) where
  abbrev owner_allowed : Bool
  owner_allowed = system.getuid == file_uid && honors (permissions / 64) mask

  abbrev group_bits : Bool
  group_bits = honors (permissions / 8) mask

  -- `IsUserMemberOfGroup` is asked for the gid of the calling process in place of its uid.
  abbrev member : Bool
  member = is_user_member_of_group system file_gid system.getgid

  abbrev others_allowed : Bool
  others_allowed = honors permissions mask && not (system.getuid == file_uid)

  abbrev is_root : Bool
  is_root = system.getuid == 0 || system.getgid == 0

  abbrev intended : Bool
  intended = owner_allowed || ((group_bits && member) || (others_allowed || is_root))

  -- Where the group's permissions match and `member` is false, only the owner's permissions count; everywhere else
  -- those of the owner, the group, the others but the owner, and root do.
  verify_access_permission-intended :
      verify_access_permission system permissions file_uid file_gid mask
      ≡ (if group_bits && not member then owner_allowed else intended)
  unfolding verify_access_permission
  verify_access_permission-intended =
      in_order owner_allowed group_bits member others_allowed is_root
