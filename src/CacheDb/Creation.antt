-- ===== src/CacheDb/Creation.antt =====
-- `Query_CreateLocalFile` and `FindFile` of src/filecachedb.c together.
use aws_s3fs.Common.{ℕ, Bool, false, Option, none, some, if◌then◌else◌}
use aws_s3fs.CacheDb.Tables.{pos, CachedFile}
use aws_s3fs.CacheDb.Files.{NewFile}

-- The row that is wanted for a new file with an id.
abbrev pub wanted : NewFile → ℕ → CachedFile
wanted new id = record {
  id = id;
  bucket = new.bucket;
  remotename = new.path;
  localname = new.localfile;
  filesize = none;
  subscriptions = pos 1;
  parent = new.parent_id;
  uid = new.uid;
  gid = new.gid;
  permissions = new.permissions;
  mtime = new.mtime;
  iscached = false;
}

unfoldable pub changed :
    (CachedFile → Bool) → (CachedFile → CachedFile) → Option CachedFile → Option CachedFile
changed p f none = none
changed p f (some row) = some (if p row then f row else row)
