-- ===== src/CacheDb/Files.antt =====
-- The queries of src/filecachedb.c on the tables `parents` and `files`. The statements are taken to be prepared
-- and bound without an error of SQLite; the constraints can refuse an insertion.
use aws_s3fs.Common.{
  ℕ, Bool, true, false, not, ◌&&◌, Option, none, some, List, ◌∷◌, ◌++◌, ◌==◌, if◌then◌else◌,
}
use aws_s3fs.Base64.Encode.{codes}
use aws_s3fs.StatCache.Table.{same_key}
use aws_s3fs.CacheDb.Rows.{exists_row, count_where, update_where, last_where, next_rowid, join_on}
use aws_s3fs.CacheDb.Tables.{
  pos, suc_ℤ, pred_ℤ, Parent, CachedFile, Database, has_parent, files_clash,
}

abbrev pub file_named : List ℕ → CachedFile → Bool
file_named path row = same_key row.remotename path

abbrev pub file_with_id : ℕ → CachedFile → Bool
file_with_id file_id row = row.id == file_id

abbrev pub parent_named : List ℕ → Parent → Bool
parent_named path row = same_key row.remotename path

-- The row, or `none` for the result 0.
unfoldable pub find_file : List ℕ → Database → Option CachedFile
find_file path db = last_where (file_named path) db.files

unfoldable pub find_parent : List ℕ → Database → Option Parent
find_parent path db = last_where (parent_named path) db.parents

-- A row of `parents` with a file in it.
abbrev pub in_parent : Parent → CachedFile → Bool
in_parent parent file = file.parent == parent.id

unfoldable pub path_of : Option (Parent × CachedFile) → Option (List ℕ)
path_of none = none
path_of (some (parent, file)) = some (parent.localname ++ (codes "/" ++ file.localname))

unfoldable pub query_get_local_path : List ℕ → Database → Option (List ℕ)
query_get_local_path remotename db = path_of (
    last_where (λ (row : Parent × CachedFile). file_named remotename row.1)
      (join_on in_parent db.parents db.files))

unfoldable pub query_increment_or_decrement : ℕ → Bool → Database → Bool × Database
query_increment_or_decrement file_id increment db =
    let change = λ (row : CachedFile). record row {
      subscriptions = if increment then suc_ℤ row.subscriptions else pred_ℤ row.subscriptions;
    } in
    (
      count_where (file_with_id file_id) db.files == 1,
      record db { files = update_where (file_with_id file_id) change db.files },
    )

unfoldable pub query_increment_subscription_count : ℕ → Database → Bool × Database
query_increment_subscription_count file_id db = query_increment_or_decrement file_id true db

unfoldable pub query_decrement_subscription_count : ℕ → Database → Bool × Database
query_decrement_subscription_count file_id db = query_increment_or_decrement file_id false db

-- The parameters of `Query_CreateLocalFile`.
pub record NewFile : Type 0 where
  pub bucket : List ℕ
  pub path : List ℕ
  pub uid : ℕ
  pub gid : ℕ
  pub permissions : ℕ
  pub mtime : ℕ
  pub parent_id : ℕ
  pub localfile : List ℕ

-- What is returned: the id, the name in `localfile`, and what `alreadyExists` is set to; `none` leaves it.
pub record Created : Type 0 where
  pub id : ℕ
  pub local : List ℕ
  pub already_exists : Option Bool

unfoldable pub new_file_row : NewFile → Database → CachedFile
new_file_row new db = record {
  id = next_rowid (λ (row : CachedFile). row.id) db.files;
  bucket = new.bucket;
  remotename = new.path;
  localname = new.localfile;
  filesize = none;
  subscriptions = pos 1;
  parent = new.parent_id;
  uid = new.uid;
  gid = new.gid;
  permissions = new.permissions;
  mtime = new.mtime;
  iscached = false;
}

-- The insertion, if the constraints allow it.
unfoldable pub insert_file : NewFile → Database → Created × Database
insert_file new db =
    let row = new_file_row new db in
    if has_parent db.parents new.parent_id && not (exists_row (files_clash row) db.files)
    then (
      record { id = row.id; local = new.localfile; already_exists = none },
      record db { files = row ∷ db.files },
    )
    else (record { id = 0; local = new.localfile; already_exists = none }, db)

unfoldable pub create_file_if : NewFile → Database → Option CachedFile → Created × Database
create_file_if new db none = insert_file new db
create_file_if new db (some row) = (
  record { id = row.id; local = row.localname; already_exists = some true },
  (query_increment_subscription_count row.id db).1,
)

unfoldable pub query_create_local_file : NewFile → Database → Created × Database
query_create_local_file new db = create_file_if new db (find_file new.path db)

-- The parameters of `Query_CreateLocalDir`.
pub record NewParent : Type 0 where
  pub path : List ℕ
  pub uid : ℕ
  pub gid : ℕ
  pub permissions : ℕ
  pub localdir : List ℕ

unfoldable pub create_dir_if : NewParent → Database → Option Parent → Created × Database
create_dir_if new db none =
    let id : ℕ = next_rowid (λ (row : Parent). row.id) db.parents in
    let row : Parent = record {
      id = id;
      remotename = new.path;
      localname = new.localdir;
      uid = new.uid;
      gid = new.gid;
      permissions = new.permissions;
    } in
    (
      record { id = id; local = new.localdir; already_exists = some false },
      record db { parents = row ∷ db.parents },
    )
create_dir_if new db (some row) =
    (record { id = row.id; local = row.localname; already_exists = some true }, db)

unfoldable pub query_create_local_dir : NewParent → Database → Created × Database
query_create_local_dir new db = create_dir_if new db (find_parent new.path db)

-- The parent and the file of a row, whose names, owners and permissions are returned.
unfoldable pub query_get_owners : ℕ → Database → Option (Parent × CachedFile)
query_get_owners file_id db =
    last_where (λ (row : Parent × CachedFile). file_with_id file_id row.1)
      (join_on in_parent db.parents db.files)

unfoldable pub query_mark_file_as_cached : ℕ → Database → Database
query_mark_file_as_cached file_id db = record db {
  files =
      update_where (file_with_id file_id) (λ (row : CachedFile). record row { iscached = true })
        db.files;
}

unfoldable pub cached_flag : Option CachedFile → Option Bool
cached_flag none = none
cached_flag (some row) = some row.iscached

-- `none` if there is no such file: then the result is not initialised.
unfoldable pub query_is_file_cached : ℕ → Database → Option Bool
query_is_file_cached file_id db = cached_flag (last_where (file_with_id file_id) db.files)
