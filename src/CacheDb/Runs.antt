-- ===== src/CacheDb/Runs.antt =====
-- Runs of the queries on a small database.
use aws_s3fs.Common.{
  ℕ, ◌≡◌, ◌≢◌, ◌⊎◌, refl, sym, true, false, Option, none, some, List, [], ◌∷◌, inl,
}
use mathlib.Core.Option.{none-ne-some, some-injective}
use aws_s3fs.Base64.Encode.{codes}
use aws_s3fs.CacheDb.Rows.{
  exists_row, rows_where, or_else, last_where, next_rowid, pairs_with, join_on,
}
use aws_s3fs.CacheDb.Joins.{In, IsLimit}
use aws_s3fs.CacheDb.Tables.{CachedFile, Database, IsConsistent}
use aws_s3fs.CacheDb.Files.{
  NewFile, NewParent, find_file, find_parent, new_file_row, insert_file, create_file_if,
  query_create_local_file, create_dir_if, query_create_local_dir,
}
use aws_s3fs.CacheDb.Transfers.{
  new_transfer, insert_transfer, query_add_user, query_add_upload, query_delete_upload_transfer,
}
use aws_s3fs.CacheDb.Uploads.{
  create_part, query_create_multiparts, transfer_parts, query_all_parts_uploaded,
  query_find_pending_upload, Upload, upload_of, size_of, query_get_upload,
}
use aws_s3fs.CacheDb.History.{
  Statement, create_local_file, create_local_dir, add_user, add_upload, create_multiparts, execute,
  execute_all, new_database,
}
use aws_s3fs.CacheDb.Consistent.{execute_all-IsConsistent, new_database-IsConsistent}
use aws_s3fs.CacheDb.Creation.{wanted}
use aws_s3fs.CacheDb.Pending.{PendingFor, find_pending_upload_lem, delete_upload_transfer-gone}
use aws_s3fs.CacheDb.NeverStarted.{part_of_upload, all_parts_uploaded-never, get_upload-no_size}

abbrev directory : NewParent
directory = record {
  path = codes "/dir";
  uid = 1000;
  gid = 100;
  permissions = 493;
  localdir = codes "dIr3ct";
}

abbrev report : NewFile
report = record {
  bucket = codes "bucket";
  path = codes "/dir/report";
  uid = 1000;
  gid = 100;
  permissions = 420;
  mtime = 0;
  parent_id = 1;
  localfile = codes "aB3dE9";
}

abbrev history : List Statement
history =
    create_local_dir directory
    ∷ create_local_file report
    ∷ add_user 1000 (codes "key") (codes "secret")
    ∷ add_upload 1 1000 52428800
    ∷ create_multiparts 1 2
    ∷ []

-- `LIMIT 1` that leaves the first row.
abbrev first_of {ℓ} : {A : Type ℓ} → List A → Option A
first_of [] = none
first_of (row ∷ rows) = some row

first_of-IsLimit : {A : Type 0} → IsLimit (first_of {A = A})
first_of-IsLimit {A} = record { member = first_member; nothing = first_nothing }
  where
    first_member : (rows : List A) (row : A) → first_of rows ≡ some row → In row rows
    first_member [] row h = absurd (none-ne-some row h)
    first_member (x ∷ rows) row h = inl (sym (some-injective x row h))

    first_nothing : (rows : List A) → first_of rows ≡ none → rows ≡ []
    first_nothing [] h = refl
    first_nothing (x ∷ rows) h = absurd (none-ne-some x (sym h))

execute_all-IsConsistent_example : IsConsistent (execute_all history new_database)
execute_all-IsConsistent_example =
    execute_all-IsConsistent history new_database new_database-IsConsistent

-- The database with the directory, before the file is created.
abbrev with_directory : Database
with_directory = execute (create_local_dir directory) new_database

abbrev with_report : Database
with_report = (query_create_local_file report with_directory).1

abbrev report_row : CachedFile
report_row = wanted report (query_create_local_file report with_directory).0.id

find_pending_upload_lem_example :
    PendingFor
      (execute_all history new_database)
      (query_find_pending_upload first_of (execute_all history new_database))
    ⊎ ((query_find_pending_upload first_of (execute_all history new_database) ≡ 0)
        × ((file_id : ℕ) → ¬ PendingFor (execute_all history new_database) file_id))
find_pending_upload_lem_example =
    find_pending_upload_lem first_of first_of-IsLimit (execute_all history new_database)

delete_upload_transfer-gone_example :
    (¬ PendingFor (query_delete_upload_transfer 1 (execute_all history new_database)).1 1)
    × ((◌≡◌ {A = ℕ} 1 0)
        ⊎ (query_find_pending_upload first_of
              (query_delete_upload_transfer 1 (execute_all history new_database)).1
            ≢ 1))
delete_upload_transfer-gone_example =
    delete_upload_transfer-gone first_of first_of-IsLimit 1 (execute_all history new_database)

parts_there :
    exists_row (part_of_upload 1) (transfer_parts (execute_all history new_database)) ≡ true
unfolding execute execute_all query_create_local_dir create_dir_if find_parent last_where or_else
    exists_row next_rowid query_create_local_file create_file_if insert_file new_file_row find_file
    query_add_user query_add_upload new_transfer insert_transfer query_create_multiparts create_part
    join_on pairs_with
parts_there = refl

all_parts_uploaded-never_example :
    query_all_parts_uploaded 1 (execute_all history new_database) ≡ false
all_parts_uploaded-never_example = all_parts_uploaded-never history 1 parts_there

abbrev expected : Upload
expected = record {
  part = 2;
  bucket = codes "bucket";
  remote_path = codes "/dir/report";
  upload_id = none;
  uid = 1000;
  gid = 100;
  permissions = 420;
  filesize = 0;
  local_path = codes "dIr3ct/aB3dE9";
  key_id = codes "key";
  secret_key = codes "secret";
}

upload_there : query_get_upload first_of 1 (execute_all history new_database) ≡ some expected
unfolding execute execute_all query_create_local_dir create_dir_if find_parent last_where or_else
    exists_row next_rowid query_create_local_file create_file_if insert_file new_file_row find_file
    query_add_user query_add_upload new_transfer insert_transfer query_create_multiparts create_part
    join_on pairs_with rows_where query_get_upload upload_of size_of
upload_there = refl

get_upload-no_size_example : expected.filesize ≡ 0
get_upload-no_size_example =
    get_upload-no_size first_of first_of-IsLimit history 1 expected upload_there
