-- ===== src/CacheDb/History.antt =====
-- The statements that change the database of src/filecachedb.c, and what holds after any sequence of them.
use aws_s3fs.Common.{ℕ, Bool, List, [], ◌∷◌}
use aws_s3fs.CacheDb.Tables.{Database}
use aws_s3fs.CacheDb.Files.{
  NewFile, NewParent, query_create_local_file, query_create_local_dir, query_increment_or_decrement,
  query_mark_file_as_cached,
}
use aws_s3fs.CacheDb.Transfers.{
  query_add_user, query_add_download, query_add_upload, query_delete_transfer,
  query_delete_upload_transfer, query_set_upload_id,
}
use aws_s3fs.CacheDb.Uploads.{query_create_multiparts, query_set_part_etag}

-- A call of each query that changes a table, with its parameters.
pub data Statement : Type 0 where
  create_local_file : NewFile → Statement
  create_local_dir : NewParent → Statement
  increment_or_decrement : (file_id : ℕ) → Bool → Statement
  mark_file_as_cached : (file_id : ℕ) → Statement
  add_user : (uid : ℕ) → (key_id secret_key : List ℕ) → Statement
  add_download : (file_id owner : ℕ) → Statement
  add_upload : (file_id owner filesize : ℕ) → Statement
  delete_transfer : (file_id : ℕ) → Statement
  delete_upload_transfer : (file_id : ℕ) → Statement
  set_upload_id : (file_id : ℕ) → List ℕ → Statement
  create_multiparts : (file_id parts : ℕ) → Statement
  set_part_etag : (file_id part : ℕ) → List ℕ → Statement

unfoldable pub execute : Statement → Database → Database
execute (create_local_file new) db = (query_create_local_file new db).1
execute (create_local_dir new) db = (query_create_local_dir new db).1
execute (increment_or_decrement file_id up) db = (query_increment_or_decrement file_id up db).1
execute (mark_file_as_cached file_id) db = query_mark_file_as_cached file_id db
execute (add_user uid key_id secret_key) db = (query_add_user uid key_id secret_key db).1
execute (add_download file_id owner) db = (query_add_download file_id owner db).1
execute (add_upload file_id owner filesize) db = (query_add_upload file_id owner filesize db).1
execute (delete_transfer file_id) db = (query_delete_transfer file_id db).1
execute (delete_upload_transfer file_id) db = (query_delete_upload_transfer file_id db).1
execute (set_upload_id file_id upload_id) db = query_set_upload_id file_id upload_id db
execute (create_multiparts file_id parts) db = query_create_multiparts file_id parts db
execute (set_part_etag file_id part etag) db = query_set_part_etag file_id part etag db

-- The database after a sequence of statements, the first one first.
unfoldable pub execute_all : List Statement → Database → Database
execute_all [] db = db
execute_all (statement ∷ statements) db = execute_all statements (execute statement db)

abbrev pub new_database : Database
new_database = record { parents = []; files = []; users = []; transfers = []; transferparts = [] }
