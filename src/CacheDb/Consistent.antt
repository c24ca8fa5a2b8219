-- ===== src/CacheDb/Consistent.antt =====
-- Every statement of src/filecachedb.c keeps the constraints of the tables.
use aws_s3fs.Common.{none, some, List, [], ◌∷◌}
use aws_s3fs.CacheDb.Tables.{Direction, Database, IsConsistent}
use aws_s3fs.CacheDb.Files.{find_file, find_parent, query_create_local_file, query_create_local_dir}
use aws_s3fs.CacheDb.Transfers.{
  new_transfer, query_add_download, query_add_upload, query_delete_transfer,
  query_delete_upload_transfer,
}
use aws_s3fs.CacheDb.History.{
  Statement, create_local_file, create_local_dir, increment_or_decrement, mark_file_as_cached,
  add_user, add_download, add_upload, delete_transfer, delete_upload_transfer, set_upload_id,
  create_multiparts, set_part_etag, execute, execute_all, new_database,
}
use aws_s3fs.CacheDb.ConsistentFiles.{
  change_count-IsConsistent, create_file_if-IsConsistent, create_dir_if-IsConsistent,
  mark_cached-IsConsistent, add_user-IsConsistent,
}
use aws_s3fs.CacheDb.ConsistentTransfers.{
  insert_transfer-IsConsistent, set_upload_id-IsConsistent, create_multiparts-IsConsistent,
  set_part_etag-IsConsistent, delete_transfers-IsConsistent,
}

execute-IsConsistent :
    (statement : Statement) (db : Database) → IsConsistent db → IsConsistent (execute statement db)
unfolding execute query_create_local_file query_create_local_dir query_add_download query_add_upload
    query_delete_transfer query_delete_upload_transfer
execute-IsConsistent (create_local_file new) db c =
    create_file_if-IsConsistent new db (find_file new.path db) c
execute-IsConsistent (create_local_dir new) db c =
    create_dir_if-IsConsistent new db (find_parent new.path db) c
execute-IsConsistent (increment_or_decrement file_id up) db c =
    change_count-IsConsistent file_id up db c
execute-IsConsistent (mark_file_as_cached file_id) db c = mark_cached-IsConsistent file_id db c
execute-IsConsistent (add_user uid key_id secret_key) db c =
    add_user-IsConsistent uid key_id secret_key db c
execute-IsConsistent (add_download file_id owner) db c =
    insert_transfer-IsConsistent (new_transfer file_id owner none Direction.download db) db c
execute-IsConsistent (add_upload file_id owner filesize) db c =
    insert_transfer-IsConsistent (new_transfer file_id owner (some filesize) Direction.upload db) db
      c
execute-IsConsistent (delete_transfer file_id) db c = delete_transfers-IsConsistent file_id db c
execute-IsConsistent (delete_upload_transfer file_id) db c =
    delete_transfers-IsConsistent file_id db c
execute-IsConsistent (set_upload_id file_id upload_id) db c =
    set_upload_id-IsConsistent file_id upload_id db c
execute-IsConsistent (create_multiparts file_id parts) db c =
    create_multiparts-IsConsistent file_id parts db c
execute-IsConsistent (set_part_etag file_id part etag) db c =
    set_part_etag-IsConsistent file_id part etag db c

-- Whatever statements are executed, in whatever order and with whatever parameters, a database that satisfies the
-- constraints still does: no two rows of a table share a primary key, no two files a remote name, no two users a
-- uid and no two transfers a file; each file has its parent, each transfer its file and its owner, and each part its
-- transfer and a number from 1 to 10000.
pub execute_all-IsConsistent :
    (statements : List Statement) (db : Database)
    → IsConsistent db
    → IsConsistent (execute_all statements db)
unfolding execute_all
execute_all-IsConsistent [] db c = c
execute_all-IsConsistent (statement ∷ statements) db c =
    execute_all-IsConsistent statements (execute statement db) (execute-IsConsistent statement db c)

pub new_database-IsConsistent : IsConsistent new_database
new_database-IsConsistent = record {
  parent_keys = tt;
  file_keys = tt;
  user_keys = tt;
  transfer_keys = tt;
  part_keys = tt;
  file_parents = tt;
  transfer_files = tt;
  transfer_owners = tt;
  part_transfers = tt;
  part_numbers = tt;
}
