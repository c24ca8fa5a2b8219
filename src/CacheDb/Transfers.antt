-- ===== src/CacheDb/Transfers.antt =====
-- The queries of src/filecachedb.c on the tables `users` and `transfers`.
use aws_s3fs.Common.{
  ℕ, Bool, true, false, not, ◌&&◌, Option, none, some, List, ◌∷◌, ◌==◌, if◌then◌else◌,
}
use aws_s3fs.CacheDb.Rows.{
  exists_row, count_where, update_where, remove_where, last_where, next_rowid, join_on,
}
use aws_s3fs.CacheDb.Tables.{
  CachedFile, User, Direction, upload, download, Transfer, TransferPart, Database, has_file,
  has_user, transfers_clash,
}

-- The result is not initialised where the insertion succeeds: `none`.
unfoldable pub query_add_user : ℕ → List ℕ → List ℕ → Database → Option Bool × Database
query_add_user uid key_id secret_key db = if has_user db.users uid then (some false, db) else (
  none,
  record db { users = record { uid = uid; keyid = key_id; secretkey = secret_key } ∷ db.users },
)

unfoldable pub new_transfer : ℕ → ℕ → Option ℕ → Direction → Database → Transfer
new_transfer file_id owner filesize direction db = record {
  id = next_rowid (λ (row : Transfer). row.id) db.transfers;
  owner = owner;
  file = file_id;
  filesize = filesize;
  direction = direction;
  uploadid = none;
}

-- The insertion, if the constraints allow it.
unfoldable pub insert_transfer : Transfer → Database → Bool × Database
insert_transfer row db =
    if (has_file db.files row.file && has_user db.users row.owner)
      && not (exists_row (transfers_clash row) db.transfers)
    then (true, record db { transfers = row ∷ db.transfers })
    else (false, db)

-- An `INSERT` returns no row, so that the result stays `false`.
unfoldable pub query_add_download : ℕ → ℕ → Database → Bool × Database
query_add_download file_id owner db =
    (false, (insert_transfer (new_transfer file_id owner none download db) db).1)

unfoldable pub query_add_upload : ℕ → ℕ → ℕ → Database → Bool × Database
query_add_upload file_id owner filesize db =
    insert_transfer (new_transfer file_id owner (some filesize) upload db) db

abbrev pub transfer_of_file : ℕ → Transfer → Bool
transfer_of_file file_id row = row.file == file_id

-- The parts whose transfer is deleted.
abbrev pub part_of_file : ℕ → List Transfer → TransferPart → Bool
part_of_file file_id transfers part =
    exists_row (λ (row : Transfer). row.file == file_id && row.id == part.transfer) transfers

-- `DELETE FROM transfers WHERE file = ?`, which also deletes the parts.
unfoldable pub delete_transfers : ℕ → Database → Database
delete_transfers file_id db = record db {
  transfers = remove_where (transfer_of_file file_id) db.transfers;
  transferparts = remove_where (part_of_file file_id db.transfers) db.transferparts;
}

unfoldable pub query_delete_transfer : ℕ → Database → Bool × Database
query_delete_transfer file_id db =
    (count_where (transfer_of_file file_id) db.transfers == 1, delete_transfers file_id db)

unfoldable pub query_delete_upload_transfer : ℕ → Database → Bool × Database
query_delete_upload_transfer file_id db = (true, delete_transfers file_id db)

-- What a download needs. The foreign keys leave no `NULL` in the rows of its `LEFT JOIN`s.
pub record Download : Type 0 where
  pub bucket : List ℕ
  pub remote_path : List ℕ
  pub local_path : List ℕ
  pub key_id : List ℕ
  pub secret_key : List ℕ

unfoldable pub download_of : Option ((Transfer × CachedFile) × User) → Option Download
download_of none = none
download_of (some ((transfer, file), user)) = some (record {
  bucket = file.bucket;
  remote_path = file.remotename;
  local_path = file.localname;
  key_id = user.keyid;
  secret_key = user.secretkey;
})

abbrev pub of_file : Transfer → CachedFile → Bool
of_file transfer file = transfer.file == file.id

abbrev pub owned_by : Transfer × CachedFile → User → Bool
owned_by row user = row.0.owner == user.uid

unfoldable pub query_get_download : ℕ → Database → Option Download
query_get_download file_id db = download_of (
    last_where (λ (row : (Transfer × CachedFile) × User). row.0.1.id == file_id)
      (join_on owned_by (join_on of_file db.transfers db.files) db.users))

unfoldable pub query_set_upload_id : ℕ → List ℕ → Database → Database
query_set_upload_id file_id upload_id db = record db {
  transfers =
      update_where (transfer_of_file file_id)
        (λ (row : Transfer). record row { uploadid = some upload_id }) db.transfers;
}
