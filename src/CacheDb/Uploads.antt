-- ===== src/CacheDb/Uploads.antt =====
-- The queries of src/filecachedb.c on the table `transferparts`.
use aws_s3fs.Common.{
  ℕ, zero, suc, ◌+◌, Bool, false, not, ◌&&◌, Option, none, some, List, ◌∷◌, ◌++◌, length, leb, ◌==◌,
  if◌then◌else◌,
}
use aws_s3fs.Base64.Encode.{codes}
use aws_s3fs.CacheDb.Rows.{
  exists_row, rows_where, count_where, update_where, last_where, next_rowid, join_on,
}
use aws_s3fs.CacheDb.Tables.{Parent, CachedFile, User, is_upload, Transfer, TransferPart, Database}
use aws_s3fs.CacheDb.Files.{in_parent}
use aws_s3fs.CacheDb.Transfers.{of_file}

abbrev pub upload_of_file : ℕ → Transfer → Bool
upload_of_file file_id row = is_upload row.direction && row.file == file_id

-- The insertion of one part, if there is a transfer for it and its number is valid.
unfoldable pub create_part : ℕ → Option Transfer → Database → Database
create_part part none db = db
create_part part (some transfer) db =
    let row : TransferPart = record {
      id = next_rowid (λ (row : TransferPart). row.id) db.transferparts;
      transfer = transfer.id;
      part = part;
      inprogress = false;
      completed = false;
      etag = none;
    } in
    if leb 1 part && leb part 10000
    then record db { transferparts = row ∷ db.transferparts }
    else db

-- The first `parts` rounds of the loop.
unfoldable pub query_create_multiparts : ℕ → ℕ → Database → Database
query_create_multiparts file_id zero db = db
query_create_multiparts file_id (suc parts) db =
    let before = query_create_multiparts file_id parts db in
    create_part (suc parts) (last_where (upload_of_file file_id) before.transfers) before

abbrev pub part_of_transfer : TransferPart → Transfer → Bool
part_of_transfer part transfer = part.transfer == transfer.id

abbrev pub transfer_parts : Database → List (TransferPart × Transfer)
transfer_parts db = join_on part_of_transfer db.transferparts db.transfers

-- `COUNT( part ) - SUM( completed ) + SUM( inprogress )`: the sums are `NULL` where there is no row, which
-- reads as 0.
unfoldable pub query_all_parts_uploaded : ℕ → Database → Bool
query_all_parts_uploaded file_id db =
    let rows =
      rows_where (λ (row : TransferPart × Transfer). row.1.file == file_id) (transfer_parts db) in
    length rows + count_where (λ (row : TransferPart × Transfer). row.0.inprogress) rows
    == count_where (λ (row : TransferPart × Transfer). row.0.completed) rows

abbrev pub part_numbered : ℕ → ℕ → TransferPart × Transfer → Bool
part_numbered file_id part row = row.1.file == file_id && row.0.part == part

unfoldable pub etag_of : Option (TransferPart × Transfer) → Option (List ℕ)
etag_of none = none
etag_of (some (part, transfer)) = part.etag

unfoldable pub query_get_part_etag : ℕ → ℕ → Database → Option (List ℕ)
query_get_part_etag file_id part db =
    etag_of (last_where (part_numbered file_id part) (transfer_parts db))

-- `id IN ( SELECT … )`
abbrev pub selected : ℕ → ℕ → Database → TransferPart → Bool
selected file_id part db row =
    exists_row
      (λ (other : TransferPart × Transfer).
        part_numbered file_id part other && other.0.id == row.id)
      (transfer_parts db)

unfoldable pub query_set_part_etag : ℕ → ℕ → List ℕ → Database → Database
query_set_part_etag file_id part etag db = record db {
  transferparts =
      update_where (selected file_id part db)
        (λ (row : TransferPart). record row { etag = some etag }) db.transferparts;
}

-- A part that waits for its upload.
abbrev pub is_pending : TransferPart × Transfer → Bool
is_pending row = is_upload row.1.direction && (not row.0.inprogress && not row.0.completed)

unfoldable pub file_of : Option (TransferPart × Transfer) → ℕ
file_of none = 0
file_of (some (part, transfer)) = transfer.file

-- The row that `LIMIT 1` leaves is not determined: `limit` chooses it.
unfoldable pub query_find_pending_upload :
    (List (TransferPart × Transfer) → Option (TransferPart × Transfer)) → Database → ℕ
query_find_pending_upload limit db = file_of (limit (rows_where is_pending (transfer_parts db)))

-- What an upload of a part needs. A missing `upload_id` is `NULL`, and a missing size reads as 0.
pub record Upload : Type 0 where
  pub part : ℕ
  pub bucket : List ℕ
  pub remote_path : List ℕ
  pub upload_id : Option (List ℕ)
  pub uid : ℕ
  pub gid : ℕ
  pub permissions : ℕ
  pub filesize : ℕ
  pub local_path : List ℕ
  pub key_id : List ℕ
  pub secret_key : List ℕ

unfoldable pub size_of : Option ℕ → ℕ
size_of none = 0
size_of (some filesize) = filesize

-- The file with its parent, the transfer and the part, and the user.
abbrev pub UploadRow : Type 0
UploadRow = ((Parent × CachedFile) × (TransferPart × Transfer)) × User

unfoldable pub upload_of : Option UploadRow → Option Upload
upload_of none = none
upload_of (some (((parent, file), (part, transfer)), user)) = some (record {
  part = part.part;
  bucket = file.bucket;
  remote_path = file.remotename;
  upload_id = transfer.uploadid;
  uid = file.uid;
  gid = file.gid;
  permissions = file.permissions;
  filesize = size_of file.filesize;
  local_path = parent.localname ++ (codes "/" ++ file.localname);
  key_id = user.keyid;
  secret_key = user.secretkey;
})

abbrev pub file_and_transfer : Parent × CachedFile → TransferPart × Transfer → Bool
file_and_transfer stored row = of_file row.1 stored.1

abbrev pub transfer_and_user : (Parent × CachedFile) × (TransferPart × Transfer) → User → Bool
transfer_and_user row user = row.1.1.owner == user.uid

abbrev pub upload_rows : Database → List UploadRow
upload_rows db =
    join_on transfer_and_user
      (join_on file_and_transfer (join_on in_parent db.parents db.files) (transfer_parts db))
      db.users

unfoldable pub query_get_upload : (List UploadRow → Option UploadRow) → ℕ → Database → Option Upload
query_get_upload limit file_id db = upload_of (
    limit (
      rows_where (λ (row : UploadRow). row.0.0.1.id == file_id && is_pending row.0.1)
        (upload_rows db)))
