-- ===== src/CacheDb/NeverStarted.antt =====
-- What no statement of src/filecachedb.c ever sets: the size of a file and the state of a part.
use aws_s3fs.Common.{
  ℕ, zero, suc, ◌≡◌, refl, sym, ap, ◌∙◌, arith, Bool, true, false, not, ◌&&◌, Option, none, some,
  List, [], ◌∷◌, leb, ◌==◌, if◌then◌else◌, All, Bool-cases, inl, inr, Option-cases,
}
use mathlib.Core.Path.{subst}
use mathlib.Core.Option.{none-ne-some}
use aws_s3fs.CacheDb.Rows.{exists_row, rows_where, last_where, join_on}
use aws_s3fs.CacheDb.RowLaws.{All-imp, All-update, All-remove}
use aws_s3fs.CacheDb.Joins.{
  All-In, IsLimit, All-where, All-true, All-join, length-where, count-none,
}
use aws_s3fs.CacheDb.Tables.{
  suc_ℤ, pred_ℤ, Parent, CachedFile, User, Transfer, TransferPart, Direction, Database, has_parent,
  has_file, has_user, files_clash, transfers_clash,
}
use aws_s3fs.CacheDb.Files.{
  NewFile, NewParent, find_file, find_parent, new_file_row, insert_file, create_file_if,
  query_create_local_file, create_dir_if, query_create_local_dir, query_increment_or_decrement,
  query_increment_subscription_count, query_mark_file_as_cached, file_with_id, in_parent,
}
use aws_s3fs.CacheDb.Transfers.{
  new_transfer, insert_transfer, query_add_user, query_add_download, query_add_upload,
  delete_transfers, query_delete_transfer, query_delete_upload_transfer, query_set_upload_id,
  part_of_file,
}
use aws_s3fs.CacheDb.Uploads.{
  create_part, query_create_multiparts, query_set_part_etag, upload_of_file, selected,
  transfer_parts, part_of_transfer, is_pending, query_all_parts_uploaded, Upload, UploadRow,
  upload_of, size_of, upload_rows, file_and_transfer, transfer_and_user, query_get_upload,
}
use aws_s3fs.CacheDb.History.{
  Statement, create_local_file, create_local_dir, increment_or_decrement, mark_file_as_cached,
  add_user, add_download, add_upload, delete_transfer, delete_upload_transfer, set_upload_id,
  create_multiparts, set_part_etag, execute, execute_all, new_database,
}

-- No file has a size, and no part is marked as in progress or as completed.
pub record NeverStarted (db : Database) : Type 0 where
  pub no_size : All (λ (row : CachedFile). row.filesize ≡ none) db.files
  pub waiting :
      All
        (λ (row : TransferPart). (row.inprogress ≡ false) × (row.completed ≡ false))
        db.transferparts

abbrev HasNoSize : CachedFile → Type 0
HasNoSize row = row.filesize ≡ none

abbrev Waits : TransferPart → Type 0
Waits row = (row.inprogress ≡ false) × (row.completed ≡ false)

insert_file-NeverStarted :
    (new : NewFile) (db : Database) → NeverStarted db → NeverStarted (insert_file new db).1
unfolding insert_file new_file_row
insert_file-NeverStarted new db n =
    elim (Bool-cases (
      has_parent db.parents new.parent_id
      && not (exists_row (files_clash (new_file_row new db)) db.files))) [
        | inl good ↦ rw good (record { no_size = (refl, n.no_size); waiting = n.waiting })
        | inr refused ↦ rw refused n
      ]

change_count-NeverStarted :
    (file_id : ℕ) (up : Bool) (db : Database)
    → NeverStarted db
    → NeverStarted (query_increment_or_decrement file_id up db).1
unfolding query_increment_or_decrement
change_count-NeverStarted file_id up db n = record {
  no_size =
      All-update HasNoSize (file_with_id file_id)
        (λ (row : CachedFile). record row {
          subscriptions = if up then suc_ℤ row.subscriptions else pred_ℤ row.subscriptions;
        })
        (λ row h. h) db.files n.no_size;
  waiting = n.waiting;
}

create_file_if-NeverStarted :
    (new : NewFile) (db : Database) (found : Option CachedFile)
    → NeverStarted db
    → NeverStarted (create_file_if new db found).1
unfolding create_file_if query_increment_subscription_count
create_file_if-NeverStarted new db none n = insert_file-NeverStarted new db n
create_file_if-NeverStarted new db (some row) n = change_count-NeverStarted row.id true db n

create_dir_if-NeverStarted :
    (new : NewParent) (db : Database) (found : Option Parent)
    → NeverStarted db
    → NeverStarted (create_dir_if new db found).1
unfolding create_dir_if
create_dir_if-NeverStarted new db none n = record { no_size = n.no_size; waiting = n.waiting }
create_dir_if-NeverStarted new db (some row) n = n

mark_cached-NeverStarted :
    (file_id : ℕ) (db : Database)
    → NeverStarted db
    → NeverStarted (query_mark_file_as_cached file_id db)
unfolding query_mark_file_as_cached
mark_cached-NeverStarted file_id db n = record {
  no_size =
      All-update HasNoSize (file_with_id file_id)
        (λ (row : CachedFile). record row { iscached = true }) (λ row h. h) db.files n.no_size;
  waiting = n.waiting;
}

add_user-NeverStarted :
    (uid : ℕ) (key_id secret_key : List ℕ) (db : Database)
    → NeverStarted db
    → NeverStarted (query_add_user uid key_id secret_key db).1
unfolding query_add_user
add_user-NeverStarted uid key_id secret_key db n = elim (Bool-cases (has_user db.users uid)) [
  | inl known ↦ rw known n
  | inr fresh ↦ rw fresh (record { no_size = n.no_size; waiting = n.waiting })
]

insert_transfer-NeverStarted :
    (row : Transfer) (db : Database) → NeverStarted db → NeverStarted (insert_transfer row db).1
unfolding insert_transfer
insert_transfer-NeverStarted row db n =
    elim (Bool-cases (
      (has_file db.files row.file && has_user db.users row.owner)
      && not (exists_row (transfers_clash row) db.transfers))) [
        | inl good ↦ rw good (record { no_size = n.no_size; waiting = n.waiting })
        | inr refused ↦ rw refused n
      ]

delete_transfers-NeverStarted :
    (file_id : ℕ) (db : Database) → NeverStarted db → NeverStarted (delete_transfers file_id db)
unfolding delete_transfers
delete_transfers-NeverStarted file_id db n = record {
  no_size = n.no_size;
  waiting = All-remove Waits (part_of_file file_id db.transfers) db.transferparts n.waiting;
}

create_part-NeverStarted :
    (part : ℕ) (found : Option Transfer) (db : Database)
    → NeverStarted db
    → NeverStarted (create_part part found db)
unfolding create_part
create_part-NeverStarted part none db n = n
create_part-NeverStarted part (some transfer) db n =
    elim (Bool-cases (leb 1 part && leb part 10000)) [
      | inl good ↦ rw good (record { no_size = n.no_size; waiting = ((refl, refl), n.waiting) })
      | inr refused ↦ rw refused n
    ]

create_multiparts-NeverStarted :
    (file_id parts : ℕ) (db : Database)
    → NeverStarted db
    → NeverStarted (query_create_multiparts file_id parts db)
unfolding query_create_multiparts
create_multiparts-NeverStarted file_id zero db n = n
create_multiparts-NeverStarted file_id (suc parts) db n =
    let before = query_create_multiparts file_id parts db in
    create_part-NeverStarted (suc parts) (last_where (upload_of_file file_id) before.transfers)
      before (create_multiparts-NeverStarted file_id parts db n)

set_part_etag-NeverStarted :
    (file_id part : ℕ) (etag : List ℕ) (db : Database)
    → NeverStarted db
    → NeverStarted (query_set_part_etag file_id part etag db)
unfolding query_set_part_etag
set_part_etag-NeverStarted file_id part etag db n = record {
  no_size = n.no_size;
  waiting =
      All-update Waits (selected file_id part db)
        (λ (row : TransferPart). record row { etag = some etag }) (λ row h. h) db.transferparts
        n.waiting;
}

set_upload_id-NeverStarted :
    (file_id : ℕ) (upload_id : List ℕ) (db : Database)
    → NeverStarted db
    → NeverStarted (query_set_upload_id file_id upload_id db)
unfolding query_set_upload_id
set_upload_id-NeverStarted file_id upload_id db n = record {
  no_size = n.no_size;
  waiting = n.waiting;
}

execute-NeverStarted :
    (statement : Statement) (db : Database) → NeverStarted db → NeverStarted (execute statement db)
unfolding execute query_create_local_file query_create_local_dir query_add_download query_add_upload
    query_delete_transfer query_delete_upload_transfer
execute-NeverStarted (create_local_file new) db n =
    create_file_if-NeverStarted new db (find_file new.path db) n
execute-NeverStarted (create_local_dir new) db n =
    create_dir_if-NeverStarted new db (find_parent new.path db) n
execute-NeverStarted (increment_or_decrement file_id up) db n =
    change_count-NeverStarted file_id up db n
execute-NeverStarted (mark_file_as_cached file_id) db n = mark_cached-NeverStarted file_id db n
execute-NeverStarted (add_user uid key_id secret_key) db n =
    add_user-NeverStarted uid key_id secret_key db n
execute-NeverStarted (add_download file_id owner) db n =
    insert_transfer-NeverStarted (new_transfer file_id owner none Direction.download db) db n
execute-NeverStarted (add_upload file_id owner filesize) db n =
    insert_transfer-NeverStarted (new_transfer file_id owner (some filesize) Direction.upload db) db
      n
execute-NeverStarted (delete_transfer file_id) db n = delete_transfers-NeverStarted file_id db n
execute-NeverStarted (delete_upload_transfer file_id) db n =
    delete_transfers-NeverStarted file_id db n
execute-NeverStarted (set_upload_id file_id upload_id) db n =
    set_upload_id-NeverStarted file_id upload_id db n
execute-NeverStarted (create_multiparts file_id parts) db n =
    create_multiparts-NeverStarted file_id parts db n
execute-NeverStarted (set_part_etag file_id part etag) db n =
    set_part_etag-NeverStarted file_id part etag db n

pub execute_all-NeverStarted :
    (statements : List Statement) (db : Database)
    → NeverStarted db
    → NeverStarted (execute_all statements db)
unfolding execute_all
execute_all-NeverStarted [] db n = n
execute_all-NeverStarted (statement ∷ statements) db n =
    execute_all-NeverStarted statements (execute statement db) (execute-NeverStarted statement db n)

new_database-NeverStarted : NeverStarted new_database
new_database-NeverStarted = record { no_size = tt; waiting = tt }

abbrev pub part_of_upload : ℕ → TransferPart × Transfer → Bool
part_of_upload file_id row = row.1.file == file_id

-- As long as a file has a part in the table, `Query_AllPartsUploaded` says that not all of its parts have been
-- uploaded, whatever statements were executed: no statement marks a part as completed.
pub all_parts_uploaded-never :
    (statements : List Statement) (file_id : ℕ)
    → exists_row (part_of_upload file_id) (transfer_parts (execute_all statements new_database))
      ≡ true
    → query_all_parts_uploaded file_id (execute_all statements new_database) ≡ false
unfolding query_all_parts_uploaded
all_parts_uploaded-never statements file_id there =
    let db = execute_all statements new_database in
    let n = execute_all-NeverStarted statements new_database new_database-NeverStarted in
    let rows = rows_where (part_of_upload file_id) (transfer_parts db) in
    let waiting =
      All-where (λ (row : TransferPart × Transfer). Waits row.0 × Unit {0}) (part_of_upload file_id)
        (transfer_parts db)
        (All-join Waits (λ r. Unit {0}) part_of_transfer db.transferparts db.transfers n.waiting
          (All-true db.transfers)) in
    let completed =
      count-none (λ (row : TransferPart × Transfer). row.0.completed) rows
        (All-imp
          (λ (row : TransferPart × Transfer).
            (part_of_upload file_id row ≡ true) × (Waits row.0 × Unit {0}))
          (λ (row : TransferPart × Transfer). row.0.completed ≡ false) (λ row h. h.1.0.1) rows
          waiting) in
    let some_row = length-where (part_of_upload file_id) (transfer_parts db) there in
    ground (arith, completed, some_row)

abbrev SizeIsNothing : Option Upload → Type 0
SizeIsNothing none = Unit {0}
SizeIsNothing (some upload) = upload.filesize ≡ 0

abbrev NoSizeRow : UploadRow → Type 0
NoSizeRow row = row.0.0.1.filesize ≡ none

upload_of-SizeIsNothing : (row : UploadRow) → NoSizeRow row → SizeIsNothing (upload_of (some row))
unfolding upload_of size_of
upload_of-SizeIsNothing (((parent, file), (part, transfer)), user) h = ap size_of h

-- Whatever statements were executed, the size with which `Query_GetUpload` returns a file is 0: it reads a column
-- that no statement sets, and not the size in the transfer, which `Query_AddUpload` sets.
pub get_upload-no_size :
    (limit : List UploadRow → Option UploadRow)
    → IsLimit limit
    → (statements : List Statement) (file_id : ℕ) (upload : Upload)
    → query_get_upload limit file_id (execute_all statements new_database) ≡ some upload
    → upload.filesize ≡ 0
unfolding query_get_upload upload_of
get_upload-no_size limit is_limit statements file_id upload got =
    let db = execute_all statements new_database in
    let n = execute_all-NeverStarted statements new_database new_database-NeverStarted in
    let p = λ (row : UploadRow). row.0.0.1.id == file_id && is_pending row.0.1 in
    let rows = rows_where p (upload_rows db) in
    let stored =
      All-join (λ (r : Parent). Unit {0}) HasNoSize in_parent db.parents db.files
        (All-true db.parents) n.no_size in
    let Stored : Parent × CachedFile → Type 0 = λ row. Unit {0} × (row.1.filesize ≡ none) in
    let with_parts =
      All-join Stored (λ r. Unit {0}) file_and_transfer (join_on in_parent db.parents db.files)
        (transfer_parts db) stored (All-true (transfer_parts db)) in
    let all_rows =
      All-join
        (λ (row : (Parent × CachedFile) × (TransferPart × Transfer)).
          (Unit {0} × (row.0.1.filesize ≡ none)) × Unit {0})
        (λ (r : User). Unit {0}) transfer_and_user
        (join_on file_and_transfer (join_on in_parent db.parents db.files) (transfer_parts db))
        db.users with_parts (All-true db.users) in
    elim (Option-cases (limit rows)) [
      | inl nothing ↦ absurd (none-ne-some upload (sym (ap upload_of nothing) ∙ got))
      | inr (row, e) ↦
          let here =
            All-In
              (λ (r : UploadRow). (p r ≡ true) × (((Unit {0} × NoSizeRow r) × Unit {0}) × Unit {0}))
              row rows
              (All-where (λ (r : UploadRow). ((Unit {0} × NoSizeRow r) × Unit {0}) × Unit {0}) p
                (upload_rows db) all_rows)
              (is_limit.member rows row e) in
          subst SizeIsNothing (sym (ap upload_of e) ∙ got)
            (upload_of-SizeIsNothing row here.1.0.0.1)
    ]
