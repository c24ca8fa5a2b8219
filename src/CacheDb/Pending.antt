-- ===== src/CacheDb/Pending.antt =====
-- Which uploads src/filecachedb.c finds pending, and what it never changes about them.
use aws_s3fs.Common.{
  ℕ, ◌≡◌, ◌≢◌, ◌⊎◌, refl, sym, ap, ◌∙◌, arith, Bool, true, false, not, ◌&&◌, Option, List, [], ◌∷◌,
  ◌==◌, ==_iff, All, Bool-cases, inl, inr, Option-cases,
}
use mathlib.Core.Path.{subst}
use aws_s3fs.CacheDb.Rows.{rows_where, remove_where}
use aws_s3fs.CacheDb.Joins.{
  In, All-In, IsLimit, All-where, All-true, In-where, where-In, In-join, join-In,
}
use aws_s3fs.CacheDb.Tables.{
  Direction, upload, download, is_upload, Transfer, TransferPart, Database,
}
use aws_s3fs.CacheDb.Transfers.{delete_transfers, query_delete_upload_transfer, transfer_of_file}
use aws_s3fs.CacheDb.Uploads.{
  transfer_parts, part_of_transfer, file_of, is_pending, query_find_pending_upload,
}

remove-none :
    (file_id : ℕ) (rows : List Transfer)
    → All
        (λ (row : Transfer). (row.file == file_id) ≡ false)
        (remove_where (transfer_of_file file_id) rows)
unfolding remove_where
remove-none file_id [] = tt
remove-none file_id (row ∷ rows) = elim (Bool-cases (row.file == file_id)) [
  | inl hit ↦ rw hit (remove-none file_id rows)
  | inr miss ↦ rw miss (miss, remove-none file_id rows)
]

-- The file has an upload with a part that is neither in progress nor completed.
abbrev pub PendingFor : Database → ℕ → Type 0
PendingFor db file_id =
    (part : TransferPart) × (transfer : Transfer) × In part db.transferparts
    × In transfer db.transfers
    × (part.transfer ≡ transfer.id)
    × (transfer.direction ≡ upload)
    × (transfer.file ≡ file_id)
    × (part.inprogress ≡ false)
    × (part.completed ≡ false)

upload_lem : (direction : Direction) → is_upload direction ≡ true → direction ≡ upload
upload_lem upload h = refl
upload_lem download h = absurd (ground (arith, h))

and_parts : (a b c : Bool) → (a && (not b && not c)) ≡ true → (a ≡ true) × (b ≡ false) × (c ≡ false)
and_parts true false false h = (refl, refl, refl)
and_parts true false true h = absurd (ground (arith, h))
and_parts true true c h = absurd (ground (arith, h))
and_parts false b c h = absurd (ground (arith, h))

-- A row that the query selects is a part that waits for the upload of its file.
selected-PendingFor :
    (db : Database) (row : TransferPart × Transfer)
    → In row (rows_where is_pending (transfer_parts db))
    → PendingFor db row.1.file
selected-PendingFor db row here =
    let (pending, _) =
      All-In (λ r. (is_pending r ≡ true) × Unit {0}) row (rows_where is_pending (transfer_parts db))
        (All-where (λ r. Unit {0}) is_pending (transfer_parts db) (All-true (transfer_parts db)))
        here in
    let (in_parts, in_transfers, joined) =
      In-join part_of_transfer db.transferparts db.transfers row
        (In-where is_pending row (transfer_parts db) here) in
    let (direction, idle, incomplete) =
      and_parts (is_upload row.1.direction) row.0.inprogress row.0.completed pending in
    (
      row.0,
      row.1,
      in_parts,
      in_transfers,
      (==_iff row.0.transfer row.1.id).0 joined,
      upload_lem row.1.direction direction,
      refl,
      idle,
      incomplete,
    )

-- Such a part is selected.
PendingFor-selected :
    (db : Database) (file_id : ℕ)
    → rows_where is_pending (transfer_parts db) ≡ []
    → ¬ PendingFor db file_id
PendingFor-selected db file_id nothing
      (part, transfer, in_parts, in_transfers, joined, direction, file, idle, incomplete) =
    let matches = (==_iff part.transfer transfer.id).1 joined in
    let pending : is_pending (part, transfer) ≡ true = rw (direction, idle, incomplete) refl in
    let member =
      where-In is_pending (part, transfer) (transfer_parts db)
        (join-In part_of_transfer part db.transferparts transfer db.transfers in_parts in_transfers
          matches)
        pending in
    subst (In (part, transfer)) nothing member

module _ (limit : List (TransferPart × Transfer) → Option (TransferPart × Transfer))
    (is_limit : IsLimit limit) where
  -- Either the file that is returned has a transfer that is an upload with a part neither in progress nor
  -- completed, or 0 is returned and no file has one.
  pub find_pending_upload_lem :
      (db : Database)
      → PendingFor db (query_find_pending_upload limit db)
        ⊎ ((query_find_pending_upload limit db ≡ 0) × ((file_id : ℕ) → ¬ PendingFor db file_id))
  unfolding query_find_pending_upload file_of
  find_pending_upload_lem db =
      let rows = rows_where is_pending (transfer_parts db) in
      elim (Option-cases (limit rows)) [
        | inl nothing ↦ inr (
          ap file_of nothing,
          λ file_id. PendingFor-selected db file_id (is_limit.nothing rows nothing),
        )
        | inr (row, e) ↦ inl (
            subst (PendingFor db) (sym (ap file_of e))
              (selected-PendingFor db row (is_limit.member rows row e)))
      ]

  -- Right after `Query_DeleteUploadTransfer` no upload of the file is pending, and unless the file's id is 0,
  -- `Query_FindPendingUpload` does not return it.
  pub delete_upload_transfer-gone :
      (file_id : ℕ) (db : Database)
      → (¬ PendingFor (query_delete_upload_transfer file_id db).1 file_id)
        × ((file_id ≡ 0)
            ⊎ (query_find_pending_upload limit (query_delete_upload_transfer file_id db).1
                ≢ file_id))
  unfolding query_delete_upload_transfer delete_transfers
  delete_upload_transfer-gone file_id db =
      let after = delete_transfers file_id db in
      let gone = no_transfer file_id db in
      (
        gone,
        elim (Bool-cases (file_id == 0)) [
          | inl none_given ↦ inl ((==_iff file_id 0).0 none_given)
          | inr given ↦ inr (elim (find_pending_upload_lem after) [
            | inl pending ↦ λ same. gone (subst (PendingFor after) same pending)
            | inr (zero_found, _) ↦ λ same.
                let e : file_id ≡ 0 = sym same ∙ zero_found in absurd (ground (arith, e, given))
          ])
        ],
      )
    where
      no_transfer :
          (file_id : ℕ) (db : Database) → ¬ PendingFor (delete_transfers file_id db) file_id
      no_transfer file_id db
            (part, transfer, in_parts, in_transfers, joined, direction, file, idle, incomplete) =
          let other =
            All-In (λ (row : Transfer). (row.file == file_id) ≡ false) transfer
              (remove_where (transfer_of_file file_id) db.transfers)
              (remove-none file_id db.transfers) in_transfers in
          absurd (ground (arith, other, file))
