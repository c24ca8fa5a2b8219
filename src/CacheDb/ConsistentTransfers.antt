-- ===== src/CacheDb/ConsistentTransfers.antt =====
-- The queries on transfers and their parts in src/filecachedb.c keep the constraints of the tables.
use aws_s3fs.Common.{
  ℕ, zero, suc, ◌≡◌, ◌≤◌, refl, sym, ◌∙◌, arith, Bool, true, Option, none, some, List, [], ◌∷◌, leb,
  ◌==◌, All, Bool-cases, inl, inr, Option-cases,
}
use mathlib.Core.Path.{subst}
use aws_s3fs.CacheDb.Rows.{exists_row, update_where, remove_where, last_where}
use aws_s3fs.CacheDb.RowLaws.{
  All-imp, All-update, All-remove, Distinct-update, Distinct-remove, exists-update, exists-false,
  exists-remove, exists-cons, next_rowid_fresh, last-some,
}
use aws_s3fs.CacheDb.Tables.{
  Transfer, TransferPart, Database, IsConsistent, has_file, has_user, has_transfer, transfers_clash,
  parts_clash,
}
use aws_s3fs.CacheDb.Transfers.{
  insert_transfer, delete_transfers, query_set_upload_id, transfer_of_file, part_of_file,
}
use aws_s3fs.CacheDb.Uploads.{
  create_part, query_create_multiparts, query_set_part_etag, upload_of_file, selected,
}

pub insert_transfer-IsConsistent :
    (row : Transfer) (db : Database) → IsConsistent db → IsConsistent (insert_transfer row db).1
unfolding insert_transfer
insert_transfer-IsConsistent row db c = elim (Bool-cases (has_file db.files row.file)) [
  | inl known ↦ elim (Bool-cases (has_user db.users row.owner)) [
    | inl owned ↦ elim (Bool-cases (exists_row (transfers_clash row) db.transfers)) [
      | inl clash ↦ rw (known, owned, clash) c
      | inr free ↦
          rw (known, owned, free)
            (record {
              parent_keys = c.parent_keys;
              file_keys = c.file_keys;
              user_keys = c.user_keys;
              transfer_keys =
                  (exists-false (transfers_clash row) db.transfers free, c.transfer_keys);
              part_keys = c.part_keys;
              file_parents = c.file_parents;
              transfer_files = (known, c.transfer_files);
              transfer_owners = (owned, c.transfer_owners);
              part_transfers =
                  All-imp (λ (part : TransferPart). has_transfer db.transfers part.transfer ≡ true)
                    (λ (part : TransferPart).
                      has_transfer (row ∷ db.transfers) part.transfer ≡ true)
                    (λ part h.
                      exists-cons (λ (t : Transfer). t.id == part.transfer) row db.transfers h)
                    db.transferparts c.part_transfers;
              part_numbers = c.part_numbers;
            })
    ]
    | inr stranger ↦ rw (known, stranger) c
  ]
  | inr unknown ↦ rw unknown c
]

pub set_upload_id-IsConsistent :
    (file_id : ℕ) (upload_id : List ℕ) (db : Database)
    → IsConsistent db
    → IsConsistent (query_set_upload_id file_id upload_id db)
unfolding query_set_upload_id
set_upload_id-IsConsistent file_id upload_id db c =
    let p = transfer_of_file file_id in
    let f = λ (row : Transfer). record row { uploadid = some upload_id } in
    record {
      parent_keys = c.parent_keys;
      file_keys = c.file_keys;
      user_keys = c.user_keys;
      transfer_keys =
          Distinct-update transfers_clash p f (λ a b. refl) (λ a b. refl) db.transfers
            c.transfer_keys;
      part_keys = c.part_keys;
      file_parents = c.file_parents;
      transfer_files =
          All-update (λ (row : Transfer). has_file db.files row.file ≡ true) p f (λ row h. h)
            db.transfers c.transfer_files;
      transfer_owners =
          All-update (λ (row : Transfer). has_user db.users row.owner ≡ true) p f (λ row h. h)
            db.transfers c.transfer_owners;
      part_transfers =
          All-imp (λ (part : TransferPart). has_transfer db.transfers part.transfer ≡ true)
            (λ (part : TransferPart).
              has_transfer (update_where p f db.transfers) part.transfer ≡ true)
            (λ part h.
              exists-update (λ (t : Transfer). t.id == part.transfer) p f (λ t. refl) db.transfers
              ∙ h)
            db.transferparts c.part_transfers;
      part_numbers = c.part_numbers;
    }

-- What is found is in the table.
abbrev OfTable : Database → Option Transfer → Type 0
OfTable db none = Unit {0}
OfTable db (some row) = has_transfer db.transfers row.id ≡ true

known_by_id :
    (rows : List Transfer) → All (λ (row : Transfer). has_transfer rows row.id ≡ true) rows
unfolding exists_row
known_by_id [] = tt
known_by_id (row ∷ rows) = (
  ground arith,
  All-imp (λ (other : Transfer). has_transfer rows other.id ≡ true)
      (λ (other : Transfer). has_transfer (row ∷ rows) other.id ≡ true)
      (λ other h. exists-cons (λ (t : Transfer). t.id == other.id) row rows h) rows
      (known_by_id rows),
)

last-OfTable : (p : Transfer → Bool) (db : Database) → OfTable db (last_where p db.transfers)
last-OfTable p db = elim (Option-cases (last_where p db.transfers)) [
  | inl nothing ↦ rw nothing tt
  | inr (row, e) ↦
      let (hit, known) =
        last-some (λ (t : Transfer). has_transfer db.transfers t.id ≡ true) p db.transfers row e
          (known_by_id db.transfers) in
      subst (OfTable db) (sym e) known
]

pub create_part-IsConsistent :
    (part : ℕ) (found : Option Transfer) (db : Database)
    → OfTable db found
    → IsConsistent db
    → IsConsistent (create_part part found db)
unfolding create_part
create_part-IsConsistent part none db known c = c
create_part-IsConsistent part (some transfer) db known c = elim (Bool-cases (leb 1 part)) [
  | inl positive ↦ elim (Bool-cases (leb part 10000)) [
    | inl small ↦
        rw (positive, small)
          (record {
            parent_keys = c.parent_keys;
            file_keys = c.file_keys;
            user_keys = c.user_keys;
            transfer_keys = c.transfer_keys;
            part_keys =
                (next_rowid_fresh (λ (row : TransferPart). row.id) db.transferparts, c.part_keys);
            file_parents = c.file_parents;
            transfer_files = c.transfer_files;
            transfer_owners = c.transfer_owners;
            part_transfers = (known, c.part_transfers);
            part_numbers = ((ground (arith, positive), ground (arith, small)), c.part_numbers);
          })
    | inr large ↦ rw (positive, large) c
  ]
  | inr nothing ↦ rw nothing c
]

pub create_multiparts-IsConsistent :
    (file_id parts : ℕ) (db : Database)
    → IsConsistent db
    → IsConsistent (query_create_multiparts file_id parts db)
unfolding query_create_multiparts
create_multiparts-IsConsistent file_id zero db c = c
create_multiparts-IsConsistent file_id (suc parts) db c =
    let before = query_create_multiparts file_id parts db in
    create_part-IsConsistent (suc parts) (last_where (upload_of_file file_id) before.transfers)
      before (last-OfTable (upload_of_file file_id) before)
      (create_multiparts-IsConsistent file_id parts db c)

pub set_part_etag-IsConsistent :
    (file_id part : ℕ) (etag : List ℕ) (db : Database)
    → IsConsistent db
    → IsConsistent (query_set_part_etag file_id part etag db)
unfolding query_set_part_etag
set_part_etag-IsConsistent file_id part etag db c =
    let p = selected file_id part db in
    let f = λ (row : TransferPart). record row { etag = some etag } in
    record {
      parent_keys = c.parent_keys;
      file_keys = c.file_keys;
      user_keys = c.user_keys;
      transfer_keys = c.transfer_keys;
      part_keys =
          Distinct-update parts_clash p f (λ a b. refl) (λ a b. refl) db.transferparts c.part_keys;
      file_parents = c.file_parents;
      transfer_files = c.transfer_files;
      transfer_owners = c.transfer_owners;
      part_transfers =
          All-update (λ (row : TransferPart). has_transfer db.transfers row.transfer ≡ true) p f
            (λ row h. h) db.transferparts c.part_transfers;
      part_numbers =
          All-update (λ (row : TransferPart). (1 ≤ row.part) × (row.part ≤ 10000)) p f (λ row h. h)
            db.transferparts c.part_numbers;
    }

-- A part that is kept belongs to a transfer that is kept.
kept_parts :
    (file_id : ℕ) (transfers : List Transfer) (parts : List TransferPart)
    → All (λ (part : TransferPart). has_transfer transfers part.transfer ≡ true) parts
    → All
        (λ (part : TransferPart).
          has_transfer (remove_where (transfer_of_file file_id) transfers) part.transfer ≡ true)
        (remove_where (part_of_file file_id transfers) parts)
unfolding remove_where
kept_parts file_id transfers [] h = tt
kept_parts file_id transfers (part ∷ parts) h =
    elim (Bool-cases (part_of_file file_id transfers part)) [
      | inl removed ↦ rw removed (kept_parts file_id transfers parts h.1)
      | inr kept ↦ rw kept (
        exists-remove (λ (t : Transfer). t.id == part.transfer) (transfer_of_file file_id) transfers
            h.0 kept,
        kept_parts file_id transfers parts h.1,
      )
    ]

pub delete_transfers-IsConsistent :
    (file_id : ℕ) (db : Database) → IsConsistent db → IsConsistent (delete_transfers file_id db)
unfolding delete_transfers
delete_transfers-IsConsistent file_id db c =
    let p = transfer_of_file file_id in
    let q = part_of_file file_id db.transfers in
    record {
      parent_keys = c.parent_keys;
      file_keys = c.file_keys;
      user_keys = c.user_keys;
      transfer_keys = Distinct-remove transfers_clash p db.transfers c.transfer_keys;
      part_keys = Distinct-remove parts_clash q db.transferparts c.part_keys;
      file_parents = c.file_parents;
      transfer_files =
          All-remove (λ (row : Transfer). has_file db.files row.file ≡ true) p db.transfers
            c.transfer_files;
      transfer_owners =
          All-remove (λ (row : Transfer). has_user db.users row.owner ≡ true) p db.transfers
            c.transfer_owners;
      part_transfers = kept_parts file_id db.transfers db.transferparts c.part_transfers;
      part_numbers =
          All-remove (λ (row : TransferPart). (1 ≤ row.part) × (row.part ≤ 10000)) q
            db.transferparts c.part_numbers;
    }
