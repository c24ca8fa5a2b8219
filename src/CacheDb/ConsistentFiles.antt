-- ===== src/CacheDb/ConsistentFiles.antt =====
-- The queries on parents, files and users in src/filecachedb.c keep the constraints of the tables.
use aws_s3fs.Common.{
  ℕ, ◌≡◌, refl, ◌∙◌, arith, Bool, true, false, Option, none, some, List, ◌∷◌, ◌==◌, if◌then◌else◌,
  Bool-cases, inl, inr,
}
use aws_s3fs.CacheDb.Rows.{exists_row, update_where}
use aws_s3fs.CacheDb.RowLaws.{
  All-imp, All-update, Distinct-update, exists-update, exists-false, exists-cons, next_rowid_fresh,
}
use aws_s3fs.CacheDb.Tables.{
  suc_ℤ, pred_ℤ, Parent, CachedFile, User, Transfer, Database, IsConsistent, has_parent, has_file,
  has_user, files_clash,
}
use aws_s3fs.CacheDb.Files.{
  NewFile, NewParent, new_file_row, insert_file, create_file_if, create_dir_if,
  query_increment_or_decrement, query_increment_subscription_count, query_mark_file_as_cached,
  file_with_id,
}
use aws_s3fs.CacheDb.Transfers.{query_add_user}

-- An update of `files` that leaves the keys and the parent alone.
pub update_files-IsConsistent :
    (p : CachedFile → Bool) (f : CachedFile → CachedFile)
    → ((row : CachedFile) → (f row).id ≡ row.id)
    → ((row : CachedFile) → (f row).remotename ≡ row.remotename)
    → ((row : CachedFile) → (f row).parent ≡ row.parent)
    → (db : Database) → IsConsistent db
    → IsConsistent (record db { files = update_where p f db.files })
update_files-IsConsistent p f id name parent db c = record {
  parent_keys = c.parent_keys;
  file_keys =
      Distinct-update files_clash p f (λ a b. rw (id a, name a) refl)
        (λ a b. rw (id b, name b) refl) db.files c.file_keys;
  user_keys = c.user_keys;
  transfer_keys = c.transfer_keys;
  part_keys = c.part_keys;
  file_parents =
      All-update (λ (row : CachedFile). has_parent db.parents row.parent ≡ true) p f
        (λ row h. rw (parent row) h) db.files c.file_parents;
  transfer_files =
      All-imp (λ (row : Transfer). has_file db.files row.file ≡ true)
        (λ (row : Transfer). has_file (update_where p f db.files) row.file ≡ true)
        (λ row h.
          exists-update (λ (file : CachedFile). file.id == row.file) p f (λ file. rw (id file) refl)
            db.files
          ∙ h)
        db.transfers c.transfer_files;
  transfer_owners = c.transfer_owners;
  part_transfers = c.part_transfers;
  part_numbers = c.part_numbers;
}

pub insert_file-IsConsistent :
    (new : NewFile) (db : Database) → IsConsistent db → IsConsistent (insert_file new db).1
unfolding insert_file new_file_row
insert_file-IsConsistent new db c =
    let row = new_file_row new db in
    elim (Bool-cases (has_parent db.parents new.parent_id)) [
      | inl known ↦ elim (Bool-cases (exists_row (files_clash row) db.files)) [
        | inl clash ↦ rw (known, clash) c
        | inr free ↦
            rw (known, free)
              (record {
                parent_keys = c.parent_keys;
                file_keys = (exists-false (files_clash row) db.files free, c.file_keys);
                user_keys = c.user_keys;
                transfer_keys = c.transfer_keys;
                part_keys = c.part_keys;
                file_parents = (known, c.file_parents);
                transfer_files =
                    All-imp (λ (t : Transfer). has_file db.files t.file ≡ true)
                      (λ (t : Transfer). has_file (row ∷ db.files) t.file ≡ true)
                      (λ t h. exists-cons (λ (file : CachedFile). file.id == t.file) row db.files h)
                      db.transfers c.transfer_files;
                transfer_owners = c.transfer_owners;
                part_transfers = c.part_transfers;
                part_numbers = c.part_numbers;
              })
      ]
      | inr unknown ↦ rw unknown c
    ]

pub change_count-IsConsistent :
    (file_id : ℕ) (up : Bool) (db : Database)
    → IsConsistent db
    → IsConsistent (query_increment_or_decrement file_id up db).1
unfolding query_increment_or_decrement
change_count-IsConsistent file_id up db c =
    update_files-IsConsistent (file_with_id file_id)
      (λ (row : CachedFile). record row {
        subscriptions = if up then suc_ℤ row.subscriptions else pred_ℤ row.subscriptions;
      })
      (λ row. refl) (λ row. refl) (λ row. refl) db c

pub create_file_if-IsConsistent :
    (new : NewFile) (db : Database) (found : Option CachedFile)
    → IsConsistent db
    → IsConsistent (create_file_if new db found).1
unfolding create_file_if query_increment_subscription_count
create_file_if-IsConsistent new db none c = insert_file-IsConsistent new db c
create_file_if-IsConsistent new db (some row) c = change_count-IsConsistent row.id true db c

pub create_dir_if-IsConsistent :
    (new : NewParent) (db : Database) (found : Option Parent)
    → IsConsistent db
    → IsConsistent (create_dir_if new db found).1
unfolding create_dir_if
create_dir_if-IsConsistent new db (some row) c = c
create_dir_if-IsConsistent new db none c = record {
  parent_keys = (next_rowid_fresh (λ (row : Parent). row.id) db.parents, c.parent_keys);
  file_keys = c.file_keys;
  user_keys = c.user_keys;
  transfer_keys = c.transfer_keys;
  part_keys = c.part_keys;
  file_parents =
      All-imp (λ (row : CachedFile). has_parent db.parents row.parent ≡ true)
        (λ (row : CachedFile). has_parent ((create_dir_if new db none).1).parents row.parent ≡ true)
        (λ row h. exists-cons (λ (parent : Parent). parent.id == row.parent) _ db.parents h)
        db.files c.file_parents;
  transfer_files = c.transfer_files;
  transfer_owners = c.transfer_owners;
  part_transfers = c.part_transfers;
  part_numbers = c.part_numbers;
}

pub mark_cached-IsConsistent :
    (file_id : ℕ) (db : Database)
    → IsConsistent db
    → IsConsistent (query_mark_file_as_cached file_id db)
unfolding query_mark_file_as_cached
mark_cached-IsConsistent file_id db c =
    update_files-IsConsistent (file_with_id file_id)
      (λ (row : CachedFile). record row { iscached = true }) (λ row. refl) (λ row. refl)
      (λ row. refl) db c

pub add_user-IsConsistent :
    (uid : ℕ) (key_id secret_key : List ℕ) (db : Database)
    → IsConsistent db
    → IsConsistent (query_add_user uid key_id secret_key db).1
unfolding query_add_user
add_user-IsConsistent uid key_id secret_key db c = elim (Bool-cases (has_user db.users uid)) [
  | inl known ↦ rw known c
  | inr fresh ↦ rw fresh (record {
    parent_keys = c.parent_keys;
    file_keys = c.file_keys;
    user_keys = (
      All-imp (λ (row : User). (row.uid == uid) ≡ false) (λ (row : User). (uid == row.uid) ≡ false)
          (λ row h. ground (arith, h)) db.users
          (exists-false (λ (row : User). row.uid == uid) db.users fresh),
      c.user_keys,
    );
    transfer_keys = c.transfer_keys;
    part_keys = c.part_keys;
    file_parents = c.file_parents;
    transfer_files = c.transfer_files;
    transfer_owners =
        All-imp (λ (t : Transfer). has_user db.users t.owner ≡ true)
          (λ (t : Transfer).
            has_user (record { uid = uid; keyid = key_id; secretkey = secret_key } ∷ db.users)
              t.owner
            ≡ true)
          (λ t h. exists-cons (λ (user : User). user.uid == t.owner) _ db.users h) db.transfers
          c.transfer_owners;
    part_transfers = c.part_transfers;
    part_numbers = c.part_numbers;
  })
]
