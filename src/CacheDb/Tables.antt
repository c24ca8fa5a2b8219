-- ===== src/CacheDb/Tables.antt =====
-- The tables that `CreateDatabase` of src/filecachedb.c creates, and their constraints. Of the table `files` the
-- columns are left out that no statement reads: `atime`, `statcacheinsync` and `filechanged`.
use aws_s3fs.Common.{ℕ, zero, suc, ◌≡◌, ◌≤◌, Bool, true, false, ◌||◌, Option, List, ◌==◌, All}
use aws_s3fs.StatCache.Table.{same_key}
use aws_s3fs.CacheDb.Rows.{exists_row, Distinct}

-- A column that may become negative.
pub data ℤ : Type 0 where
  pos negsuc : ℕ → ℤ

unfoldable pub suc_ℤ : ℤ → ℤ
suc_ℤ (pos n) = pos (suc n)
suc_ℤ (negsuc zero) = pos 0
suc_ℤ (negsuc (suc n)) = negsuc n

unfoldable pub pred_ℤ : ℤ → ℤ
pred_ℤ (pos zero) = negsuc 0
pred_ℤ (pos (suc n)) = pos n
pred_ℤ (negsuc n) = negsuc (suc n)

pub record Parent : Type 0 where
  pub id : ℕ
  pub remotename : List ℕ
  pub localname : List ℕ
  pub uid : ℕ
  pub gid : ℕ
  pub permissions : ℕ

pub record CachedFile : Type 0 where
  pub id : ℕ
  pub bucket : List ℕ
  pub remotename : List ℕ
  pub localname : List ℕ
  pub filesize : Option ℕ
  pub subscriptions : ℤ
  pub parent : ℕ
  pub uid : ℕ
  pub gid : ℕ
  pub permissions : ℕ
  pub mtime : ℕ
  pub iscached : Bool

pub record User : Type 0 where
  pub uid : ℕ
  pub keyid : List ℕ
  pub secretkey : List ℕ

-- The column `direction`, which is 'u' or 'd'.
pub data Direction : Type 0 where
  upload download : Direction

abbrev pub is_upload : Direction → Bool
is_upload upload = true
is_upload download = false

pub record Transfer : Type 0 where
  pub id : ℕ
  pub owner : ℕ
  pub file : ℕ
  pub filesize : Option ℕ
  pub direction : Direction
  pub uploadid : Option (List ℕ)

pub record TransferPart : Type 0 where
  pub id : ℕ
  pub transfer : ℕ
  pub part : ℕ
  pub inprogress : Bool
  pub completed : Bool
  pub etag : Option (List ℕ)

pub record Database : Type 0 where
  pub parents : List Parent
  pub files : List CachedFile
  pub users : List User
  pub transfers : List Transfer
  pub transferparts : List TransferPart

-- The foreign keys.
abbrev pub has_parent : List Parent → ℕ → Bool
has_parent parents id = exists_row (λ (row : Parent). row.id == id) parents

abbrev pub has_file : List CachedFile → ℕ → Bool
has_file files id = exists_row (λ (row : CachedFile). row.id == id) files

abbrev pub has_user : List User → ℕ → Bool
has_user users uid = exists_row (λ (row : User). row.uid == uid) users

abbrev pub has_transfer : List Transfer → ℕ → Bool
has_transfer transfers id = exists_row (λ (row : Transfer). row.id == id) transfers

-- Two rows that a primary key or a `UNIQUE` constraint does not let into one table.
abbrev pub parents_clash : Parent → Parent → Bool
parents_clash a b = a.id == b.id

abbrev pub files_clash : CachedFile → CachedFile → Bool
files_clash a b = a.id == b.id || same_key a.remotename b.remotename

abbrev pub users_clash : User → User → Bool
users_clash a b = a.uid == b.uid

abbrev pub transfers_clash : Transfer → Transfer → Bool
transfers_clash a b = a.id == b.id || a.file == b.file

abbrev pub parts_clash : TransferPart → TransferPart → Bool
parts_clash a b = a.id == b.id

-- The constraints of all the tables.
pub record IsConsistent (db : Database) : Type 0 where
  pub parent_keys : Distinct parents_clash db.parents
  pub file_keys : Distinct files_clash db.files
  pub user_keys : Distinct users_clash db.users
  pub transfer_keys : Distinct transfers_clash db.transfers
  pub part_keys : Distinct parts_clash db.transferparts
  pub file_parents : All (λ (row : CachedFile). has_parent db.parents row.parent ≡ true) db.files
  pub transfer_files : All (λ (row : Transfer). has_file db.files row.file ≡ true) db.transfers
  pub transfer_owners : All (λ (row : Transfer). has_user db.users row.owner ≡ true) db.transfers
  pub part_transfers :
      All (λ (row : TransferPart). has_transfer db.transfers row.transfer ≡ true) db.transferparts
  pub part_numbers :
      All (λ (row : TransferPart). (1 ≤ row.part) × (row.part ≤ 10000)) db.transferparts
