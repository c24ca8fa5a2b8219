-- ===== src/Fuse/OpenRun.antt =====
-- What holds of a file that `s3fs_open` of src/fuseif.c opens, and that the loop over its directories ends.
use aws_s3fs.Common.{
  ℕ, ◌≡◌, refl, sym, ap, ◌∙◌, arith, Bool, true, false, not, ◌&&◌, ◌||◌, Option, none, some, List,
  [], ◌∷◌, Bool-cases, inl, inr, ◌==◌, if◌then◌else◌,
}
use mathlib.Core.Option.{none-ne-some}
use aws_s3fs.Fuse.Access.{S3FileInfo, System, is_readable, is_executable, is_writeable}
use aws_s3fs.Fuse.Directories.{
  Errno, eacces, Status, success, failure, Stat, found, not_found, FileStat, directory_type,
  validate_directory_components,
}
use aws_s3fs.Fuse.Operations.{
  OpenFlags, set_open_flags, check_file, open_file, open_in_parent, then_status, s3fs_open,
}

abbrev is_success : Status → Bool
is_success success = true
is_success (failure e) = false

abbrev succeeds : Option Status → Bool
succeeds none = false
succeeds (some status) = is_success status

-- The permissions that a file must have for the access that the flags ask for.
pub record IsPermitted (system : System) (flags : OpenFlags) (fi : S3FileInfo) : Type 0 where
  pub write : flags.of_wronly ≡ true → is_writeable system fi ≡ true
  pub both : flags.of_rdwr ≡ true → is_writeable system fi ≡ true
  pub read : flags.of_wronly ≡ false → (is_readable system fi ≡ true)
  pub directory :
      (flags.of_wronly || flags.of_rdwr) ≡ true → (fi.file_type == directory_type) ≡ false
  pub link : flags.of_nofollow ≡ true → (fi.file_type == b'l') ≡ false

flags_success :
    (wronly rdwr append w r : Bool)
    → is_success (
        if wronly && w
        then success
        else (if not (wronly || rdwr) || (rdwr || append)
            then (if (rdwr || append) && not w
                then failure eacces
                else (if r then success else failure eacces))
            else failure eacces))
      ≡ true
    → (wronly ≡ true → w ≡ true) × (rdwr ≡ true → w ≡ true) × (wronly ≡ false → r ≡ true)
flags_success wronly rdwr append w r h =
    (λ e. ground (arith, h, e), λ e. ground (arith, h, e), λ e. ground (arith, h, e))

check_file_success :
    (system : System) (flags : ℕ) (fi : S3FileInfo)
    → is_success (check_file system (set_open_flags flags) fi) ≡ true
    → ((set_open_flags flags).of_wronly ≡ true → is_writeable system fi ≡ true)
      × ((set_open_flags flags).of_rdwr ≡ true → is_writeable system fi ≡ true)
      × ((set_open_flags flags).of_wronly ≡ false → is_readable system fi ≡ true)
unfolding check_file set_open_flags
check_file_success system flags fi h =
    let f = set_open_flags flags in
    flags_success f.of_wronly f.of_rdwr f.of_append (is_writeable system fi) (is_readable system fi)
      h

false_true : {A : Type 0} → false ≡ true → A
false_true h = absurd (ground (arith, h))

nothing_to_write : (a b : Bool) → (a || b) ≡ false → (a || b) ≡ true → false ≡ true
nothing_to_write a b h k = sym h ∙ k

open_file_success :
    (system : System) (flags : ℕ) (parent_fi fi : S3FileInfo)
    → is_success (open_file system (set_open_flags flags) parent_fi (found fi)) ≡ true
    → IsPermitted system (set_open_flags flags) fi
unfolding open_file
open_file_success system flags parent_fi fi h =
    let f = set_open_flags flags in
    elim (Bool-cases (f.of_nofollow && (fi.file_type == b'l'))) [
      | inl link ↦ false_true (sym (rw link refl) ∙ h)
      | inr no_link ↦ elim (Bool-cases (f.of_wronly || f.of_rdwr)) [
        | inl writes ↦ elim (Bool-cases (fi.file_type == directory_type)) [
          | inl directory ↦ false_true (sym (rw (no_link, writes, directory) refl) ∙ h)
          | inr file ↦ elim (Bool-cases (is_executable system parent_fi)) [
            | inl reachable ↦
                let (write, both, read) =
                  check_file_success system flags fi
                    (sym (rw (no_link, writes, file, reachable) refl) ∙ h) in
                record {
                  write = write;
                  both = both;
                  read = read;
                  directory = λ e. file;
                  link = λ e. ground (arith, no_link, e);
                }
            | inr no_search ↦ false_true (sym (rw (no_link, writes, file, no_search) refl) ∙ h)
          ]
        ]
        | inr reads ↦
            let (write, both, read) =
              check_file_success system flags fi (sym (rw (no_link, reads) refl) ∙ h) in
            record {
              write = write;
              both = both;
              read = read;
              directory = λ e. false_true (nothing_to_write f.of_wronly f.of_rdwr reads e);
              link = λ e. ground (arith, no_link, e);
            }
      ]
    ]

-- A file that is found behind a parent that is found.
abbrev pub Opened : System → OpenFlags → Stat → Stat → Type 0
Opened system flags parent (not_found e) = ⊥
Opened system flags (not_found e) (found fi) = ⊥
Opened system flags (found parent_fi) (found fi) =
    (is_executable system parent_fi ≡ true) × IsPermitted system flags fi

no_file_fails :
    (system : System) (flags : ℕ) (parent_fi : S3FileInfo) (e : Errno)
    → is_success (open_file system (set_open_flags flags) parent_fi (not_found e)) ≡ false
unfolding open_file
no_file_fails system flags parent_fi e = refl

open_in_parent_success :
    (system : System) (flags : ℕ) (parent file : Stat)
    → is_success (open_in_parent system (set_open_flags flags) parent file) ≡ true
    → Opened system (set_open_flags flags) parent file
unfolding open_in_parent
open_in_parent_success system flags (not_found e) (not_found e') h = false_true h
open_in_parent_success system flags (not_found e) (found fi) h = false_true h
open_in_parent_success system flags (found parent_fi) (not_found e) h =
    elim (Bool-cases (is_executable system parent_fi)) [
      | inl reachable ↦ false_true (sym (rw reachable (no_file_fails system flags parent_fi e)) ∙ h)
      | inr no_search ↦ false_true (sym (rw no_search refl) ∙ h)
    ]
open_in_parent_success system flags (found parent_fi) (found fi) h =
    elim (Bool-cases (is_executable system parent_fi)) [
      | inl reachable ↦
          (reachable, open_file_success system flags parent_fi fi (sym (rw reachable refl) ∙ h))
      | inr no_search ↦ false_true (sym (rw no_search refl) ∙ h)
    ]

then_success :
    (first next : Option Status) → then_status first next ≡ some success → next ≡ some success
unfolding then_status
then_success none next h = absurd (none-ne-some success h)
then_success (some success) next h = h
then_success (some (failure e)) next h = false_true (ap succeeds h)

-- If `s3fs_open` succeeds, the file and its directory are found, and the user may search the directory, write the file
-- if it is opened for writing or for both, and read it unless it is opened for writing; it is no directory if it is
-- opened for writing or for both, and no symbolic link if links are not to be followed.
pub s3fs_open-IsPermitted :
    (dirname : List ℕ → List ℕ) (stat : FileStat) (system : System) (path : List ℕ) (flags : ℕ)
    → s3fs_open dirname stat system path flags ≡ some success
    → Opened system (set_open_flags flags) (stat (dirname path)) (stat path)
unfolding s3fs_open
s3fs_open-IsPermitted dirname stat system [] flags h = false_true (ap succeeds h)
s3fs_open-IsPermitted dirname stat system (ch ∷ path) flags h =
    let status =
      open_in_parent system (set_open_flags flags) (stat (dirname (ch ∷ path)))
        (stat (ch ∷ path)) in
    let opened =
      then_success (validate_directory_components dirname stat system false (ch ∷ path))
        (some status) h in
    open_in_parent_success system flags (stat (dirname (ch ∷ path))) (stat (ch ∷ path))
      (ap succeeds opened)
