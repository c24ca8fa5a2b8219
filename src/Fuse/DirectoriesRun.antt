-- ===== src/Fuse/DirectoriesRun.antt =====
-- The loop over the directories of a path in src/fuseif.c.
use aws_s3fs.Common.{and_false}
use aws_s3fs.Common.{
  ℕ, zero, suc, ◌+◌, ◌-◌, ◌≡◌, ◌≤◌, ◌<◌, refl, ap, ◌∙◌, arith, Bool, true, false, not, ◌&&◌, Option,
  none, some, List, [], ◌∷◌, ◌++◌, length, length-drop, drop, drop_of_length-le, take, All,
  Bool-cases, inl, inr, ltb, ◌==◌, if◌then◌else◌,
}
use aws_s3fs.Base64.Encode.{codes}
use aws_s3fs.Fuse.Access.{System, is_executable}
use aws_s3fs.Fuse.Directories.{
  Errno, enoent, enotdir, eacces, Stat, found, Status, success, failure, not_found, directory_type,
  FileStat, scan_component, skip_slashes_from, get_next_path_component, examine_component, go_on,
  validate_component, validate_loop, validate_directory_components,
}

skip-length : (path : List ℕ) → length (skip_slashes_from path) ≤ length path
unfolding skip_slashes_from
skip-length [] = omega arith
skip-length (ch ∷ path) =
    let rest = skip-length path in
    elim (Bool-cases (ch == b'/')) [
      | inl slash ↦ rw slash (omega (arith, rest))
      | inr other ↦ rw other (omega arith)
    ]

scan-length : (escaped : Bool) (path : List ℕ) → scan_component escaped path ≤ length path
unfolding scan_component
scan-length escaped [] = omega arith
scan-length escaped (ch ∷ path) =
    let rest = scan-length (ch == b'\\' && not escaped) path in
    elim (Bool-cases (ch == b'/' && escaped)) [
      | inl slash ↦ rw slash (omega arith)
      | inr other ↦ rw other (omega (arith, rest))
    ]

-- What is left after a component is shorter.
abbrev Shorter : List ℕ → Option (List ℕ) × List ℕ → Type 0
Shorter path (none, rest) = Unit {0}
Shorter path (some component, rest) = length rest < length path

next_component-Shorter : (path : List ℕ) → Shorter path (get_next_path_component path)
unfolding get_next_path_component
next_component-Shorter path =
    let end_pos = scan_component false path in
    let component_length : ℕ = if end_pos == length path then end_pos - 1 else end_pos in
    let within = scan-length false path in
    elim (Bool-cases (ltb 0 component_length)) [
      | inl some_length ↦
          let positive : 0 < end_pos = ground (arith, some_length) in
          let left = skip-length (drop end_pos path) in
          let dropped = length-drop end_pos path in
          rw some_length (omega (arith, left, dropped, within, positive))
      | inr none_left ↦ rw none_left tt
    ]

abbrev Returns : Option Status → Type 0
Returns o = (status : Status) × (o ≡ some status)

go_on-Returns :
    (found_error : Option Errno) (rest : Option Status)
    → Returns rest
    → Returns (go_on found_error rest)
unfolding go_on
go_on-Returns none rest r = r
go_on-Returns (some e) rest r = (failure e, refl)

component-Returns :
    (stat : FileStat) (system : System) (verify : Bool) (rest : List ℕ → List ℕ → Option Status)
    (accumulated path : List ℕ) (next : Option (List ℕ) × List ℕ)
    → Shorter path next
    → ((accumulated left : List ℕ) → length left < length path → Returns (rest accumulated left))
    → Returns (validate_component stat system verify rest accumulated next)
unfolding validate_component
component-Returns stat system verify rest accumulated path (none, left) shorter r = (success, refl)
component-Returns stat system verify rest accumulated path (some component, left) shorter r =
    go_on-Returns (examine_component system verify (stat (accumulated ++ component)))
      (rest (accumulated ++ (component ++ codes "/")) left)
      (r (accumulated ++ (component ++ codes "/")) left shorter)

validate_loop-Returns :
    (fuel : ℕ) (stat : FileStat) (system : System) (verify : Bool) (accumulated path : List ℕ)
    → length path < fuel
    → Returns (validate_loop fuel stat system verify accumulated path)
unfolding validate_loop
validate_loop-Returns zero stat system verify accumulated path enough =
    absurd (omega (arith, enough))
validate_loop-Returns (suc fuel) stat system verify accumulated path enough =
    component-Returns stat system verify (validate_loop fuel stat system verify) accumulated path
      (get_next_path_component path) (next_component-Shorter path)
      (λ accumulated' left shorter.
        validate_loop-Returns fuel stat system verify accumulated' left
          (omega (arith, enough, shorter)))

-- The loop over the directories of a path ends with a status, within one round more than the directory's name has bytes.
pub validate_directory_components-total :
    (dirname : List ℕ → List ℕ) (stat : FileStat) (system : System) (verify : Bool) (path : List ℕ)
    → (status : Status) × (validate_directory_components dirname stat system verify path
        ≡ some status)
unfolding validate_directory_components
validate_directory_components-total dirname stat system verify path =
    validate_loop-Returns (length (dirname path) + 1) stat system verify [] (dirname path)
      (omega arith)

-- A name without a backslash is one component, less its last byte.
scan_whole :
    (path : List ℕ)
    → All (λ ch. (ch == b'\\') ≡ false) path
    → scan_component false path ≡ length path
unfolding scan_component
scan_whole [] h = refl
scan_whole (ch ∷ path) h = rw (h.0, scan_whole path h.1, and_false (ch == b'/')) refl

-- Such a name, of at least two bytes, as a component.
whole_component :
    (path : List ℕ)
    → 1 < length path
    → All (λ ch. (ch == b'\\') ≡ false) path
    → get_next_path_component path ≡ (some (take (length path - 1) path), [])
unfolding get_next_path_component skip_slashes_from
whole_component path long plain =
    let same : (length path == length path) ≡ true = ground arith in
    let positive : ltb 0 (length path - 1) ≡ true = ground (arith, long) in
    rw (scan_whole path plain, same, positive, drop_of_length-le (length path) path (omega arith))
      refl

-- The result for a single file with this information.
abbrev pub answer_for : System → Bool → Stat → Status
answer_for system verify (not_found e) = failure enoent
answer_for system verify (found file_info) =
    if file_info.file_type == directory_type
    then (if verify && not (is_executable system file_info) then failure eacces else success)
    else failure enotdir

last_component :
    (system : System) (verify : Bool) (stat : Stat)
    → go_on (examine_component system verify stat) (some success)
      ≡ some (answer_for system verify stat)
unfolding go_on examine_component
last_component system verify (not_found e) = refl
last_component system verify (found fi) = elim (Bool-cases (fi.file_type == directory_type)) [
  | inl dir ↦ elim (Bool-cases (verify && not (is_executable system fi))) [
    | inl refused ↦ rw (dir, refused) refl
    | inr allowed ↦ rw (dir, allowed) refl
  ]
  | inr other ↦ rw other refl
]

nothing_left :
    (fuel : ℕ) (stat : FileStat) (system : System) (verify : Bool) (accumulated : List ℕ)
    → 0 < fuel
    → validate_loop fuel stat system verify accumulated [] ≡ some success
unfolding validate_loop validate_component get_next_path_component scan_component
nothing_left zero stat system verify accumulated h = absurd (omega (arith, h))
nothing_left (suc fuel) stat system verify accumulated h = refl

-- A directory name of at least two bytes without a backslash is not split at its slashes: the result depends on
-- the information on one file only, which is the name less its last byte. It is -ENOENT if there is none, -ENOTDIR
-- if that is no directory, -EACCES if it has to be executable and is not, and success otherwise.
pub validate_directory_components-cut :
    (dirname : List ℕ → List ℕ) (stat : FileStat) (system : System) (verify : Bool) (path : List ℕ)
    → 1 < length (dirname path)
    → All (λ ch. (ch == b'\\') ≡ false) (dirname path)
    → validate_directory_components dirname stat system verify path
      ≡ some (answer_for system verify (stat (take (length (dirname path) - 1) (dirname path))))
unfolding validate_directory_components validate_loop validate_component
validate_directory_components-cut dirname stat system verify path long plain =
    let prefix = dirname path in
    let cut = take (length prefix - 1) prefix in
    let one_more : length prefix + 1 ≡ suc (length prefix) = omega arith in
    ap (λ n. validate_loop n stat system verify [] prefix) one_more
    ∙ (ap
          (validate_component stat system verify (validate_loop (length prefix) stat system verify)
            [])
          (whole_component prefix long plain)
        ∙ (ap (go_on (examine_component system verify (stat cut))) (
              nothing_left (length prefix) stat system verify (cut ++ codes "/")
                (omega (arith, long)))
            ∙ last_component system verify (stat cut)))
