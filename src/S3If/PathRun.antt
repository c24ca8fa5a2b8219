-- ===== src/S3If/PathRun.antt =====
-- The paths that `StripTrailingSlash`, `GetParentDir` and `CleanPath` of src/s3if.c give.
use aws_s3fs.Common.{
  ℕ, zero, suc, ◌+◌, ◌-◌, ◌≡◌, ◌≤◌, ◌<◌, refl, sym, ap, ◌∙◌, arith, Bool, true, false, Bool-cases,
  inl, inr, some, List, [], ◌∷◌, ◌++◌, length, length-append, length-replicate, take, take-append,
  take-append_ge, take_of_length-le, take-replicate, replicate, get_or, ◌==◌, All,
}
use aws_s3fs.S3If.Path.{slash_index, get_parent_dir, strip_loop, strip_trailing_slash, clean_loop}

-- The element behind a list.
get_or-append :
    (path rest : List ℕ) (n : ℕ) → get_or (path ++ rest) (length path + n) 0 ≡ get_or rest n 0
get_or-append [] rest n = ap (λ (k : ℕ). get_or rest k 0) (omega arith)
get_or-append (p ∷ path) rest n =
    let e : suc (length path) + n ≡ suc (length path + n) = omega arith in
    rw e (get_or-append path rest n)

get_or-replicate : (n c : ℕ) → get_or (replicate (suc n) c) n 0 ≡ c
get_or-replicate zero c = refl
get_or-replicate (suc n) c = get_or-replicate n c

strip_loop_stop :
    (dirname : List ℕ) (k : ℕ)
    → (get_or dirname k 0 == b'/') ≡ false
    → strip_loop dirname k ≡ dirname
unfolding strip_loop
strip_loop_stop dirname zero h = refl
strip_loop_stop dirname (suc k) h = rw h refl

module _ (path : List ℕ) (c : ℕ) (differs : (c == b'/') ≡ false) where
  abbrev ending : ℕ → List ℕ
  ending n = path ++ (c ∷ replicate n b'/')

  one_less : (n : ℕ) → take (length path + suc n) (ending (suc n)) ≡ ending n
  one_less n =
      let gap : (length path + suc n) - length path ≡ suc n = omega arith in
      take-append_ge (length path + suc n) path (c ∷ replicate (suc n) b'/') (omega arith)
      ∙ rw gap (ap (λ (l : List ℕ). path ++ (c ∷ l)) (take-replicate n (suc n) b'/' (omega arith)))

  strip_loop-ending : (n : ℕ) → strip_loop (ending n) (length path + n) ≡ ending 0
  unfolding strip_loop
  strip_loop-ending (suc n) =
      let index : length path + suc n ≡ suc (length path + n) = omega arith in
      let last : get_or (ending (suc n)) (suc (length path + n)) 0 ≡ b'/' =
        ap (λ (k : ℕ). get_or (ending (suc n)) k 0) (sym index)
        ∙ get_or-append path (c ∷ replicate (suc n) b'/') (suc n)
        ∙ get_or-replicate n b'/' in
      let shorter : take (suc (length path + n)) (ending (suc n)) ≡ ending n =
        ap (λ (k : ℕ). take k (ending (suc n))) (sym index) ∙ one_less n in
      rw (index, last, shorter) (strip_loop-ending n)
  strip_loop-ending zero =
      strip_loop_stop (ending 0) (length path + 0) (rw (get_or-append path (c ∷ []) 0) differs)

-- All slashes at the end of a path are stripped, and nothing else.
pub strip_trailing_slash-slashes :
    (path : List ℕ) (c n : ℕ)
    → (c == b'/') ≡ false
    → strip_trailing_slash (path ++ (c ∷ replicate n b'/')) ≡ some (path ++ (c ∷ []))
unfolding strip_trailing_slash
strip_trailing_slash-slashes [] c n differs =
    let last : suc (length (replicate {A = ℕ} n b'/')) - 1 ≡ 0 + n =
      omega (arith, length-replicate {A = ℕ} n b'/') in
    rw last (ap some (strip_loop-ending [] c differs n))
strip_trailing_slash-slashes (p ∷ path) c n differs =
    let last : suc (length (path ++ (c ∷ replicate n b'/'))) - 1 ≡ suc (length path) + n =
      omega (arith, length-append path (c ∷ replicate n b'/'), length-replicate {A = ℕ} n b'/') in
    rw last (ap some (strip_loop-ending (p ∷ path) c differs n))

clean_loop_escaped : (rest : List ℕ) (slash_found : Bool) → clean_loop true slash_found rest ≡ []
unfolding clean_loop
clean_loop_escaped [] slash_found = refl
clean_loop_escaped (r ∷ rest) slash_found = clean_loop_escaped rest slash_found

-- A path that is cleaned keeps nothing behind its first backslash.
clean_loop-backslash :
    (path rest : List ℕ) (slash_found : Bool)
    → All (λ (c : ℕ). (c == b'\\') ≡ false) path
    → clean_loop false slash_found (path ++ (b'\\' ∷ rest))
      ≡ clean_loop false slash_found path ++ (b'\\' ∷ [])
unfolding clean_loop
clean_loop-backslash [] rest slash_found h =
    ap (λ (l : List ℕ). b'\\' ∷ l) (clean_loop_escaped rest false)
clean_loop-backslash (p ∷ path) rest slash_found (h, hs) = elim (Bool-cases (p == b'/')) [
  | inl slash ↦ elim (Bool-cases slash_found) [
    | inl found ↦ rw (slash, found, h, clean_loop-backslash path rest true hs) refl
    | inr fresh ↦ rw (slash, fresh, h, clean_loop-backslash path rest true hs) refl
  ]
  | inr other ↦ rw (other, h, clean_loop-backslash path rest false hs) refl
]

get_or-All :
    (P : ℕ → Type 0) (name : List ℕ) (k : ℕ) → All P name → k < length name → P (get_or name k 0)
get_or-All P [] k h less = absurd (omega arith)
get_or-All P (x ∷ name) zero (h, hs) less = h
get_or-All P (x ∷ name) (suc k) (h, hs) less = get_or-All P name k hs (omega arith)

module _ (d : ℕ) (dir name : List ℕ) (plain : All (λ (c : ℕ). (c == b'/') ≡ false) name) where
  abbrev whole : List ℕ
  whole = d ∷ (dir ++ (b'/' ∷ name))

  slash_index-dir :
      (k : ℕ) → k ≤ length name → slash_index whole (suc (length dir) + k) ≡ suc (length dir)
  unfolding slash_index
  slash_index-dir zero less =
      let index : suc (length dir) + 0 ≡ suc (length dir) = omega arith in
      let same : length dir ≡ length dir + 0 = omega arith in
      let slash : get_or (dir ++ (b'/' ∷ name)) (length dir) 0 ≡ b'/' =
        ap (λ (i : ℕ). get_or (dir ++ (b'/' ∷ name)) i 0) same
        ∙ get_or-append dir (b'/' ∷ name) 0 in
      rw (index, slash) refl
  slash_index-dir (suc k) less =
      let index : suc (length dir) + suc k ≡ suc (suc (length dir) + k) = omega arith in
      let inner : suc (length dir) + k ≡ length dir + suc k = omega arith in
      let char : get_or (dir ++ (b'/' ∷ name)) (suc (length dir) + k) 0 ≡ get_or name k 0 =
        ap (λ (i : ℕ). get_or (dir ++ (b'/' ∷ name)) i 0) inner
        ∙ get_or-append dir (b'/' ∷ name) (suc k) in
      let differs = get_or-All (λ (c : ℕ). (c == b'/') ≡ false) name k plain (omega arith) in
      rw (index, char, differs) (slash_index-dir k (omega arith))

  -- The parent of a path is what stands before its last slash, when that is not its first character.
  get_parent_dir-dir : get_parent_dir whole ≡ some (d ∷ dir)
  unfolding get_parent_dir
  get_parent_dir-dir =
      let last : length whole - 1 ≡ suc (length dir) + length name =
        omega (arith, length-append dir (b'/' ∷ name)) in
      let kept : take (suc (length dir)) whole ≡ d ∷ dir =
        ap (λ (l : List ℕ). d ∷ l)
          (take-append (length dir) dir (b'/' ∷ name) (omega arith)
            ∙ take_of_length-le (length dir) dir (omega arith)) in
      let some_dir : (suc (length dir) == 0) ≡ false = ground arith in
      rw (last, slash_index-dir (length name) (omega arith), kept, some_dir) refl
