-- ===== src/S3If/CleanRun.antt =====
-- The paths that `CleanPath` and `S3FileStat` of src/s3if.c look up.
use aws_s3fs.Common.{
  ℕ, zero, suc, ◌≡◌, refl, sym, ap, ◌∙◌, Bool, true, false, ◌&&◌, Bool-cases, inl, inr, some, List,
  [], ◌∷◌, ◌++◌, replicate, ◌==◌, ==_iff, if◌then◌else◌, All,
}
use aws_s3fs.S3If.Path.{clean_loop, skip_slashes, stat_filename}
use aws_s3fs.S3If.PathRun.{strip_trailing_slash-slashes}

-- No slash behind a slash; the flag says that one stands before the path.
unfoldable pub SingleSlashes : Bool → List ℕ → Type 0
SingleSlashes behind [] = Unit {0}
SingleSlashes behind (ch ∷ path) =
    ((behind && (ch == b'/')) ≡ false) × SingleSlashes (ch == b'/') path

-- A path in which each slash that another one follows is left out.
unfoldable pub squeeze : List ℕ → List ℕ
squeeze [] = []
squeeze (ch ∷ []) = ch ∷ []
squeeze (ch ∷ next ∷ path) =
    let rest = squeeze (next ∷ path) in if ch == b'/' && next == b'/' then rest else ch ∷ rest

and_false : (b : Bool) → (b && false) ≡ false
and_false true = refl
and_false false = refl

clean_loop_single :
    (path : List ℕ) (escaped found : Bool) → SingleSlashes found (clean_loop escaped found path)
unfolding clean_loop SingleSlashes
clean_loop_single [] escaped found = tt
clean_loop_single (ch ∷ path) true found = clean_loop_single path true found
clean_loop_single (ch ∷ path) false found = elim (Bool-cases (ch == b'/')) [
  | inl slash ↦ elim (Bool-cases found) [
    | inl behind ↦ rw (slash, behind) (clean_loop_single path (ch == b'\\') true)
    | inr fresh ↦ rw (slash, fresh, slash) (refl, clean_loop_single path (ch == b'\\') true)
  ]
  | inr other ↦ rw (other, other) (and_false found, clean_loop_single path (ch == b'\\') false)
]

squeeze-other :
    (ch : ℕ) (path : List ℕ) → (ch == b'/') ≡ false → squeeze (ch ∷ path) ≡ ch ∷ squeeze path
unfolding squeeze
squeeze-other ch [] h = refl
squeeze-other ch (next ∷ path) h = rw h refl

-- What is left behind a slash, which stands for the slashes before it.
clean_loop-squeeze :
    (path : List ℕ)
    → All (λ (c : ℕ). (c == b'\\') ≡ false) path
    → (clean_loop false false path ≡ squeeze path)
      × (b'/' ∷ clean_loop false true path ≡ squeeze (b'/' ∷ path))
unfolding clean_loop squeeze
clean_loop-squeeze [] h = (refl, refl)
clean_loop-squeeze (ch ∷ path) (h, hs) =
    let (fresh, behind) = clean_loop-squeeze path hs in
    elim (Bool-cases (ch == b'/')) [
      | inl slash ↦
          let same : ch ≡ b'/' = (==_iff ch b'/').0 slash in
          let squeezed : b'/' ∷ clean_loop false true path ≡ squeeze (ch ∷ path) =
            behind ∙ ap (λ (c : ℕ). squeeze (c ∷ path)) (sym same) in
          (
            rw (slash, h) (ap (λ (c : ℕ). c ∷ clean_loop false true path) same ∙ squeezed),
            rw (slash, h) squeezed,
          )
      | inr other ↦
          let one = squeeze-other ch path other in
          (
            rw (other, h, one) (ap (λ (l : List ℕ). ch ∷ l) fresh),
            rw (other, h, one) (ap (λ (l : List ℕ). b'/' ∷ (ch ∷ l)) fresh),
          )
    ]

-- The loop that cleans a path without a backslash leaves out each slash that another one follows, and keeps every
-- other byte; no two slashes in a row are left.
pub clean_loop-SingleSlashes :
    (path : List ℕ)
    → All (λ (c : ℕ). (c == b'\\') ≡ false) path
    → (clean_loop false false path ≡ squeeze path)
      × SingleSlashes false (clean_loop false false path)
clean_loop-SingleSlashes path h =
    ((clean_loop-squeeze path h).0, clean_loop_single path false false)

skip_slashes-replicate :
    (n ch : ℕ) (path : List ℕ)
    → (ch == b'/') ≡ false
    → skip_slashes (replicate n b'/' ++ (ch ∷ path)) ≡ ch ∷ path
unfolding skip_slashes
skip_slashes-replicate zero ch path h = rw h refl
skip_slashes-replicate (suc n) ch path h = skip_slashes-replicate n ch path h

-- The name of a file, of two characters or more of which neither the first nor the last is a slash,
-- is looked up with one slash before it and none behind it, however many there are.
stat_filename-slashes :
    (before after ch last : ℕ) (path : List ℕ)
    → (ch == b'/') ≡ false
    → (last == b'/') ≡ false
    → stat_filename (replicate before b'/' ++ (ch ∷ (path ++ (last ∷ replicate after b'/'))))
      ≡ some (b'/' ∷ (ch ∷ (path ++ (last ∷ []))))
unfolding stat_filename
stat_filename-slashes before after ch last path h hl =
    rw (skip_slashes-replicate before ch (path ++ (last ∷ replicate after b'/')) h)
      (strip_trailing_slash-slashes (b'/' ∷ (ch ∷ path)) last after hl)
