-- ===== src/Pages/Assets.antt =====
-- `hashAssets` of pages.go: the version under which the pages name the assets.
-- `fs.WalkDir` gives the entries that it would visit, in its order, and stops when the visit of one
-- returns an error. SHA-256 and the encoding are arguments.
use semantic_echo.Base.{
  ◌≤◌, ◌≡◌, refl, sym, ap, ◌∙◌, Bool, true, false, ◌||◌, List, [], ◌∷◌, ◌++◌, Option, none, some,
  if◌then◌else◌, ltb, length, take, arith, append_assoc, append-nil, ◌⊎◌, inl, inr,
}
use semantic_echo.Base.Text.{Bytes}

-- What the visit of one entry is called with, and what `ReadFile` finds at its path.
pub record Entry : Type 0 where
  pub path : Bytes
  pub failed : Bool
  pub is_dir : Bool
  pub content : Option Bytes

-- What a visit writes to the sum; none if it returns an error.
unfoldable pub visit : Entry → Option Bytes
visit e =
    if e.failed || e.is_dir
    then (if e.failed then none else some [])
    else elim e.content [ none ↦ none | some content ↦ some (e.path ++ content) ]

-- The bytes that the sum has seen when the walk ends, `sum` of them before it.
unfoldable pub walk_assets : Bytes → List Entry → Bytes
walk_assets sum [] = sum
walk_assets sum (e ∷ es) = elim (visit e) [
  | none ↦ sum
  | some written ↦ walk_assets (sum ++ written) es
]

-- The slice panics on a text that is too short: none.
unfoldable pub hash_assets : (Bytes → Bytes) → (Bytes → Bytes) → List Entry → Option Bytes
unfolding walk_assets
hash_assets sha256 encode es =
    let text = encode (sha256 (walk_assets [] es)) in
    if ltb (length text) 10 then none else some (take 10 text)

-- A file that is read, as its path and data.
abbrev pub file : Bytes × Bytes → Entry
file (path, content) = record {
  path = path;
  failed = false;
  is_dir = false;
  content = some content;
}

abbrev pub IsDir : Entry → Type 0
IsDir e = (e.failed ≡ false) × (e.is_dir ≡ true)

abbrev pub Fails : Entry → Type 0
Fails e = (e.failed ≡ true) ⊎ ((e.is_dir ≡ false) × (e.content ≡ none))

-- A walk that visits these files, and directories between them.
pub data Visits : List (Bytes × Bytes) → List Entry → Type 0 where
  ends : Visits [] []
  stops_at : {es : List Entry} (e : Entry) → Fails e → Visits [] (e ∷ es)
  enters :
      {fs : List (Bytes × Bytes)} {es : List Entry} (e : Entry)
      → IsDir e
      → Visits fs es
      → Visits fs (e ∷ es)
  reads :
      {fs : List (Bytes × Bytes)} {es : List Entry} (f : Bytes × Bytes)
      → Visits fs es
      → Visits (f ∷ fs) (file f ∷ es)

abbrev pub joined : List (Bytes × Bytes) → Bytes
joined [] = []
joined ((path, content) ∷ fs) = path ++ content ++ joined fs

visit-Fails : (e : Entry) → Fails e → visit e ≡ none
unfolding visit
visit-Fails e (inl h) = rw h refl
visit-Fails e (inr (h, k)) = ground (arith, h, k)

visit-IsDir : (e : Entry) → IsDir e → visit e ≡ some []
unfolding visit
visit-IsDir e (h, k) = rw (h, k) refl

visit-file : (f : Bytes × Bytes) → visit (file f) ≡ some (f.0 ++ f.1)
unfolding visit
visit-file f = refl

walk_stops :
    (sum : Bytes) (e : Entry) (es : List Entry) → visit e ≡ none → walk_assets sum (e ∷ es) ≡ sum
unfolding walk_assets
walk_stops sum e es h = rw (h, walk_assets) refl

walk_goes :
    (sum written : Bytes) (e : Entry) (es : List Entry)
    → visit e ≡ some written
    → walk_assets sum (e ∷ es) ≡ walk_assets (sum ++ written) es
unfolding walk_assets
walk_goes sum written e es h = rw (h, walk_assets) refl

walk_assets-joined :
    {fs : List (Bytes × Bytes)} {es : List Entry} (sum : Bytes)
    → Visits fs es
    → walk_assets sum es ≡ sum ++ joined fs
unfolding walk_assets
walk_assets-joined sum ends = sym (append-nil sum)
walk_assets-joined sum (stops_at {es} e h) =
    walk_stops sum e es (visit-Fails e h) ∙ sym (append-nil sum)
walk_assets-joined {fs} sum (enters {es} e h v) =
    walk_goes sum [] e es (visit-IsDir e h)
    ∙ ap (λ (t : Bytes). walk_assets t es) (append-nil sum)
    ∙ walk_assets-joined sum v
walk_assets-joined sum (reads {fs} {es} (path, content) v) =
    walk_goes sum (path ++ content) (file (path, content)) es (visit-file (path, content))
    ∙ walk_assets-joined (sum ++ (path ++ content)) v
    ∙ append_assoc sum (path ++ content) (joined fs)

-- The version of the assets is the head of the digest of the paths and contents of the files that the
-- walk reads before the first entry that fails, each path before its content, one file behind the
-- other, directories apart, where the text of the digest has ten bytes or more.
pub hash_assets-joined :
    (sha256 encode : Bytes → Bytes) {fs : List (Bytes × Bytes)} {es : List Entry}
    → Visits fs es
    → 10 ≤ length (encode (sha256 (joined fs)))
    → hash_assets sha256 encode es ≡ some (take 10 (encode (sha256 (joined fs))))
unfolding hash_assets
hash_assets-joined sha256 encode {fs} {es} v long =
    let same = walk_assets-joined [] v in rw same (ground (arith, long))
