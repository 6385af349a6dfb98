-- ===== src/Fs/Tree/Fuel.antt =====
-- The recursion of optimize_dir_structure (s5_fs/src/actor/sharding.rs): each level works on paths
-- that are shorter by their first name and its slash.
use s5_rs.Base.{
  ℕ, zero, suc, ◌+◌, ◌≤◌, ◌<◌, ◌≡◌, refl, ap, ◌∙◌, Bytes, Bool, true, false, Option, none, some,
  List, [], ◌∷◌, All, length, length-append, keep, if◌then◌else◌, is_same, is_same_eq, bytes_ord,
  arith, Bool-cases, inl, inr, ltb, lt, eq, gt, Ordering, Option-cases,
}
use s5_rs.BTreeMap
use s5_rs.BTreeMap.{BTreeMap, keys}
use s5_rs.Fs.Dir.{DirV1, new_dir, DirRef, FileRef}
use s5_rs.Fs.CreateDir.{slash_after, strip_prefix, move_file, move_files}
use s5_rs.Fs.CreateDir.Extract.{strip_prefix-some}
use s5_rs.Fs.Tree.{path, Children, no_children, child, actor, split_once}
use s5_rs.Fs.Tree.Promotion.{
  DirCodec, in_group, promotion_threshold, prefixes, gather, longest, clean, optimize_groups,
  optimize_dir_structure,
}
use s5_rs.Fs.Tree.Groups.{Files}

-- The paths of some files have at most a given length.
abbrev AreShort : ℕ → Files → Type 0
AreShort n files = All (λ e. length e.0 ≤ n) files

longest-AreShort : (n : ℕ) (files : Files) → longest (keys files) ≤ n → AreShort n files
unfolding longest
longest-AreShort n [] h = tt
longest-AreShort n ((p, f) ∷ files) h =
    let here : length p ≤ n = ground (arith, h) in
    let below : longest (keys files) ≤ n = ground (arith, h) in
    (here, longest-AreShort n files below)

get-AreShort :
    (n : ℕ) (files : Files) (p : Bytes) {f : FileRef}
    → AreShort n files
    → BTreeMap.get files p ≡ some f
    → length p ≤ n
unfolding BTreeMap.get
get-AreShort n [] p short h = absurd (ground (arith, h))
get-AreShort n ((q, g) ∷ files) p {f = f} short h = elim (Bool-cases (is_same q p)) [
  | inl e ↦ let same = ap length (is_same_eq q p e) in omega (arith, same, short.0)
  | inr e ↦ get-AreShort n files p {f = f} short.1 (ground (arith, e, h))
]

insert-AreShort :
    (n : ℕ) (files : Files) (p : Bytes) (f : FileRef)
    → AreShort n files
    → length p ≤ n
    → AreShort n (BTreeMap.insert files p f)
unfolding BTreeMap.insert
insert-AreShort n [] p f short h = (h, tt)
insert-AreShort n ((q, g) ∷ files) p f short h =
    placed (bytes_ord.cmp p q) (insert-AreShort n files p f short.1 h)
  where
    placed :
        (o : Ordering)
        → AreShort n (BTreeMap.insert files p f)
        → AreShort n (elim o [
          | lt ↦ (p, f) ∷ (q, g) ∷ files
          | eq ↦ (p, f) ∷ files
          | gt ↦ (q, g) ∷ BTreeMap.insert files p f
        ])
    placed lt rest = (h, short)
    placed eq rest = (h, short.1)
    placed gt rest = (short.0, rest)

remove-AreShort :
    (n : ℕ) (files : Files) (p : Bytes) → AreShort n files → AreShort n (BTreeMap.remove files p)
unfolding BTreeMap.remove
remove-AreShort n [] p short = tt
remove-AreShort n ((q, g) ∷ files) p short =
    placed (is_same q p) (remove-AreShort n files p short.1)
  where
    placed :
        (b : Bool)
        → AreShort n (BTreeMap.remove files p)
        → AreShort n (if b then BTreeMap.remove files p else (q, g) ∷ BTreeMap.remove files p)
    placed true rest = rest
    placed false rest = (short.0, rest)

-- What a path has below a name is shorter than the path.
rest_shorter :
    (p g : Bytes) {rest : Bytes}
    → strip_prefix p (slash_after g) ≡ some rest
    → length rest < length p
rest_shorter p g {rest = rest} h =
    let whole = ap length (strip_prefix-some p (slash_after g) h) in
    omega (arith, whole, length-append (slash_after g) rest, length-append g (47 ∷ []))

-- Files that a child takes over have shorter paths there; those that stay are some of the files.
abbrev AreBoth : ℕ → Files × Files → Type 0
AreBoth n r = AreShort (suc n) r.0 × AreShort n r.1

move_file-AreBoth :
    (n : ℕ) (p g : Bytes) (sub : Option Bytes) (f : Option FileRef) (files moved : Files)
    → strip_prefix p (slash_after g) ≡ sub
    → BTreeMap.get files p ≡ f
    → AreBoth n (files, moved)
    → AreBoth n (move_file p sub f files moved)
move_file-AreBoth n p g sub none files moved s h both = both
move_file-AreBoth n p g none (some f) files moved s h both =
    (remove-AreShort (suc n) files p both.0, both.1)
move_file-AreBoth n p g (some rest) (some f) files moved s h both =
    let shorter = rest_shorter p g {rest = rest} s in
    let short = get-AreShort (suc n) files p {f = f} both.0 h in
    let fits : length rest ≤ n = omega (arith, shorter, short) in
    (remove-AreShort (suc n) files p both.0, insert-AreShort n moved rest f both.1 fits)

move_files-AreBoth :
    (n : ℕ) (g : Bytes) (paths : List Bytes) (files moved : Files)
    → AreBoth n (files, moved)
    → AreBoth n (move_files (slash_after g) paths files moved)
unfolding move_files
move_files-AreBoth n g [] files moved both = both
move_files-AreBoth n g (p ∷ paths) files moved both =
    let sub = strip_prefix p (slash_after g) in
    let f = BTreeMap.get files p in
    let r = move_file p sub f files moved in
    move_files-AreBoth n g paths r.0 r.1 (move_file-AreBoth n p g sub f files moved refl refl both)

-- Paths without bytes have no first name.
no_prefixes : (files : Files) → AreShort 0 files → prefixes (keys files) ≡ []
unfolding prefixes split_once
no_prefixes [] short = refl
no_prefixes (([], f) ∷ files) short = no_prefixes files short.1
no_prefixes ((c ∷ p, f) ∷ files) short = absurd (omega (arith, short.0))

module _ (codec : DirCodec) where
  -- The loop over the groups does the same with functions that agree on shorter paths.
  optimize_groups-agree :
      (n : ℕ) (first second : DirV1 → Option (DirV1 × Children))
      → ((files : Files)
          → AreShort n files
          → first (record new_dir { files = files }) ≡ second (record new_dir { files = files }))
      → (paths gs : List Bytes) (state : DirV1) (cs : Children) → AreShort (suc n) state.files
      → optimize_groups codec first (gather paths gs) state cs
        ≡ optimize_groups codec second (gather paths gs) state cs
  unfolding optimize_groups gather
  optimize_groups-agree n first second agree paths [] state cs short = refl
  optimize_groups-agree n first second agree paths (g ∷ gs) state cs short =
      let members = keep (in_group g) paths in
      let moved = move_files (slash_after g) members state.files [] in
      let both = move_files-AreBoth n g members state.files [] (short, tt) in
      let same = agree moved.1 both.1 in
      let rest = λ (r : DirV1 × Children) (d : DirRef).
        optimize_groups-agree n first second agree paths gs
          (record state { dirs = BTreeMap.insert state.dirs g d; files = moved.0 })
          (child (path g) (actor (clean r.0) r.1) cs) both.0 in
      elim (Bool-cases (ltb promotion_threshold (length members))) [
        | inr few ↦
            ground (arith, few, optimize_groups-agree n first second agree paths gs state cs short)
        | inl many ↦ elim (Option-cases (second (record new_dir { files = moved.1 }))) [
          | inl e ↦ ground (arith, many, same, e)
          | inr (r, e) ↦ elim (Option-cases (codec.store_dir r.0)) [
            | inl failed ↦ ground (arith, many, same, e, failed)
            | inr (d, stored) ↦ ground (arith, many, same, e, stored, rest r d)
          ]
        ]
      ]

  -- One more turn than the longest path is long changes nothing.
  one_more :
      (n : ℕ) (state : DirV1)
      → AreShort n state.files
      → optimize_dir_structure codec (suc n) state ≡ optimize_dir_structure codec n state
  unfolding optimize_dir_structure
  one_more zero state short =
      ap
        (λ gs.
          optimize_groups codec (optimize_dir_structure codec zero) (gather (keys state.files) gs)
            state no_children)
        (no_prefixes state.files short)
      ∙ (unfold optimize_groups gather in refl)
  one_more (suc n) state short =
      optimize_groups-agree n (optimize_dir_structure codec (suc n))
        (optimize_dir_structure codec n)
        (λ files few. one_more n (record new_dir { files = files }) few) (keys state.files)
        (prefixes (keys state.files)) state no_children short

  -- The recursion of optimize_dir_structure ends after at most as many levels as the longest path
  -- has bytes: with more fuel than that it has the same result.
  pub optimize_dir_structure-longest :
      (more : ℕ) (state : DirV1)
      → optimize_dir_structure codec (longest (keys state.files) + more) state
        ≡ optimize_dir_structure codec (longest (keys state.files)) state
  optimize_dir_structure-longest zero state =
      ap (λ n. optimize_dir_structure codec n state) (omega arith)
  optimize_dir_structure-longest (suc more) state =
      let n = longest (keys state.files) in
      let enough : longest (keys state.files) ≤ n + more = omega arith in
      let next : n + suc more ≡ suc (n + more) = omega arith in
      ap (λ k. optimize_dir_structure codec k state) next
      ∙ one_more (n + more) state (longest-AreShort (n + more) state.files enough)
      ∙ optimize_dir_structure-longest more state
