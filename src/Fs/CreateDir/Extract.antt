-- ===== src/Fs/CreateDir/Extract.antt =====
-- The files that a new child directory takes over (s5_fs/src/actor.rs, create_dir_at).
use s5_rs.Base.{
  ◌≡◌, refl, ap, ◌∙◌, Bytes, Bool, true, false, ◌||◌, ◌&&◌, Option, none, some, List, [], ◌∷◌, ◌++◌,
  ◌==◌, if◌then◌else◌, is_same, is_same_eq, is_same_refl, subst, keep, bytes_ord, arith, inl, inr,
  Bool-cases,
}
use s5_rs.BTreeMap
use s5_rs.BTreeMap.{BTreeMap, contains_key, keys, get-insert, get-remove}
use s5_rs.Fs.Dir.{DirV1, DirRef, FileRef}
use s5_rs.Fs.CreateDir.{
  strip_prefix, starts_with, move_file, move_files, slash_after, extract_child_dir_state,
  create_dir_at,
}

-- A path is the prefix and what is left of it.
pub strip_prefix-some :
    (path prefix : Bytes) {rest : Bytes}
    → strip_prefix path prefix ≡ some rest
    → path ≡ prefix ++ rest
unfolding strip_prefix
strip_prefix-some path [] h = ground (arith, h)
strip_prefix-some [] (c ∷ prefix) h = absurd (ground (arith, h))
strip_prefix-some (d ∷ path) (c ∷ prefix) {rest = rest} h = elim (Bool-cases (d == c)) [
  | inl e ↦ ground (arith, e, strip_prefix-some path prefix {rest = rest} (ground (arith, e, h)))
  | inr e ↦ absurd (ground (arith, e, h))
]

pub strip_prefix-append : (prefix rest : Bytes) → strip_prefix (prefix ++ rest) prefix ≡ some rest
unfolding strip_prefix
strip_prefix-append [] rest = refl
strip_prefix-append (c ∷ prefix) rest = ground (arith, strip_prefix-append prefix rest)

-- Whether a path is among some.
unfoldable pub among : Bytes → List Bytes → Bool
among p [] = false
among p (q ∷ paths) = is_same q p || among p paths

pub among-keep :
    (t : Bytes → Bool) (p : Bytes) (m : BTreeMap Bytes FileRef)
    → among p (keep t (keys m)) ≡ (contains_key m p && t p)
unfolding among keep BTreeMap.get
among-keep t p [] = refl
among-keep t p ((q, f) ∷ m) = elim (Bool-cases (is_same q p)) [
  | inl e ↦
      let tested : t q ≡ t p = ap t (is_same_eq q p e) in
      ground (arith, e, tested, among-keep t p m)
  | inr e ↦ ground (arith, e, among-keep t p m)
]

-- One move, at a path that is moved or not.
move_file-rest :
    (q p : Bytes) (sub : Option Bytes) (f : Option FileRef) (files child : BTreeMap Bytes FileRef)
    → BTreeMap.get files q ≡ f
    → BTreeMap.get (move_file q sub f files child).0 p
      ≡ (if is_same q p then none else BTreeMap.get files p)
move_file-rest q p sub none files child h = elim (Bool-cases (is_same q p)) [
  | inl e ↦
      let here : BTreeMap.get files p ≡ none =
        subst (λ x. BTreeMap.get files x ≡ none) (is_same_eq q p e) h in
      ground (arith, e, here)
  | inr e ↦ ground (arith, e)
]
move_file-rest q p none (some f) files child h = get-remove files q p
move_file-rest q p (some sub) (some f) files child h = get-remove files q p

pub move_files-rest :
    (prefix_slash p : Bytes) (paths : List Bytes) (files child : BTreeMap Bytes FileRef)
    → BTreeMap.get (move_files prefix_slash paths files child).0 p
      ≡ (if among p paths then none else BTreeMap.get files p)
unfolding move_files among
move_files-rest prefix_slash p [] files child = refl
move_files-rest prefix_slash p (q ∷ paths) files child =
    let f = BTreeMap.get files q in
    let sub = strip_prefix q prefix_slash in
    let r = move_file q sub f files child in
    let step = move_file-rest q p sub f files child refl in
    let rest = move_files-rest prefix_slash p paths r.0 r.1 in ground (arith, step, rest)

-- The later of two answers, the first where there is none.
abbrev pub over {ℓ} : {A : Type ℓ} → Option A → Option A → Option A
over none b = b
over (some a) b = some a

-- One move, at a name in the child: it changes only if the path moved is that of the name.
move_file-child :
    (prefix_slash name q : Bytes) (sub : Option Bytes) (f : Option FileRef)
    (files child : BTreeMap Bytes FileRef)
    → strip_prefix q prefix_slash ≡ sub
    → BTreeMap.get (move_file q sub f files child).1 name ≡ (
        if is_same q (prefix_slash ++ name)
        then over f (BTreeMap.get child name)
        else BTreeMap.get child name)
move_file-child prefix_slash name q sub none files child h = ground arith
move_file-child prefix_slash name q none (some f) files child h =
    elim (Bool-cases (is_same q (prefix_slash ++ name))) [
      | inl e ↦
          let stripped : strip_prefix q prefix_slash ≡ some name =
            ap (λ x. strip_prefix x prefix_slash) (is_same_eq q (prefix_slash ++ name) e)
            ∙ strip_prefix-append prefix_slash name in
          absurd (ground (arith, h, stripped))
      | inr e ↦ ground (arith, e)
    ]
move_file-child prefix_slash name q (some s) (some f) files child h =
    elim (Bool-cases (is_same q (prefix_slash ++ name))) [
      | inl e ↦
          let stripped : strip_prefix q prefix_slash ≡ some name =
            ap (λ x. strip_prefix x prefix_slash) (is_same_eq q (prefix_slash ++ name) e)
            ∙ strip_prefix-append prefix_slash name in
          let same : s ≡ name = ground (arith, h, stripped) in
          ground (arith, e, same, get-insert child s name f, is_same_refl name)
      | inr e ↦ elim (Bool-cases (is_same s name)) [
        | inl c ↦
            let whole =
              strip_prefix-some q prefix_slash h ∙ ap (◌++◌ prefix_slash) (is_same_eq s name c) in
            let equal : is_same q (prefix_slash ++ name) ≡ true =
              ap (λ x. is_same x (prefix_slash ++ name)) whole
              ∙ is_same_refl (prefix_slash ++ name) in
            absurd (ground (arith, e, equal))
        | inr c ↦ ground (arith, e, c, get-insert child s name f)
      ]
    ]

pub move_files-child :
    (prefix_slash name : Bytes) (paths : List Bytes) (files child : BTreeMap Bytes FileRef)
    → BTreeMap.get (move_files prefix_slash paths files child).1 name ≡ (
        if among (prefix_slash ++ name) paths
        then over (BTreeMap.get files (prefix_slash ++ name)) (BTreeMap.get child name)
        else BTreeMap.get child name)
unfolding move_files among
move_files-child prefix_slash name [] files child = refl
move_files-child prefix_slash name (q ∷ paths) files child =
    let p = prefix_slash ++ name in
    let f = BTreeMap.get files q in
    let sub = strip_prefix q prefix_slash in
    let r = move_file q sub f files child in
    let rest = move_files-child prefix_slash name paths r.0 r.1 in
    let left = move_file-rest q p sub f files child refl in
    let moved = move_file-child prefix_slash name q sub f files child refl in
    let here : is_same q p ≡ true → BTreeMap.get files q ≡ BTreeMap.get files p =
      λ e. ap (BTreeMap.get files) (is_same_eq q p e) in
    elim (Bool-cases (is_same q p)) [
      | inl e ↦ ground (arith, e, here e, rest, left, moved)
      | inr e ↦ ground (arith, e, rest, left, moved)
    ]

module _ (state : DirV1) (prefix : Bytes) where
  abbrev matching : List Bytes
  matching = keep (λ k. starts_with k (slash_after prefix)) (keys state.files)

  pub extracted_child :
      (name : Bytes)
      → BTreeMap.get (extract_child_dir_state state prefix).1.files name
        ≡ BTreeMap.get state.files (slash_after prefix ++ name)
  unfolding extract_child_dir_state BTreeMap.get
  extracted_child name =
      let p = slash_after prefix ++ name in
      let moved = move_files-child (slash_after prefix) name matching state.files [] in
      let held = among-keep (λ k. starts_with k (slash_after prefix)) p state.files in
      let starts = strip_prefix-append (slash_after prefix) name in
      ground (arith, moved, held, starts)

  pub extracted_rest :
      (p : Bytes)
      → BTreeMap.get (extract_child_dir_state state prefix).0.files p
        ≡ (if starts_with p (slash_after prefix) then none else BTreeMap.get state.files p)
  unfolding extract_child_dir_state
  extracted_rest p =
      let rest = move_files-rest (slash_after prefix) p matching state.files [] in
      let held = among-keep (λ k. starts_with k (slash_after prefix)) p state.files in
      ground (arith, rest, held)

  pub extracted_dirs :
      (dir_ref : DirRef) (d : Bytes)
      → BTreeMap.get
          (BTreeMap.insert (extract_child_dir_state state prefix).0.dirs prefix dir_ref)
          d
        ≡ (if is_same prefix d then some dir_ref else BTreeMap.get state.dirs d)
  unfolding extract_child_dir_state
  extracted_dirs dir_ref d = get-insert state.dirs prefix d dir_ref

-- Creating a directory at a path where there is none yet takes exactly the files below the path
-- from the parent, which keeps all others and its other child directories, and the child holds
-- each under the rest of its path.
pub create_dir_at_lem :
    (dir_ref : DirRef) (state : DirV1) (prefix : Bytes)
    → contains_key state.dirs prefix ≡ false
    → (child : DirV1) × ((create_dir_at dir_ref state prefix).1 ≡ some child)
      × ((name : Bytes)
          → BTreeMap.get child.files name ≡ BTreeMap.get state.files (slash_after prefix ++ name))
      × (let after = (create_dir_at dir_ref state prefix).0 in
          ((p : Bytes)
            → BTreeMap.get after.files p
              ≡ (if starts_with p (slash_after prefix) then none else BTreeMap.get state.files p))
          × ((d : Bytes)
              → BTreeMap.get after.dirs d
                ≡ (if is_same prefix d then some dir_ref else BTreeMap.get state.dirs d)))
create_dir_at_lem dir_ref state prefix fresh =
    let slash = slash_after prefix in
    let extracted = extract_child_dir_state state prefix in
    let done : create_dir_at dir_ref state prefix ≡ (
      record extracted.0 { dirs = BTreeMap.insert extracted.0.dirs prefix dir_ref },
      some extracted.1,
    ) =
      unfold create_dir_at in ground (arith, fresh) in
    (
      extracted.1,
      ap (λ r. r.1) done,
      extracted_child state prefix,
      (
        λ p. ap (λ r. BTreeMap.get r.0.files p) done ∙ extracted_rest state prefix p,
        λ d. ap (λ r. BTreeMap.get r.0.dirs d) done ∙ extracted_dirs state prefix dir_ref d,
      ),
    )
