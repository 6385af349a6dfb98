-- ===== src/Fs/Tree/Groups.antt =====
-- The groups of optimize_dir_structure (s5_fs/src/actor/sharding.rs): their files before and after
-- the move into a child.
use s5_rs.Base.{
  ◌≡◌, refl, ap, sym, ◌∙◌, Bytes, Bool, true, false, ◌&&◌, not, Option, none, some, List, [], ◌∷◌,
  ◌++◌, if◌then◌else◌, is_same, is_same_eq, is_same_refl, bytes_ord, arith, Bool-cases,
  Option-cases, inl, inr, keep, length, ltb,
}
use s5_rs.BTreeMap
use s5_rs.BTreeMap.{BTreeMap, contains_key, keys}
use s5_rs.Fs.Dir.{FileRef}
use s5_rs.Fs.CreateDir.{strip_prefix, starts_with, slash_after, move_files}
use s5_rs.Fs.CreateDir.Extract.{
  among, among-keep, move_files-rest, move_files-child, strip_prefix-append, strip_prefix-some,
}
use s5_rs.Fs.Tree.{split_once}
use s5_rs.Fs.Tree.Promotion.{in_group, prefixes}
use s5_rs.Fs.Tree.Names.{
  IsName, in_group_lem, split_once-some, starts_with_other, split-slash_after,
}

abbrev pub Files : Type 0
Files = BTreeMap Bytes FileRef

-- No file lies below a path.
abbrev pub NoneBelow : Files → Bytes → Type 0
NoneBelow files q = (name : Bytes) → BTreeMap.get files (slash_after q ++ name) ≡ none

-- The files of a group are those of the whole directory.
abbrev pub IsWhole : Files → Files → Bytes → Type 0
IsWhole whole files g =
    (name : Bytes)
    → BTreeMap.get files (slash_after g ++ name) ≡ BTreeMap.get whole (slash_after g ++ name)

-- Groups that are still to do: different names whose files are all there.
abbrev pub Pending : Files → Files → List Bytes → Type 0
Pending whole files [] = Unit
Pending whole files (g ∷ gs) =
    IsName g × ((among g gs ≡ false) × (IsWhole whole files g × Pending whole files gs))

-- What a move leaves of a directory, and what it puts into the child.
pub moved_rest :
    (whole files : Files) (g p : Bytes)
    → IsName g
    → starts_with p (slash_after g) ≡ false
    → BTreeMap.get (move_files (slash_after g) (keep (in_group g) (keys whole)) files []).0 p
      ≡ BTreeMap.get files p
moved_rest whole files g p name other =
    let paths = keep (in_group g) (keys whole) in
    let rest = move_files-rest (slash_after g) p paths files [] in
    let found = among-keep (in_group g) p whole in
    let group = in_group_lem g p name in
    let outside : in_group g p ≡ false = group ∙ other in
    rest
    ∙ ap (λ c. if c then none else BTreeMap.get files p)
        (found ∙ ap (◌&&◌ (contains_key whole p)) outside ∙ and_false (contains_key whole p))
  where
    and_false : (b : Bool) → (b && false) ≡ false
    and_false true = refl
    and_false false = refl

pub moved_child :
    (whole files : Files) (g name : Bytes)
    → IsName g
    → IsWhole whole files g
    → BTreeMap.get (move_files (slash_after g) (keep (in_group g) (keys whole)) files []).1 name
      ≡ BTreeMap.get whole (slash_after g ++ name)
unfolding BTreeMap.get
moved_child whole files g name is_name here =
    let p = slash_after g ++ name in
    let child = move_files-child (slash_after g) name (keep (in_group g) (keys whole)) files [] in
    let found = among-keep (in_group g) p whole in
    let group = in_group_lem g p is_name in
    let starts = strip_prefix-append (slash_after g) name in
    ground (arith, child, found, group, starts, here name)

first_path : (xs : List Bytes) → ltb 10 (length xs) ≡ true → (p : Bytes) × (among p xs ≡ true)
unfolding among
first_path [] h = absurd (ground (arith, h))
first_path (p ∷ xs) h = (p, ground (arith, is_same_refl p))

-- A group with files has one in the directory.
pub group_nonempty :
    (files : Files) (g : Bytes) (test : Bytes → Bool)
    → ((p : Bytes) → test p ≡ starts_with p (slash_after g))
    → ltb 10 (length (keep test (keys files))) ≡ true
    → NoneBelow files g
    → ⊥
group_nonempty files g test agrees many none_below =
    let (p, found) = first_path (keep test (keys files)) many in
    let both = sym (among-keep test p files) ∙ found in
    let starts : starts_with p (slash_after g) ≡ true = sym (agrees p) ∙ ground (arith, both) in
    let held : contains_key files p ≡ true = ground (arith, both) in
    elim (Option-cases (strip_prefix p (slash_after g))) [
      | inl e ↦ absurd (ground (arith, e, starts))
      | inr (rest, e) ↦
          let empty =
            ap (BTreeMap.get files) (strip_prefix-some p (slash_after g) e) ∙ none_below rest in
          absurd (ground (arith, empty, held))
    ]

-- Groups of a path list that are still pending stay so when another one is moved.
pub Pending-moved :
    (whole files : Files) (g : Bytes) (gs : List Bytes)
    → IsName g
    → among g gs ≡ false
    → Pending whole files gs
    → Pending whole (move_files (slash_after g) (keep (in_group g) (keys whole)) files []).0 gs
unfolding among
Pending-moved whole files g [] name new h = tt
Pending-moved whole files g (f ∷ gs) name new h =
    let other : is_same f g ≡ false = ground (arith, new) in
    let later : among g gs ≡ false = ground (arith, new) in
    let kept : IsWhole whole
        (move_files (slash_after g) (keep (in_group g) (keys whole)) files []).0 f =
      λ rest.
        let first = split-slash_after f rest h.0 in
        let outside =
          starts_with_other g (slash_after f ++ rest) name (ground (arith, first, other)) in
        moved_rest whole files g (slash_after f ++ rest) name outside ∙ h.1.1.0 rest in
    (h.0, (h.1.0, (kept, Pending-moved whole files g gs name later h.1.1.1)))

among-other :
    (p g : Bytes) (gs : List Bytes)
    → among p (keep (λ f. not (is_same f g)) gs) ≡ (among p gs && not (is_same p g))
unfolding among keep
among-other p g [] = refl
among-other p g (f ∷ gs) = elim (Bool-cases (is_same f p)) [
  | inl e ↦
      let same : is_same f g ≡ is_same p g = ap (λ x. is_same x g) (is_same_eq f p e) in
      ground (arith, e, same, among-other p g gs)
  | inr e ↦ ground (arith, e, among-other p g gs)
]

-- All groups are pending at the start.
Pending-keep :
    (whole : Files) (g : Bytes) (gs : List Bytes)
    → Pending whole whole gs
    → Pending whole whole (keep (λ f. not (is_same f g)) gs)
unfolding keep
Pending-keep whole g [] h = tt
Pending-keep whole g (f ∷ gs) h =
    let rest = Pending-keep whole g gs h.1.1.1 in
    let new = among-other f g gs in
    let later : among f (keep (λ f. not (is_same f g)) gs) ≡ false = ground (arith, new, h.1.0) in
    elim (not (is_same f g))
      as (λ b.
        Pending whole whole
          (if b then f ∷ keep (λ f. not (is_same f g)) gs else keep (λ f. not (is_same f g)) gs)) [
            | true ↦ (h.0, (later, (h.1.1.0, rest)))
            | false ↦ rest
          ]

Pending-first :
    (whole : Files) (o : Option (Bytes × Bytes)) (rest : List Bytes)
    → ((parts : Bytes × Bytes) → o ≡ some parts → IsName parts.0)
    → Pending whole whole rest
    → Pending whole whole
        (elim o [ none ↦ rest | some parts ↦ parts.0 ∷ keep (λ g. not (is_same g parts.0)) rest ])
Pending-first whole none rest name h = h
Pending-first whole (some parts) rest name h =
    let new : among parts.0 (keep (λ g. not (is_same g parts.0)) rest) ≡ false =
      ground (arith, among-other parts.0 parts.0 rest, is_same_refl parts.0) in
    (name parts refl, (new, ((λ r. refl), Pending-keep whole parts.0 rest h)))

pub Pending-prefixes : (whole : Files) (paths : List Bytes) → Pending whole whole (prefixes paths)
unfolding prefixes
Pending-prefixes whole [] = tt
Pending-prefixes whole (p ∷ paths) =
    Pending-first whole (split_once p) (prefixes paths)
      (λ parts e. (split_once-some p {g = parts.0} {rest = parts.1} e).1)
      (Pending-prefixes whole paths)
