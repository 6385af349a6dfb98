-- ===== src/Fs/Tree/Optimize.antt =====
-- optimize_dir_structure keeps the files where paths find them (s5_fs/src/actor/sharding.rs).
use s5_rs.Base.{
  ℕ, zero, suc, ◌≡◌, refl, ap, sym, ◌∙◌, subst, Bytes, true, ◌||◌, Option, some, List, [], ◌∷◌,
  ◌++◌, if◌then◌else◌, is_same, is_same_eq, bytes_ord, arith, Bool-cases, inl, inr, keep, length,
  ltb, append_assoc,
}
use s5_rs.BTreeMap
use s5_rs.BTreeMap.{BTreeMap, contains_key, keys, get-insert}
use s5_rs.Fs.Dir.{DirV1, new_dir, new_header, DirRef, FileRef}
use s5_rs.Fs.CreateDir.{slash_after, move_files}
use s5_rs.Fs.Tree.{
  path, actor, Children, no_children, child, first_of, LocalState, destination, route_to_child,
}
use s5_rs.Fs.Tree.Promotion.{
  DirCodec, in_group, prefixes, gather, clean, optimize_groups, optimize_dir_structure,
  promotion_threshold,
}
use s5_rs.Fs.Tree.Names.{in_group_lem, first_of_cases}
use s5_rs.Fs.Tree.Step.{file_at, IsUnsharded, new_child_lem}
use s5_rs.Fs.Tree.Groups.{
  Files, NoneBelow, Pending, moved_rest, moved_child, group_nonempty, Pending-moved,
  Pending-prefixes,
}

-- A path below a child, in the directory.
pub below_child :
    (g rest name : Bytes)
    → slash_after g ++ (slash_after rest ++ name) ≡ slash_after (slash_after g ++ rest) ++ name
below_child g rest name =
    ap (λ x. slash_after g ++ x) (append_assoc rest (47 ∷ []) name)
    ∙ sym (append_assoc (slash_after g) rest ((47 ∷ []) ++ name))
    ∙ sym (append_assoc (slash_after g ++ rest) (47 ∷ []) name)

pub dirs-insert :
    (dirs : BTreeMap Bytes DirRef) (g n : Bytes) (d : DirRef)
    → contains_key (BTreeMap.insert dirs g d) n ≡ (is_same g n || contains_key dirs n)
dirs-insert dirs g n d = ground (arith, get-insert dirs g n d)

module _ (xxh3_64 : Bytes → ℕ) where
  -- Paths that no file lies below find the files of a map, in the directory and its children.
  abbrev pub IsView : Files → DirV1 × Children → Type 0
  IsView files r =
      (q : Bytes)
      → NoneBelow files q
      → file_at xxh3_64 (actor (clean r.0) r.1) q ≡ BTreeMap.get files q

  new-IsUnsharded : (g : Bytes) → IsUnsharded xxh3_64 new_header g
  new-IsUnsharded g direct whole = unfold s5_rs.Fs.Tree.route_from in refl

  -- A path whose first name is that of a group finds in the child what the directory held.
  pub view_of_child :
      (whole moved : Files) (g q : Bytes) (r : DirV1 × Children)
      → (NoneBelow whole g → ⊥)
      → ((name : Bytes) → BTreeMap.get moved name ≡ BTreeMap.get whole (slash_after g ++ name))
      → IsView moved r
      → is_same (first_of q).0 g ≡ true
      → NoneBelow whole q
      → file_at xxh3_64 (actor (clean r.0) r.1) (first_of q).1 ≡ BTreeMap.get whole q
  view_of_child whole moved g q r some_below shows view same none_below =
      let first = is_same_eq (first_of q).0 g same in
      elim (first_of_cases q) [
        | inl (alone, empty, name) ↦
            absurd (some_below (subst (NoneBelow whole) (alone ∙ first) none_below))
        | inr (split, name) ↦
            let left = (first_of q).1 in
            let path_is : q ≡ slash_after g ++ left =
              split ∙ ap (λ x. slash_after x ++ left) first in
            let clear : NoneBelow moved left = λ n.
              shows (slash_after left ++ n)
              ∙ ap (BTreeMap.get whole)
                  (below_child g left n ∙ ap (λ x. slash_after x ++ n) (sym path_is))
              ∙ none_below n in
            view left clear ∙ shows left ∙ ap (BTreeMap.get whole) (sym path_is)
      ]

  -- Through the child for paths with its name, as before for the others.
  pub either_view :
      (whole moved : Files) (g q : Bytes) (r : DirV1 × Children) (before : Option FileRef)
      → (NoneBelow whole g → ⊥)
      → ((name : Bytes) → BTreeMap.get moved name ≡ BTreeMap.get whole (slash_after g ++ name))
      → IsView moved r
      → NoneBelow whole q
      → before ≡ BTreeMap.get whole q
      → (if is_same (first_of q).0 g
          then file_at xxh3_64 (actor (clean r.0) r.1) (first_of q).1
          else before)
        ≡ BTreeMap.get whole q
  either_view whole moved g q r before some_below shows inside below outside =
      elim (Bool-cases (is_same (first_of q).0 g)) [
        | inl e ↦
            ap (λ b. if b then file_at xxh3_64 (actor (clean r.0) r.1) (first_of q).1 else before) e
            ∙ view_of_child whole moved g q r some_below shows inside e below
        | inr e ↦
            ap (λ b. if b then file_at xxh3_64 (actor (clean r.0) r.1) (first_of q).1 else before) e
            ∙ outside
      ]

  module _ (codec : DirCodec) where
    abbrev pub Stores : Type 0
    Stores = (s : DirV1) → (d : DirRef) × (codec.store_dir s ≡ some d)

    optimize_groups_lem :
        (optimize : DirV1 → Option (DirV1 × Children)) (whole : Files) (gs : List Bytes)
        (state : DirV1) (cs : Children)
        → ((files : Files)
            → (r : DirV1 × Children) × (optimize (record new_dir { files = files }) ≡ some r)
              × IsView files r)
        → Stores
        → Pending whole state.files gs
        → state.header ≡ new_header
        → IsView whole (state, cs)
        → (r : DirV1 × Children) × (optimize_groups codec optimize (gather (keys whole) gs) state cs
            ≡ some r)
          × IsView whole r
    unfolding optimize_groups gather
    optimize_groups_lem optimize whole [] state cs step stores pending header view =
        ((state, cs), refl, view)
    optimize_groups_lem optimize whole (g ∷ gs) state cs step stores pending header view =
        elim (Bool-cases (ltb promotion_threshold (length (keep (in_group g) (keys whole))))) [
          | inr few ↦
              let (r, done, shows) =
                optimize_groups_lem optimize whole gs state cs step stores pending.1.1.1 header
                  view in
              (r, ground (arith, few, done), shows)
          | inl many ↦
              let name = pending.0 in
              let moved =
                move_files (slash_after g) (keep (in_group g) (keys whole)) state.files [] in
              let (r, ok, inside) = step moved.1 in
              let (d, stored) = stores r.0 in
              let after = record state { dirs = BTreeMap.insert state.dirs g d; files = moved.0 } in
              let seen : IsView whole (after, child (path g) (actor (clean r.0) r.1) cs) =
                λ q below.
                  new_child_lem xxh3_64 (clean state) (clean after) cs (actor (clean r.0) r.1) g q
                    name (subst (λ h. IsUnsharded xxh3_64 h g) (sym header) (new-IsUnsharded g))
                    refl (λ n. dirs-insert state.dirs g n d)
                    (λ p other. moved_rest whole state.files g p name other)
                  ∙ either_view whole moved.1 g q r (file_at xxh3_64 (actor (clean state) cs) q)
                      (group_nonempty whole g (in_group g) (λ p. in_group_lem g p name) many)
                      (λ n. moved_child whole state.files g n name pending.1.1.0) inside below
                      (view q below) in
              let (o, done, shows) =
                optimize_groups_lem optimize whole gs after
                  (child (path g) (actor (clean r.0) r.1) cs) step stores
                  (Pending-moved whole state.files g gs name pending.1.0 pending.1.1.1) header
                  seen in
              (o, ground (arith, many, ok, stored, done), shows)
        ]

    -- Where all directories can be stored, optimize_dir_structure succeeds, on any fuel.
    pub optimize_dir_structure_lem :
        (n : ℕ) (files : Files)
        → Stores
        → (r : DirV1 × Children) × (optimize_dir_structure codec n
              (record new_dir { files = files })
            ≡ some r)
          × IsView files r
    unfolding optimize_dir_structure destination s5_rs.Fs.Tree.route_from BTreeMap.get
    optimize_dir_structure_lem zero files stores =
        ((record new_dir { files = files }, no_children), refl, λ q below. refl)
    optimize_dir_structure_lem (suc n) files stores =
        optimize_groups_lem (optimize_dir_structure codec n) files (prefixes (keys files))
          (record new_dir { files = files }) no_children
          (λ f. optimize_dir_structure_lem n f stores) stores (Pending-prefixes files (keys files))
          refl (λ q below. refl)
