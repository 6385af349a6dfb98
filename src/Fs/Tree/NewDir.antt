-- ===== src/Fs/Tree/NewDir.antt =====
-- Creating directories (s5_fs/src/api.rs, create_dir, with create_dir_at of s5_fs/src/actor.rs).
use s5_rs.Base.{
  ℕ, ◌≡◌, ◌≢◌, refl, ap, ap₂, sym, ◌∙◌, subst, Bytes, Bool, true, false, Option, none, some, [],
  ◌++◌, inl, inr, if◌then◌else◌, is_some, is_same, is_same_eq, is_same_refl, bytes_ord, arith,
  Bool-cases, Option-cases,
}
use s5_rs.BTreeMap
use s5_rs.BTreeMap.{BTreeMap, contains_key}
use s5_rs.Fs.Dir.{new_dir, FileRef}
use s5_rs.Fs.CreateDir.{slash_after, starts_with, extract_child_dir_state, create_dir_at}
use s5_rs.Fs.CreateDir.Extract.{extracted_child, extracted_rest}
use s5_rs.Fs.Tree.{
  path, LocalState, Tree, actor, Children, no_children, child, here, marked, first_of, route_from,
  route_dir, route_to_child, destination,
}
use s5_rs.Fs.Tree.Promotion.{DirCodec, clean, has_child, published, open_dir}
use s5_rs.Fs.Tree.Api.{create_dir_op, create_dir, file_get, unless_tombstone}
use s5_rs.Fs.Tree.Names.{IsName, first_of_cases}
use s5_rs.Fs.Tree.Step.{file_of, file_at, IsUnsharded, new_child_lem, destination_here}
use s5_rs.Fs.Tree.Promoted.{
  IsClear, split_state, split_dirs, split_header, child_new, published-IsAlike, first_here,
  here_lem, dir_here,
}
use s5_rs.Fs.Tree.Kin.{Kin, name_below}
use s5_rs.Fs.Tree.Reach.{Puts, path_op_lem, path_op-result}
use s5_rs.Fs.Tree.Tidy.{IsTidy, IsEnd, destination-IsEnd, end_alone}
use s5_rs.Fs.Tree.Laws.{IsReached, IsOpen, file_get-file_at}

name_parts : (g : Bytes) → IsName g → first_of g ≡ (g, [])
name_parts g name =
    ap (λ o. elim o as (λ x. Bytes × Bytes) [ none ↦ (g, []) | some parts ↦ parts ]) name

other_name : (g q : Bytes) → IsName g → is_same (first_of q).0 g ≡ false → is_same g q ≡ false
other_name g q name other = elim (Bool-cases (is_same g q)) [
  | inr e ↦ e
  | inl e ↦
      let first = name_parts g name in
      let moved = subst (λ x. is_same (first_of x).0 g ≡ false) (sym (is_same_eq g q e)) other in
      absurd (ground (arith, moved, first, is_same_refl g))
]

longer_name : (g rest : Bytes) → is_same g (slash_after g ++ rest) ≡ false
longer_name g rest = elim (Bool-cases (is_same g (slash_after g ++ rest))) [
  | inr e ↦ e
  | inl e ↦ absurd (name_below g rest (is_same_eq g (slash_after g ++ rest) e))
]

module _ (codec : DirCodec) where
  -- The directory after a new child and the child.
  abbrev pub made : LocalState → Bytes → LocalState
  made a g =
      marked (
        published codec (split_state codec a g) g
          (codec.save (extract_child_dir_state a.state g).1))

  abbrev pub made_child : LocalState → Bytes → Tree
  made_child a g = actor (clean (extract_child_dir_state a.state g).1) no_children

  pub create_dir_op-made :
      (a : LocalState) (cs : Children) (g : Bytes)
      → contains_key a.state.dirs g ≡ false
      → has_child cs (path g) ≡ false
      → create_dir_op codec a cs g
        ≡ (actor (made a g) (child (path g) (made_child a g) cs), some tt)
  unfolding create_dir_op create_dir_at open_dir
  create_dir_op-made a cs g fresh alone = ground (arith, fresh, alone)

  module _ (xxh3_64 : Bytes → ℕ) where
    made_files :
        (a : LocalState) (g p : Bytes)
        → starts_with p (slash_after g) ≡ false
        → BTreeMap.get (made a g).state.files p ≡ BTreeMap.get a.state.files p
    made_files a g p other =
        ap (λ f. BTreeMap.get f p)
          (published-IsAlike codec (split_state codec a g) g
            (codec.save (extract_child_dir_state a.state g).1)).same_files
        ∙ extracted_rest a.state g p
        ∙ ap (λ c. if c then none else BTreeMap.get a.state.files p) other

    lone_child :
        (files : BTreeMap Bytes FileRef) (q : Bytes)
        → file_at xxh3_64 (actor (clean (record new_dir { files = files })) no_children) q
          ≡ BTreeMap.get files q
    unfolding destination route_from BTreeMap.get
    lone_child files q = refl

    made_child_files :
        (a : LocalState) (g q : Bytes)
        → file_at xxh3_64 (made_child a g) q ≡ BTreeMap.get a.state.files (slash_after g ++ q)
    made_child_files a g q =
        ap (λ s. file_at xxh3_64 (actor (clean s) no_children) q) (child_new codec a.state g)
        ∙ lone_child (extract_child_dir_state a.state g).1.files q
        ∙ extracted_child a.state g q

    made_lem :
        (a : LocalState) (cs : Children) (g q : Bytes)
        → IsName g
        → IsUnsharded xxh3_64 a.state.header g
        → file_at xxh3_64 (actor (made a g) (child (path g) (made_child a g) cs)) q ≡ (
            if is_same (first_of q).0 g
            then file_at xxh3_64 (made_child a g) (first_of q).1
            else file_at xxh3_64 (actor a cs) q)
    made_lem a cs g q name unsharded =
        let alike =
          published-IsAlike codec (split_state codec a g) g
            (codec.save (extract_child_dir_state a.state g).1) in
        new_child_lem xxh3_64 a (made a g) cs (made_child a g) g q name unsharded
          (alike.same_header ∙ split_header codec a.state g)
          (λ n. alike.same_dirs n ∙ split_dirs codec a.state g n (codec.build_child_dir_ref g))
          (made_files a g)

    -- A name that ends here is no directory and in no shard.
    name_here :
        (a : LocalState) (g : Bytes)
        → IsName g
        → route_to_child xxh3_64 a.state g ≡ here
        → IsUnsharded xxh3_64 a.state.header g × (contains_key a.state.dirs g ≡ false)
    name_here a g name ends =
        let direct = route_dir a.state g [] in
        let end_at : route_from xxh3_64 a.state.header direct g g ≡ here =
          subst (λ x. route_from xxh3_64 a.state.header (route_dir a.state x.0 x.1) x.0 g ≡ here)
            (name_parts g name) ends in
        let unsharded = here_lem xxh3_64 a.state.header direct g g end_at in
        (unsharded, dir_here xxh3_64 a.state g [] (sym (unsharded direct g) ∙ end_at))

    create_at_end :
        (r : LocalState × (Children × Bytes))
        → IsName r.1.1
        → IsEnd xxh3_64 r
        → create_dir_op codec r.0 r.1.0 r.1.1
          ≡ (actor (made r.0 r.1.1) (child (path r.1.1) (made_child r.0 r.1.1) r.1.0), some tt)
    create_at_end r name end =
        create_dir_op-made r.0 r.1.0 r.1.1 (name_here r.0 r.1.1 name end.0).1 (
          subst (λ x. has_child r.1.0 (path x.0) ≡ false) (name_parts r.1.1 name)
            (end_alone xxh3_64 r end))

    reached :
        (t : Tree) (p : Bytes)
        → is_some (destination xxh3_64 t p) ≡ true
        → (r : LocalState × (Children × Bytes)) × (destination xxh3_64 t p ≡ some r)
    reached t p there = elim (Option-cases (destination xxh3_64 t p)) [
      | inl e ↦ absurd (ground (arith, there, e))
      | inr found ↦ found
    ]

    -- A new directory hides an entry of its name, and keeps the others.
    made_view :
        (a : LocalState) (cs : Children) (g q : Bytes)
        → IsName g
        → route_to_child xxh3_64 a.state g ≡ here
        → IsClear xxh3_64 a q
        → file_at xxh3_64 (actor (made a g) (child (path g) (made_child a g) cs)) q
          ≡ (if is_same g q then none else file_at xxh3_64 (actor a cs) q)
    made_view a cs g q name ends clear =
        let before = file_at xxh3_64 (actor a cs) q in
        let left = (first_of q).1 in
        let (unsharded, fresh) = name_here a g name ends in
        let choice = λ (c : Bool). if c then file_at xxh3_64 (made_child a g) left else before in
        let hidden = λ (c : Bool). if c then none else before in
        made_lem a cs g q name unsharded ∙ elim (Bool-cases (is_same (first_of q).0 g)) [
          | inr e ↦ ap choice e ∙ sym (ap hidden (other_name g q name e))
          | inl e ↦
              let first = is_same_eq (first_of q).0 g e in
              let end = first_here xxh3_64 a g q unsharded fresh e in
              ap choice e ∙ made_child_files a g left ∙ elim (first_of_cases q) [
                | inl (alone, empty, nm) ↦
                    let same : q ≡ g = alone ∙ first in
                    ap₂ (λ x y. BTreeMap.get a.state.files (slash_after x ++ y)) (sym same) empty
                    ∙ clear end []
                    ∙ sym (ap hidden (subst (λ x. is_same g x ≡ true) (sym same) (is_same_refl g)))
                | inr (split, nm) ↦
                    let whole : q ≡ slash_after g ++ left =
                      split ∙ ap (λ x. slash_after x ++ left) first in
                    let longer = longer_name g left in
                    ap (BTreeMap.get a.state.files) (sym whole)
                    ∙ sym (ap file_of (destination_here xxh3_64 a cs q end))
                    ∙ sym (ap hidden (subst (λ x. is_same g x ≡ false) (sym whole) longer))
              ]
        ]

  -- After create_dir nothing is found at the path, and at others what was there.
  pub create_dir-view :
      (xxh3_64 : Bytes → ℕ) (t : Tree) (p q : Bytes)
      → IsTidy t
      → IsReached xxh3_64 codec t p
      → ((r : LocalState × (Children × Bytes)) → destination xxh3_64 t p ≡ some r → IsName r.1.1)
      → Kin p q
      → IsOpen xxh3_64 codec t q
      → ((create_dir codec xxh3_64 t p).1 ≡ some tt)
        × ((file_get codec xxh3_64 (create_dir codec xxh3_64 t p).0 q).1
            ≡ (if is_same p q then none else (file_get codec xxh3_64 t q).1))
  unfolding create_dir
  create_dir-view xxh3_64 t p q tidy there named kin clear =
      let puts : Puts xxh3_64 (create_dir_op codec) none (destination xxh3_64 t p) =
        λ r e x kin' clear'.
          let end = destination-IsEnd xxh3_64 t p r tidy e in
          ap (λ y. file_at xxh3_64 y.0 x) (create_at_end xxh3_64 r (named r e) end)
          ∙ made_view xxh3_64 r.0 r.1.0 r.1.1 x (named r e) end.0 clear' in
      let (r, e) = reached xxh3_64 t p there in
      (
        path_op-result xxh3_64 (create_dir_op codec) t p r e
            ∙ ap (λ y. y.1)
                (create_at_end xxh3_64 r (named r e) (destination-IsEnd xxh3_64 t p r tidy e)),
        file_get-file_at xxh3_64 codec (create_dir codec xxh3_64 t p).0 q
            ∙ ap (λ o. unless_tombstone (some o))
                (path_op_lem xxh3_64 (create_dir_op codec) none t p q there puts kin clear)
            ∙ push (is_same p q) (file_at xxh3_64 t q)
            ∙ ap (λ o. if is_same p q then none else o) (sym (file_get-file_at xxh3_64 codec t q)),
      )
    where
      push :
          (b : Bool) (y : Option FileRef)
          → unless_tombstone (some (if b then none else y))
            ≡ (if b then none else unless_tombstone (some y))
      push true y = refl
      push false y = refl

  -- Where paths lead to directories of a tidy tree, do not end in a slash, and what is left of the
  -- path where it ends is a name that is not empty, so that it names no directory yet, create_dir
  -- succeeds; a later file_get finds nothing at the path itself and at another path what it found
  -- before, unless files lie below that path.
  pub create_dir-file_get :
      (xxh3_64 : Bytes → ℕ) (t : Tree) (p q : Bytes)
      → IsTidy t
      → IsReached xxh3_64 codec t p
      → ((r : LocalState × (Children × Bytes))
          → destination xxh3_64 t p ≡ some r
          → IsName r.1.1 × (r.1.1 ≢ []))
      → Kin p q
      → IsOpen xxh3_64 codec t q
      → ((create_dir codec xxh3_64 t p).1 ≡ some tt)
        × ((file_get codec xxh3_64 (create_dir codec xxh3_64 t p).0 q).1
            ≡ (if is_same p q then none else (file_get codec xxh3_64 t q).1))
  create_dir-file_get xxh3_64 t p q tidy there named kin clear =
      create_dir-view xxh3_64 t p q tidy there (λ r e. (named r e).0) kin clear
