-- ===== src/Fs/Tree/Files.antt =====
-- Files are found where they were put (s5_fs/src/api.rs, with PathOp of s5_fs/src/actor.rs and the
-- promotions of s5_fs/src/actor/sharding.rs).
use s5_rs.Base.{
  ℕ, ◌≡◌, refl, ap, sym, ◌∙◌, subst, Bytes, Bool, false, Option, none, some, ◌++◌, inl, inr,
  if◌then◌else◌, is_same, is_same_eq, bytes_ord, arith, Bool-cases,
}
use s5_rs.BTreeMap
use s5_rs.BTreeMap.{contains_key, get-insert, get-remove}
use s5_rs.Fs.Dir.{FileRef}
use s5_rs.Fs.CreateDir.{slash_after}
use s5_rs.Fs.Tree.{
  path, LocalState, Tree, actor, Children, marked, Route, here, failed, into, first_of,
  route_to_child, path_op, destination,
}
use s5_rs.Fs.Tree.Promotion.{DirCodec, has_child}
use s5_rs.Fs.Tree.Api.{Task, put_back, file_op}
use s5_rs.Fs.Tree.Step.{
  file_of, file_at, Route-cases, destination_here, destination-failed, destination_into,
}
use s5_rs.Fs.Tree.Groups.{NoneBelow}
use s5_rs.Fs.Tree.Optimize.{Stores}
use s5_rs.Fs.Tree.Promoted.{IsClear, check_auto_promote_lem}
use s5_rs.Fs.Tree.Kin.{Kin}

module _ (xxh3_64 : Bytes → ℕ) where
  -- Directories that route a path alike and hold the same entry at it.
  pub same_entry :
      (a b : LocalState) (cs : Children) (q : Bytes)
      → route_to_child xxh3_64 b.state q ≡ route_to_child xxh3_64 a.state q
      → BTreeMap.get b.state.files q ≡ BTreeMap.get a.state.files q
      → file_at xxh3_64 (actor b cs) q ≡ file_at xxh3_64 (actor a cs) q
  same_entry a b cs q led held = elim (Route-cases (route_to_child xxh3_64 a.state q)) [
    | inl h ↦
        ap file_of (destination_here xxh3_64 b cs q (led ∙ h))
        ∙ held
        ∙ sym (ap file_of (destination_here xxh3_64 a cs q h))
    | inr (inl f) ↦
        ap file_of
          (destination-failed xxh3_64 b cs q (led ∙ f) ∙ sym (destination-failed xxh3_64 a cs q f))
    | inr (inr (k, rest, r)) ↦
        ap file_of
          (destination_into xxh3_64 b cs q (led ∙ r) ∙ sym (destination_into xxh3_64 a cs q r))
  ]

  -- Another entry at a path that ends in the directory.
  changed_entry :
      (a b : LocalState) (cs : Children) (p q : Bytes) (v : Option FileRef)
      → route_to_child xxh3_64 b.state q ≡ route_to_child xxh3_64 a.state q
      → route_to_child xxh3_64 a.state p ≡ here
      → BTreeMap.get b.state.files q ≡ (if is_same p q then v else BTreeMap.get a.state.files q)
      → file_at xxh3_64 (actor b cs) q ≡ (if is_same p q then v else file_at xxh3_64 (actor a cs) q)
  changed_entry a b cs p q v led ends files =
      let entry = λ (c : Bool). if c then v else BTreeMap.get a.state.files q in
      let choice = λ (c : Bool). if c then v else file_at xxh3_64 (actor a cs) q in
      elim (Bool-cases (is_same p q)) [
        | inl e ↦
            let ends_too =
              subst (λ x. route_to_child xxh3_64 a.state x ≡ here) (is_same_eq p q e) ends in
            ap file_of (destination_here xxh3_64 b cs q (led ∙ ends_too))
            ∙ files
            ∙ ap entry e
            ∙ sym (ap choice e)
        | inr e ↦ same_entry a b cs q led (files ∙ ap entry e) ∙ sym (ap choice e)
      ]

module _ (xxh3_64 : Bytes → ℕ) (codec : DirCodec) where
  abbrev with_files : LocalState → s5_rs.Fs.Tree.Groups.Files → LocalState
  with_files a files = record a { state = record a.state { files = files } }

  abbrev removed : LocalState → Bytes → LocalState
  removed a p = with_files a (BTreeMap.remove a.state.files p)

  put_back-result :
      {R : Type 0} (a : LocalState) (cs : Children) (p : Bytes) (v : Option FileRef) (answer : R)
      → (put_back codec a cs p v answer).1 ≡ some answer
  unfolding put_back
  put_back-result a cs p none answer = refl
  put_back-result a cs p (some f) answer = refl

  put_back_lem :
      {R : Type 0} (a : LocalState) (cs : Children) (p q : Bytes) (v : Option FileRef) (answer : R)
      → route_to_child xxh3_64 a.state p ≡ here
      → has_child cs (path (first_of p).0) ≡ false
      → Stores xxh3_64 codec
      → Kin p q
      → IsClear xxh3_64 a q
      → file_at xxh3_64 (put_back codec (removed a p) cs p v answer).0 q
        ≡ (if is_same p q then v else file_at xxh3_64 (actor a cs) q)
  unfolding put_back
  put_back_lem a cs p q none answer ends alone stores kin clear =
      changed_entry xxh3_64 a (marked (removed a p)) cs p q none refl ends
        (get-remove a.state.files p q)
  put_back_lem a cs p q (some f) answer ends alone stores kin clear =
      let files = BTreeMap.insert (BTreeMap.remove a.state.files p) p f in
      let b = with_files a files in
      let held = λ (x : Bytes).
        get-insert (BTreeMap.remove a.state.files p) p x f
        ∙ ap (λ o. if is_same p x then some f else o) (get-remove a.state.files p x) in
      let (b', ds, done, same) = check_auto_promote_lem xxh3_64 codec b cs p ends alone stores in
      let entry : BTreeMap.get files q
          ≡ (if is_same p q then some f else BTreeMap.get a.state.files q) =
        ground (arith, held q) in
      let clear_after : IsClear xxh3_64 b q = λ h name.
        elim (Bool-cases (is_same p (slash_after q ++ name))) [
          | inl e ↦ absurd (kin.not_below name (is_same_eq p (slash_after q ++ name) e))
          | inr e ↦ ground (arith, e, held (slash_after q ++ name), clear h name)
        ] in
      ap (λ r. file_at xxh3_64 (actor (if r.1 then marked r.0.0 else r.0.0) r.0.1) q) done
      ∙ same_entry xxh3_64 b' (marked b') ds q refl refl
      ∙ same q clear_after
      ∙ changed_entry xxh3_64 a b cs p q (some f) refl ends entry

  module _ {R : Type 0} (task : Task R) where
    -- What a task does with an entry of a directory.
    pub file_op_lem :
        (a : LocalState) (cs : Children) (p q : Bytes)
        → route_to_child xxh3_64 a.state p ≡ here
        → has_child cs (path (first_of p).0) ≡ false
        → Stores xxh3_64 codec
        → Kin p q
        → IsClear xxh3_64 a q
        → file_at xxh3_64 (file_op codec task a cs p).0 q ≡ (
            if is_same p q
            then (task (BTreeMap.get a.state.files p)).0
            else file_at xxh3_64 (actor a cs) q)
    unfolding file_op
    file_op_lem a cs p q ends alone stores kin clear =
        let r = task (BTreeMap.get a.state.files p) in
        put_back_lem a cs p q r.0 r.1 ends alone stores kin clear

    pub file_op-result :
        (a : LocalState) (cs : Children) (p : Bytes)
        → (file_op codec task a cs p).1 ≡ some (task (BTreeMap.get a.state.files p)).1
    unfolding file_op
    file_op-result a cs p =
        let r = task (BTreeMap.get a.state.files p) in put_back-result (removed a p) cs p r.0 r.1
