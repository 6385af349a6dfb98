-- ===== src/Fs/Tree/Kept.antt =====
-- Operations on paths keep trees tidy (s5_fs/src/actor.rs, s5_fs/src/actor/sharding.rs).
use s5_rs.Base.{
  ℕ, zero, suc, ◌≡◌, refl, ◌∙◌, subst, Bytes, Bool, true, false, ◌||◌, Option, none, some, List, [],
  ◌∷◌, inl, inr, if◌then◌else◌, is_same, bytes_ord, arith, Bool-cases, Option-cases, ltb, length,
  keep,
}
use s5_rs.BTreeMap
use s5_rs.BTreeMap.{contains_key, keys}
use s5_rs.Fs.Dir.{DirV1, DirRef, DirRefType, new_dir, dir_ref_type, FileRef}
use s5_rs.Fs.CreateDir.{
  move_files, slash_after, extract_child_dir_state, create_dir_at, starts_with,
}
use s5_rs.Fs.Tree.{
  path, LocalState, Tree, closed, actor, Children, no_children, child, marked, split_once,
}
use s5_rs.Fs.Tree.Promotion.{
  DirCodec, clean, unsaved, has_child, groups, optimize_groups, optimize_dir_structure, published,
  open_dir, promote_prefix, check_auto_promote, promotion_threshold, longest,
}
use s5_rs.Fs.Tree.Api.{Task, put_back, file_op, create_dir_op}
use s5_rs.Fs.Tree.Optimize.{dirs-insert}
use s5_rs.Fs.Tree.Promoted.{published-IsAlike, split_dirs}
use s5_rs.Fs.Tree.Reach.{some_inj}
use s5_rs.Fs.Tree.Tidy.{HasOnlyDirs, IsTidy, AllTidy}

abbrev pub TidyDir : DirV1 × Children → Type 0
TidyDir r = HasOnlyDirs r.0 r.1 × AllTidy r.1

abbrev pub TidyActor : LocalState × Children → Type 0
TidyActor r = TidyDir (r.0.state, r.1)

more_dirs :
    (s s' : DirV1) (cs : Children) (g : Bytes)
    → ((n : Bytes) → contains_key s'.dirs n ≡ (is_same g n || contains_key s.dirs n))
    → TidyDir (s, cs)
    → TidyDir (s', cs)
more_dirs s s' cs g dirs all = ((λ n absent. all.0 n (ground (arith, dirs n, absent))), all.1)

-- A new child under the name of a new directory.
tidy_child :
    (s s' : DirV1) (cs : Children) (g : Bytes) (t : Tree)
    → ((n : Bytes) → contains_key s'.dirs n ≡ (is_same g n || contains_key s.dirs n))
    → IsTidy t
    → TidyDir (s, cs)
    → TidyDir (s', child (path g) t cs)
tidy_child s s' cs g t dirs tidy all = (
  λ n absent. ground (arith, dirs n, absent, all.0 n (ground (arith, dirs n, absent))),
  (tidy, all.1),
)

unsaved-IsTidy : (d : DirRef) → IsTidy (unsaved d)
unsaved-IsTidy d =
    elim (dir_ref_type d)
      as (λ x. IsTidy (elim x [
        | DirRefType.blake3_hash ↦ closed
        | DirRefType.registry_key ↦ actor (clean new_dir) no_children
      ])) [ DirRefType.blake3_hash ↦ tt | DirRefType.registry_key ↦ ((λ n absent. refl), tt) ]

module _ (codec : DirCodec) where
  optimize_groups-Tidy :
      (optimize : DirV1 → Option (DirV1 × Children)) (gs : List (Bytes × List Bytes))
      (state : DirV1) (cs : Children) (r : DirV1 × Children)
      → ((s : DirV1) (r : DirV1 × Children) → optimize s ≡ some r → TidyDir r)
      → TidyDir (state, cs)
      → optimize_groups codec optimize gs state cs ≡ some r
      → TidyDir r
  unfolding optimize_groups
  optimize_groups-Tidy optimize [] state cs r step tidy h = subst TidyDir (some_inj h) tidy
  optimize_groups-Tidy optimize ((g, paths) ∷ gs) state cs r step tidy h =
      elim (Bool-cases (ltb promotion_threshold (length paths))) [
        | inr few ↦ optimize_groups-Tidy optimize gs state cs r step tidy (ground (arith, few, h))
        | inl many ↦
            let moved = move_files (slash_after g) paths state.files [] in
            elim (Option-cases (optimize (record new_dir { files = moved.1 }))) [
              | inl n ↦ absurd (ground (arith, many, n, h))
              | inr (o, e) ↦ elim (Option-cases (codec.store_dir o.0)) [
                | inl n ↦ absurd (ground (arith, many, e, n, h))
                | inr (d, f) ↦
                    let after = record state {
                      dirs = BTreeMap.insert state.dirs g d;
                      files = moved.0;
                    } in
                    optimize_groups-Tidy optimize gs after
                      (child (path g) (actor (clean o.0) o.1) cs) r step
                      (tidy_child state after cs g (actor (clean o.0) o.1)
                        (λ n. dirs-insert state.dirs g n d) (step _ o e) tidy)
                      (ground (arith, many, e, f, h))
              ]
            ]
      ]

  optimize_dir_structure-Tidy :
      (n : ℕ) (s : DirV1) (r : DirV1 × Children)
      → optimize_dir_structure codec n s ≡ some r
      → TidyDir r
  unfolding optimize_dir_structure
  optimize_dir_structure-Tidy zero s r h = subst TidyDir (some_inj h) ((λ n absent. refl), tt)
  optimize_dir_structure-Tidy (suc n) s r h =
      optimize_groups-Tidy (optimize_dir_structure codec n) (groups (keys s.files)) s no_children r
        (optimize_dir_structure-Tidy n) ((λ n absent. refl), tt) h

  -- Opening a child with a state, under a name that has become one of a directory.
  open_dir-Tidy :
      (a : LocalState) (s : DirV1) (cs ds : Children) (g : Bytes) (child_state : DirV1)
      → ((n : Bytes) → contains_key a.state.dirs n ≡ (is_same g n || contains_key s.dirs n))
      → TidyDir (child_state, ds)
      → TidyDir (s, cs)
      → TidyActor (open_dir codec a cs g child_state ds)
  unfolding open_dir
  open_dir-Tidy a s cs ds g child_state dirs inner tidy =
      let new = published codec a g (codec.save child_state) in
      elim (has_child cs (path g))
        as (λ b.
          TidyActor
            (if b then (a, cs) else (new, child (path g) (actor (clean child_state) ds) cs))) [
              | true ↦ more_dirs s a.state cs g dirs tidy
              | false ↦
                  tidy_child s new.state cs g (actor (clean child_state) ds)
                    (λ n.
                      (published-IsAlike codec a g (codec.save child_state)).same_dirs n ∙ dirs n)
                    inner tidy
            ]

  promote_prefix-Tidy :
      (a : LocalState) (cs : Children) (g : Bytes)
      → TidyDir (a.state, cs)
      → TidyActor (promote_prefix codec a cs g).0
  unfolding promote_prefix
  promote_prefix-Tidy a cs g tidy =
      let r = extract_child_dir_state a.state g in
      let d = codec.build_child_dir_ref g in
      let after = record a { state = record r.0 { dirs = BTreeMap.insert r.0.dirs g d } } in
      let optimized = optimize_dir_structure codec (longest (keys r.1.files)) r.1 in
      let dirs = λ (n : Bytes). split_dirs codec a.state g n d in
      elim (Bool-cases (contains_key a.state.dirs g)) [
        | inl e ↦
            let same : (a, cs) ≡ (promote_prefix codec a cs g).0 = ground (arith, e) in
            subst TidyActor same tidy
        | inr e ↦ elim (Option-cases optimized) [
          | inl n ↦
              let same : (after, child (path g) (unsaved d) cs) ≡ (promote_prefix codec a cs g).0 =
                ground (arith, e, n) in
              subst TidyActor same
                (tidy_child a.state after.state cs g (unsaved d) dirs (unsaved-IsTidy d) tidy)
          | inr (o, n) ↦
              let same : open_dir codec after cs g o.0 o.1 ≡ (promote_prefix codec a cs g).0 =
                ground (arith, e, n) in
              subst TidyActor same (
                open_dir-Tidy after a.state cs o.1 g o.0 dirs
                  (optimize_dir_structure-Tidy (longest (keys r.1.files)) r.1 o n) tidy)
        ]
      ]

  check_auto_promote-Tidy :
      (a : LocalState) (cs : Children) (p : Bytes)
      → TidyDir (a.state, cs)
      → TidyActor (check_auto_promote codec a cs p).0
  unfolding check_auto_promote
  check_auto_promote-Tidy a cs p tidy =
      elim (split_once p)
        as (λ o.
          TidyActor
            (elim o as (λ x. (LocalState × Children) × Bool) [
              | none ↦ ((a, cs), true)
              | some parts ↦
                  if ltb promotion_threshold
                    (length (keep (λ k. starts_with k (slash_after parts.0)) (keys a.state.files)))
                  then promote_prefix codec a cs parts.0
                  else ((a, cs), true)
            ]).0) [
              | none ↦ tidy
              | some parts ↦
                  elim (ltb promotion_threshold (
                      length
                        (keep (λ k. starts_with k (slash_after parts.0)) (keys a.state.files))))
                    as (λ b.
                      TidyActor
                        (if b then promote_prefix codec a cs parts.0 else ((a, cs), true)).0) [
                          | true ↦ promote_prefix-Tidy a cs parts.0 tidy
                          | false ↦ tidy
                        ]
            ]

  put_back-Tidy :
      {R : Type 0} (a : LocalState) (cs : Children) (p : Bytes) (v : Option FileRef) (answer : R)
      → TidyDir (a.state, cs)
      → IsTidy (put_back codec a cs p v answer).0
  unfolding put_back
  put_back-Tidy a cs p none answer tidy = tidy
  put_back-Tidy a cs p (some f) answer tidy =
      let b = record a { state = record a.state { files = BTreeMap.insert a.state.files p f } } in
      let r = check_auto_promote codec b cs p in
      let kept = check_auto_promote-Tidy b cs p tidy in
      elim r.1 as (λ c. IsTidy (actor (if c then marked r.0.0 else r.0.0) r.0.1)) [
        | true ↦ kept
        | false ↦ kept
      ]

  -- A task on an entry keeps the directory tidy.
  pub file_op-Tidy :
      {R : Type 0} (task : Task R) (a : LocalState) (cs : Children) (p : Bytes)
      → TidyDir (a.state, cs)
      → IsTidy (file_op codec task a cs p).0
  unfolding file_op
  file_op-Tidy task a cs p tidy =
      let r = task (BTreeMap.get a.state.files p) in
      put_back-Tidy
        (record a { state = record a.state { files = BTreeMap.remove a.state.files p } }) cs p r.0
        r.1 tidy

  -- Creating a directory keeps its parent tidy.
  pub create_dir_op-Tidy :
      (a : LocalState) (cs : Children) (p : Bytes)
      → TidyDir (a.state, cs)
      → IsTidy (create_dir_op codec a cs p).0
  unfolding create_dir_op create_dir_at
  create_dir_op-Tidy a cs p tidy = elim (Bool-cases (contains_key a.state.dirs p)) [
    | inl e ↦
        let same : actor a cs ≡ (create_dir_op codec a cs p).0 = ground (arith, e) in
        subst IsTidy same tidy
    | inr e ↦
        let r = extract_child_dir_state a.state p in
        let d = codec.build_child_dir_ref p in
        let after = record a { state = record r.0 { dirs = BTreeMap.insert r.0.dirs p d } } in
        let opened = open_dir codec after cs p r.1 no_children in
        let same : actor (marked opened.0) opened.1 ≡ (create_dir_op codec a cs p).0 =
          ground (arith, e) in
        subst IsTidy same (
          open_dir-Tidy after a.state cs no_children p r.1 (λ n. split_dirs codec a.state p n d)
            ((λ n absent. refl), tt) tidy)
  ]
