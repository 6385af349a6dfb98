-- ===== src/Fs/Tree/Promoted.antt =====
-- Promoting a prefix keeps the files where paths find them (s5_fs/src/actor/sharding.rs,
-- check_auto_promote and promote_prefix).
use s5_rs.Base.{
  ℕ, ◌≡◌, refl, ap, sym, ◌∙◌, subst, Bytes, Bool, true, false, ◌||◌, Option, none, some, [],
  if◌then◌else◌, is_same, is_same_eq, bytes_ord, arith, Bool-cases, Option-cases, inl, inr, keep,
  length, ltb,
}
use s5_rs.BTreeMap
use s5_rs.BTreeMap.{BTreeMap, contains_key, keys}
use s5_rs.Fs.Dir.{DirV1, DirHeader, new_dir, DirRef}
use s5_rs.Fs.CreateDir.{slash_after, starts_with, extract_child_dir_state}
use s5_rs.Fs.CreateDir.Extract.{extracted_child, extracted_rest}
use s5_rs.Fs.Tree.{
  path, actor, Children, child, here, Route, first_of, split_once, LocalState, route_from,
  route_dir, route_to_child, tells_of, into,
}
use s5_rs.Fs.Tree.Promotion.{
  DirCodec, clean, has_child, update_dir_ref_hash, published, open_dir, optimize_dir_structure,
  promote_prefix, check_auto_promote, promotion_threshold, longest,
}
use s5_rs.Fs.Tree.Names.{IsName, split_once-some}
use s5_rs.Fs.Tree.Step.{file_at, file_of, IsUnsharded, new_child_lem, destination_here}
use s5_rs.Fs.Tree.Groups.{NoneBelow, group_nonempty}
use s5_rs.Fs.Tree.Optimize.{IsView, view_of_child, dirs-insert, Stores, optimize_dir_structure_lem}

-- Two states that route paths alike and hold the same files.
pub record IsAlike (a b : LocalState) : Type 0 where
  pub same_header : b.state.header ≡ a.state.header
  pub same_files : b.state.files ≡ a.state.files
  pub same_dirs : (n : Bytes) → contains_key b.state.dirs n ≡ contains_key a.state.dirs n

IsAlike-self : (a : LocalState) → IsAlike a a
IsAlike-self a = record { same_header = refl; same_files = refl; same_dirs = λ n. refl }

update_dir_ref_hash-IsAlike :
    (a : LocalState) (name hash : Bytes) → IsAlike a (update_dir_ref_hash a name hash)
update_dir_ref_hash-IsAlike a name hash = record {
  same_header = unfold update_dir_ref_hash in ground arith;
  same_files = unfold update_dir_ref_hash in ground arith;
  same_dirs = λ n. held n;
}
  where
    held :
        (n : Bytes)
        → contains_key (update_dir_ref_hash a name hash).state.dirs n ≡ contains_key a.state.dirs n
    held n = elim (Option-cases (BTreeMap.get a.state.dirs name)) [
      | inl e ↦ unfold update_dir_ref_hash in ground (arith, e)
      | inr (d, e) ↦
          let present : is_same name n ≡ true → contains_key a.state.dirs n ≡ true = λ s.
            subst (λ x. contains_key a.state.dirs x ≡ true) (is_same_eq name n s)
              (ground (arith, e)) in
          let inserted = dirs-insert a.state.dirs name n (record d { hash = hash }) in
          elim (Bool-cases (is_same name n)) [
            | inl s ↦ unfold update_dir_ref_hash in ground (arith, e, s, present s, inserted)
            | inr s ↦ unfold update_dir_ref_hash in ground (arith, e, s, inserted)
          ]
    ]

module _ (codec : DirCodec) where
  -- The state with its new child.
  abbrev pub split_state : LocalState → Bytes → LocalState
  split_state a g =
      let r = extract_child_dir_state a.state g in
      record a {
        state = record r.0 { dirs = BTreeMap.insert r.0.dirs g (codec.build_child_dir_ref g) };
      }

  pub child_new :
      (s : DirV1) (g : Bytes)
      → (extract_child_dir_state s g).1
        ≡ record new_dir { files = (extract_child_dir_state s g).1.files }
  unfolding extract_child_dir_state
  child_new s g = refl

  pub split_dirs :
      (s : DirV1) (g n : Bytes) (d : DirRef)
      → contains_key (BTreeMap.insert (extract_child_dir_state s g).0.dirs g d) n
        ≡ (is_same g n || contains_key s.dirs n)
  unfolding extract_child_dir_state
  split_dirs s g n d = dirs-insert s.dirs g n d

  pub split_header : (s : DirV1) (g : Bytes) → (extract_child_dir_state s g).0.header ≡ s.header
  unfolding extract_child_dir_state
  split_header s g = refl

  promoted :
      (a : LocalState) (cs : Children) (g : Bytes) (o : DirV1 × Children)
      → contains_key a.state.dirs g ≡ false
      → has_child cs (path g) ≡ false
      → optimize_dir_structure codec
          (longest (keys (extract_child_dir_state a.state g).1.files))
          (extract_child_dir_state a.state g).1
        ≡ some o
      → promote_prefix codec a cs g ≡ (
        (
          published codec (split_state a g) g (codec.save o.0),
          child (path g) (actor (clean o.0) o.1) cs,
        ),
        true,
      )
  unfolding promote_prefix open_dir
  promoted a cs g o fresh alone done = ground (arith, fresh, alone, done)

  pub published-IsAlike :
      (a : LocalState) (name : Bytes) (hash : Option Bytes)
      → IsAlike a (published codec a name hash)
  published-IsAlike a name none = IsAlike-self a
  published-IsAlike a name (some hash) =
      elim (tells_of (BTreeMap.get a.state.dirs name))
        as (λ b. IsAlike a (if b then update_dir_ref_hash a name hash else a)) [
          | true ↦ update_dir_ref_hash-IsAlike a name hash
          | false ↦ IsAlike-self a
        ]

module _ (xxh3_64 : Bytes → ℕ) where
  -- Where a path ends, its first name is neither that of a directory nor in a shard.
  pub here_lem :
      (header : DirHeader) (direct : Route) (name whole : Bytes)
      → route_from xxh3_64 header direct name whole ≡ here
      → IsUnsharded xxh3_64 header name
  unfolding route_from
  here_lem header direct name whole h other p = ground (arith, h)

  pub dir_here :
      (s : DirV1) (g rest : Bytes) → route_dir s g rest ≡ here → contains_key s.dirs g ≡ false
  dir_here s g rest h = ground (arith, h)

  -- A path that ends in a directory has no files below it.
  abbrev pub IsClear : LocalState → Bytes → Type 0
  IsClear a q = route_to_child xxh3_64 a.state q ≡ here → NoneBelow a.state.files q

  abbrev pub SameFiles : LocalState → Children → LocalState → Children → Type 0
  SameFiles a cs b ds =
      (q : Bytes) → IsClear a q → file_at xxh3_64 (actor b ds) q ≡ file_at xxh3_64 (actor a cs) q

  -- A path whose first name is no directory and in no shard ends here.
  pub first_here :
      (a : LocalState) (g q : Bytes)
      → IsUnsharded xxh3_64 a.state.header g
      → contains_key a.state.dirs g ≡ false
      → is_same (first_of q).0 g ≡ true
      → route_to_child xxh3_64 a.state q ≡ here
  first_here a g q unsharded fresh same =
      let n = (first_of q).0 in
      let first = is_same_eq n g same in
      let direct = route_dir a.state n (first_of q).1 in
      let absent : contains_key a.state.dirs n ≡ false =
        subst (λ x. contains_key a.state.dirs x ≡ false) (sym first) fresh in
      subst (λ x. route_from xxh3_64 a.state.header direct x q ≡ direct) (sym first)
        (unsharded direct q)
      ∙ ap (λ c. if c then into (path n) (first_of q).1 else here) absent

  module _ (codec : DirCodec) where
    -- The entry that a path leads to after a promotion is the one that it led to before.
    child_view :
        (a : LocalState) (cs : Children) (g q : Bytes) (o : DirV1 × Children)
        → IsUnsharded xxh3_64 a.state.header g
        → contains_key a.state.dirs g ≡ false
        → (NoneBelow a.state.files g → ⊥)
        → IsView xxh3_64 (extract_child_dir_state a.state g).1.files o
        → IsClear a q
        → (if is_same (first_of q).0 g
            then file_at xxh3_64 (actor (clean o.0) o.1) (first_of q).1
            else file_at xxh3_64 (actor a cs) q)
          ≡ file_at xxh3_64 (actor a cs) q
    child_view a cs g q o unsharded fresh some_below inside clear =
        let choice = λ (c : Bool).
          if c
          then file_at xxh3_64 (actor (clean o.0) o.1) (first_of q).1
          else file_at xxh3_64 (actor a cs) q in
        elim (Bool-cases (is_same (first_of q).0 g)) [
          | inr e ↦ ap choice e
          | inl e ↦
              let ends = first_here a g q unsharded fresh e in
              ap choice e
              ∙ view_of_child xxh3_64 a.state.files (extract_child_dir_state a.state g).1.files g q
                  o some_below (extracted_child a.state g) inside e (clear ends)
              ∙ sym (ap file_of (destination_here xxh3_64 a cs q ends))
        ]

    pub promote_prefix_lem :
        (a : LocalState) (cs : Children) (g : Bytes)
        → IsName g
        → IsUnsharded xxh3_64 a.state.header g
        → contains_key a.state.dirs g ≡ false
        → has_child cs (path g) ≡ false
        → (NoneBelow a.state.files g → ⊥)
        → Stores xxh3_64 codec
        → (b : LocalState) × (ds : Children) × (promote_prefix codec a cs g ≡ ((b, ds), true))
          × SameFiles a cs b ds
    promote_prefix_lem a cs g name unsharded fresh alone some_below stores =
        let r = extract_child_dir_state a.state g in
        let n = longest (keys r.1.files) in
        let (o, ok, inside) = optimize_dir_structure_lem xxh3_64 codec n r.1.files stores in
        let done = ap (optimize_dir_structure codec n) (child_new codec a.state g) ∙ ok in
        let after = split_state codec a g in
        let b = published codec after g (codec.save o.0) in
        let alike = published-IsAlike codec after g (codec.save o.0) in
        let t = actor (clean o.0) o.1 in
        (
          b,
          child (path g) t cs,
          promoted codec a cs g o fresh alone done,
          λ q clear.
              new_child_lem xxh3_64 a b cs t g q name unsharded
                (alike.same_header ∙ split_header codec a.state g)
                (λ m.
                  alike.same_dirs m ∙ split_dirs codec a.state g m (codec.build_child_dir_ref g))
                (λ p other.
                  ap (λ f. BTreeMap.get f p) alike.same_files
                  ∙ extracted_rest a.state g p
                  ∙ ap (λ c. if c then none else BTreeMap.get a.state.files p) other)
              ∙ child_view a cs g q o unsharded fresh some_below inside clear,
        )

    -- Where a path ends in a directory that no actor is left in for its first name, and all
    -- directories can be stored, check_auto_promote succeeds and keeps the files of all paths that
    -- have none below them.
    pub check_auto_promote_lem :
        (a : LocalState) (cs : Children) (p : Bytes)
        → route_to_child xxh3_64 a.state p ≡ here
        → has_child cs (path (first_of p).0) ≡ false
        → Stores xxh3_64 codec
        → (b : LocalState) × (ds : Children) × (check_auto_promote codec a cs p ≡ ((b, ds), true))
          × SameFiles a cs b ds
    unfolding check_auto_promote
    check_auto_promote_lem a cs p ends alone stores = elim (Option-cases (split_once p)) [
      | inl n ↦ (a, cs, ground (arith, n), λ q clear. refl)
      | inr ((g, rest), n) ↦
          let test = λ (k : Bytes). starts_with k (slash_after g) in
          let name = (split_once-some p {g = g} {rest = rest} n).1 in
          let parts : first_of p ≡ (g, rest) = ap (λ o. elim o [ none ↦ (p, []) | some x ↦ x ]) n in
          let ends_at : route_from xxh3_64 a.state.header (route_dir a.state g rest) g p ≡ here =
            subst (λ x. route_from xxh3_64 a.state.header (route_dir a.state x.0 x.1) x.0 p ≡ here)
              parts ends in
          let unsharded = here_lem a.state.header (route_dir a.state g rest) g p ends_at in
          let fresh =
            dir_here a.state g rest (sym (unsharded (route_dir a.state g rest) p) ∙ ends_at) in
          elim (Bool-cases (ltb promotion_threshold (length (keep test (keys a.state.files))))) [
            | inr few ↦ (a, cs, ground (arith, n, few), λ q clear. refl)
            | inl many ↦
                let (b, ds, done, same) =
                  promote_prefix_lem a cs g name unsharded fresh
                    (subst (λ x. has_child cs (path x.0) ≡ false) parts alone)
                    (group_nonempty a.state.files g test (λ k. refl) many) stores in
                (b, ds, ground (arith, n, many, done), same)
          ]
    ]
