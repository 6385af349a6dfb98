-- ===== src/Fs/Tree/Nested.antt =====
-- Creating a directory at a path whose first name is no directory (s5_fs/src/actor.rs,
-- create_dir_at and route_to_child).
use s5_rs.Base.{
  ℕ, ◌≡◌, ap, ap₂, sym, ◌∙◌, subst, Bytes, true, false, none, some, [], ◌∷◌, ◌++◌, inl, inr,
  if◌then◌else◌, is_some, is_same, is_same_eq, is_same_refl, bytes_ord, Bool-cases, append_assoc,
  ◌||◌,
}
use s5_rs.BTreeMap
use s5_rs.BTreeMap.{contains_key}
use s5_rs.Fs.CreateDir.{slash_after, starts_with, extract_child_dir_state}
use s5_rs.Fs.CreateDir.Extract.{extracted_rest, strip_prefix-append}
use s5_rs.Fs.Tree.{
  path, LocalState, actor, Children, child, here, first_of, split_once, route_from, route_dir,
  route_to_child,
}
use s5_rs.Fs.Tree.Promotion.{DirCodec}
use s5_rs.Fs.Tree.Api.{create_dir_op, create_dir, file_get, unless_tombstone}
use s5_rs.Fs.Tree.Names.{split_once-some, split_once-append, slash_append}
use s5_rs.Fs.Tree.Step.{file_of, IsUnsharded, destination_here}
use s5_rs.Fs.Tree.Promoted.{
  split_state, split_dirs, split_header, published-IsAlike, first_here, here_lem, dir_here,
}
use s5_rs.Fs.Tree.Reach.{way_of, none-some}
use s5_rs.Fs.Tree.Tidy.{IsTidy}
use s5_rs.Fs.Tree.Laws.{file_get-file_at}
use s5_rs.Fs.Tree.NewDir.{made, made_child, create_dir_op-made}

-- The first name of a path below a path with a slash.
split_below :
    (p name : Bytes) {g rest : Bytes}
    → split_once p ≡ some (g, rest)
    → split_once (slash_after p ++ name) ≡ some (g, slash_after rest ++ name)
split_below p name {g = g} {rest = rest} h =
    let (whole, is_name) = split_once-some p {g = g} {rest = rest} h in
    ap split_once (
      ap (λ x. slash_after x ++ name) whole
      ∙ slash_append (g ++ (47 ∷ rest)) name
      ∙ append_assoc g (47 ∷ rest) (47 ∷ name)
      ∙ ap (λ x. g ++ (47 ∷ x)) (sym (slash_append rest name)))
    ∙ split_once-append g (slash_after rest ++ name) is_name

longer_path : (p g rest : Bytes) → split_once p ≡ some (g, rest) → is_same p g ≡ false
longer_path p g rest split = elim (Bool-cases (is_same p g)) [
  | inr e ↦ e
  | inl e ↦
      let name = (split_once-some p {g = g} {rest = rest} split).1 in
      absurd (none-some (sym name ∙ ap split_once (sym (is_same_eq p g e)) ∙ split))
]

module _ (codec : DirCodec) (xxh3_64 : Bytes → ℕ) where
  -- A path with a slash that ends here has a first name that is no directory and in no shard.
  slash_here :
      (a : LocalState) (p g rest : Bytes)
      → split_once p ≡ some (g, rest)
      → route_to_child xxh3_64 a.state p ≡ here
      → IsUnsharded xxh3_64 a.state.header g × (contains_key a.state.dirs g ≡ false)
  slash_here a p g rest split ends =
      let parts : first_of p ≡ (g, rest) =
        ap (λ o. elim o as (λ x. Bytes × Bytes) [ none ↦ (p, []) | some x ↦ x ]) split in
      let direct = route_dir a.state g rest in
      let end_at : route_from xxh3_64 a.state.header direct g p ≡ here =
        subst (λ x. route_from xxh3_64 a.state.header (route_dir a.state x.0 x.1) x.0 p ≡ here)
          parts ends in
      let unsharded = here_lem xxh3_64 a.state.header direct g p end_at in
      (unsharded, dir_here xxh3_64 a.state g rest (sym (unsharded direct p) ∙ end_at))

  -- In a tidy directory, create_dir at a path with a slash that ends in the directory, and that no
  -- child directory has as its name yet, hides all files below the path: where file_get found the
  -- entry of the directory before, it finds none afterwards.
  pub create_dir-hides :
      (a : LocalState) (cs : Children) (p name g rest : Bytes)
      → IsTidy (actor a cs)
      → split_once p ≡ some (g, rest)
      → route_to_child xxh3_64 a.state p ≡ here
      → contains_key a.state.dirs p ≡ false
      → ((file_get codec xxh3_64 (actor a cs) (slash_after p ++ name)).1
          ≡ unless_tombstone (some (BTreeMap.get a.state.files (slash_after p ++ name))))
        × ((file_get codec xxh3_64
              (create_dir codec xxh3_64 (actor a cs) p).0
              (slash_after p ++ name)).1
            ≡ none)
  unfolding create_dir
  create_dir-hides a cs p name g rest tidy split ends fresh =
      let q = slash_after p ++ name in
      let parts_below : first_of q ≡ (g, slash_after rest ++ name) =
        ap (λ o. elim o as (λ x. Bytes × Bytes) [ none ↦ (q, []) | some x ↦ x ])
          (split_below p name split) in
      let first : is_same (first_of q).0 g ≡ true =
        ap (λ x. is_same x.0 g) parts_below ∙ is_same_refl g in
      let (unsharded, no_dir) = slash_here a p g rest split ends in
      let b = made codec a p in
      let ds = child (path p) (made_child codec a p) cs in
      let alike =
        published-IsAlike codec (split_state codec a p) p
          (codec.save (extract_child_dir_state a.state p).1) in
      let header = alike.same_header ∙ split_header codec a.state p in
      let different : is_same p g ≡ false = longer_path p g rest split in
      let still_none : contains_key b.state.dirs g ≡ false =
        alike.same_dirs g
        ∙ split_dirs codec a.state p g (codec.build_child_dir_ref p)
        ∙ ap₂ (λ x y. x || y) different no_dir in
      let still_here =
        first_here xxh3_64 b g q (subst (λ h. IsUnsharded xxh3_64 h g) (sym header) unsharded)
          still_none first in
      let created =
        way_of xxh3_64 (create_dir_op codec) a cs p ends
        ∙ create_dir_op-made codec a cs p fresh (tidy.0 p fresh) in
      let starts : starts_with q (slash_after p) ≡ true =
        ap is_some (strip_prefix-append (slash_after p) name) in
      let gone : BTreeMap.get b.state.files q ≡ none =
        ap (λ f. BTreeMap.get f q) alike.same_files
        ∙ extracted_rest a.state p q
        ∙ ap (λ c. if c then none else BTreeMap.get a.state.files q) starts in
      (
        file_get-file_at xxh3_64 codec (actor a cs) q
            ∙ ap (λ o. unless_tombstone (some (file_of o)))
                (destination_here xxh3_64 a cs q (first_here xxh3_64 a g q unsharded no_dir first)),
        ap (λ t. (file_get codec xxh3_64 t.0 q).1) created
            ∙ file_get-file_at xxh3_64 codec (actor b ds) q
            ∙ ap (λ o. unless_tombstone (some (file_of o)))
                (destination_here xxh3_64 b ds q still_here)
            ∙ ap (λ o. unless_tombstone (some o)) gone,
      )
