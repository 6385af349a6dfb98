-- ===== src/Fs/Tree/Again.antt =====
-- Creating a directory that exists already (s5_fs/src/api.rs, create_dir, with create_dir_at of
-- s5_fs/src/actor.rs).
use s5_rs.Base.{
  ℕ, ◌≡◌, refl, ap, sym, ◌∙◌, subst, Bytes, none, some, [], if◌then◌else◌, is_some, is_same_refl,
  bytes_ord,
}
use s5_rs.BTreeMap
use s5_rs.Fs.Tree.{LocalState, Tree, Children, destination, split_once}
use s5_rs.Fs.Tree.Promotion.{DirCodec}
use s5_rs.Fs.Tree.Api.{create_dir, file_get, unless_tombstone}
use s5_rs.Fs.Tree.Names.{IsName}
use s5_rs.Fs.Tree.Step.{file_of}
use s5_rs.Fs.Tree.Groups.{NoneBelow}
use s5_rs.Fs.Tree.Kin.{IsPlain, Kin, name_below}
use s5_rs.Fs.Tree.Reach.{some_inj}
use s5_rs.Fs.Tree.Tidy.{IsTidy}
use s5_rs.Fs.Tree.Laws.{IsOpen, file_get-file_at}
use s5_rs.Fs.Tree.NewDir.{create_dir-view}

empty-IsName : IsName []
unfolding split_once
empty-IsName = refl

module _ (codec : DirCodec) (xxh3_64 : Bytes → ℕ) where
  -- In a tidy tree, where a path that does not end in a slash leads into a directory that exists,
  -- which holds no files below an empty name, create_dir of the path succeeds once more and
  -- changes what the path finds: before it file_get finds the file of the empty name in that
  -- directory, if there is one, afterwards nothing.
  pub create_dir-again :
      (t : Tree) (p : Bytes) (a : LocalState) (cs : Children)
      → IsTidy t
      → destination xxh3_64 t p ≡ some (a, (cs, []))
      → IsPlain p
      → NoneBelow a.state.files []
      → ((file_get codec xxh3_64 t p).1 ≡ unless_tombstone (some (BTreeMap.get a.state.files [])))
        × ((create_dir codec xxh3_64 t p).1 ≡ some tt)
        × ((file_get codec xxh3_64 (create_dir codec xxh3_64 t p).0 p).1 ≡ none)
  create_dir-again t p a cs tidy leads plain clear =
      let kin : Kin p p = record {
        first_IsPlain = plain;
        second_IsPlain = plain;
        not_below = λ name. name_below p name;
      } in
      let open_at : IsOpen xxh3_64 codec t p =
        λ r e. subst (λ x. NoneBelow x.0.state.files x.1.1) (some_inj (sym leads ∙ e)) clear in
      let (done, after) =
        create_dir-view codec xxh3_64 t p p tidy (ap is_some leads)
          (λ r e. subst (λ x. IsName x.1.1) (some_inj (sym leads ∙ e)) empty-IsName) kin open_at in
      (
        file_get-file_at xxh3_64 codec t p ∙ ap (λ o. unless_tombstone (some (file_of o))) leads,
        done,
        after ∙ ap (λ b. if b then none else (file_get codec xxh3_64 t p).1) (is_same_refl p),
      )
