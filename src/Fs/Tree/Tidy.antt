-- ===== src/Fs/Tree/Tidy.antt =====
-- Actors of child directories stand only under the names of directories (s5_fs/src/actor.rs).
use s5_rs.Base.{
  ℕ, ◌≡◌, refl, ap, sym, ◌∙◌, subst, Bytes, false, ◌||◌, some, inl, inr, bytes_ord, Bool-cases,
}
use s5_rs.BTreeMap.{contains_key}
use s5_rs.Fs.Dir.{DirV1}
use s5_rs.Fs.Tree.{
  DirHandlePath, path, is_child, LocalState, Tree, closed, actor, Children, no_children, child,
  here, first_of, route_dir, route_to_child, LocalOp, path_op, child_op, notified, destination,
  destination_in,
}
use s5_rs.Fs.Tree.Promotion.{has_child}
use s5_rs.Fs.Tree.Step.{
  Route-cases, destination_here, destination-failed, destination_into, destination_in_other,
  destination_in_same,
}
use s5_rs.Fs.Tree.Promoted.{here_lem, dir_here}
use s5_rs.Fs.Tree.Reach.{some_inj, none-some, way_of, child_op_same, child_op_other, notified_state}

-- No actor stands under a name that is no directory.
abbrev pub HasOnlyDirs : DirV1 → Children → Type 0
HasOnlyDirs s cs = (n : Bytes) → contains_key s.dirs n ≡ false → has_child cs (path n) ≡ false

abbrev mutual
  pub IsTidy : Tree → Type 0
  IsTidy closed = Unit
  IsTidy (actor a cs) = HasOnlyDirs a.state cs × AllTidy cs

  pub AllTidy : Children → Type 0
  AllTidy no_children = Unit
  AllTidy (child k t cs) = IsTidy t × AllTidy cs

module _ (xxh3_64 : Bytes → ℕ) where
  -- The directory that a path ends in.
  abbrev pub IsEnd : LocalState × (Children × Bytes) → Type 0
  IsEnd r =
      (route_to_child xxh3_64 r.0.state r.1.1 ≡ here)
      × (HasOnlyDirs r.0.state r.1.0 × AllTidy r.1.0)

  mutual
    unfolding destination

    pub destination-IsEnd :
        (t : Tree) (p : Bytes) (r : LocalState × (Children × Bytes))
        → IsTidy t
        → destination xxh3_64 t p ≡ some r
        → IsEnd r
    destination-IsEnd closed p r tidy h = absurd (none-some h)
    destination-IsEnd (actor a cs) p r tidy h =
        elim (Route-cases (route_to_child xxh3_64 a.state p)) [
          | inl e ↦ subst IsEnd (some_inj (sym (destination_here xxh3_64 a cs p e) ∙ h)) (e, tidy)
          | inr (inl e) ↦ absurd (none-some (sym (destination-failed xxh3_64 a cs p e) ∙ h))
          | inr (inr (k, rest, e)) ↦
              destination_in-IsEnd cs k rest r tidy.1 (sym (destination_into xxh3_64 a cs p e) ∙ h)
        ]

    destination_in-IsEnd :
        (cs : Children) (key : DirHandlePath) (p : Bytes) (r : LocalState × (Children × Bytes))
        → AllTidy cs
        → destination_in xxh3_64 cs key p ≡ some r
        → IsEnd r
    destination_in-IsEnd no_children key p r tidy h = absurd (none-some h)
    destination_in-IsEnd (child k t cs) key p r tidy h = elim (Bool-cases (is_child k key)) [
      | inl e ↦
          destination-IsEnd t p r tidy.0 (sym (destination_in_same xxh3_64 k key t cs p e) ∙ h)
      | inr e ↦
          destination_in-IsEnd cs key p r tidy.1
            (sym (destination_in_other xxh3_64 k key t cs p e) ∙ h)
    ]

  -- Where a path ends, no actor stands under its first name.
  pub end_alone :
      (r : LocalState × (Children × Bytes))
      → IsEnd r
      → has_child r.1.0 (path (first_of r.1.1).0) ≡ false
  end_alone r (ends, only) =
      let n = (first_of r.1.1).0 in
      let direct = route_dir r.0.state n (first_of r.1.1).1 in
      let unsharded = here_lem xxh3_64 r.0.state.header direct n r.1.1 ends in
      only.0 n
        (dir_here xxh3_64 r.0.state n (first_of r.1.1).1 (sym (unsharded direct r.1.1) ∙ ends))

  module _ {R : Type 0} (op : LocalOp R) where
    has_child_op :
        (cs : Children) (key other : DirHandlePath) (p : Bytes)
        → has_child (child_op xxh3_64 op cs key p).0 other ≡ has_child cs other
    unfolding path_op
    has_child_op no_children key other p = refl
    has_child_op (child k t cs) key other p = elim (Bool-cases (is_child k key)) [
      | inl e ↦ ap (λ x. has_child x other) (child_op_same xxh3_64 op k key t cs p e).0
      | inr e ↦
          ap (λ x. has_child x other) (child_op_other xxh3_64 op k key t cs p e).0
          ∙ ap (λ b. is_child k other || b) (has_child_op cs key other p)
    ]

    mutual
      unfolding path_op

      -- Operations on paths keep trees tidy that the operation at the end of a path keeps tidy.
      pub path_op-IsTidy :
          (t : Tree) (p : Bytes)
          → ((a : LocalState) (cs : Children) (p : Bytes)
              → IsEnd (a, (cs, p))
              → IsTidy (op a cs p).0)
          → IsTidy t
          → IsTidy (path_op xxh3_64 op t p).0
      path_op-IsTidy closed p step tidy = tt
      path_op-IsTidy (actor a cs) p step tidy =
          elim (Route-cases (route_to_child xxh3_64 a.state p)) [
            | inl e ↦
                subst (λ x. IsTidy x.0) (sym (way_of xxh3_64 op a cs p e)) (step a cs p (e, tidy))
            | inr (inl e) ↦ subst (λ x. IsTidy x.0) (sym (way_of xxh3_64 op a cs p e)) tidy
            | inr (inr (k, rest, e)) ↦
                let r = child_op xxh3_64 op cs k rest in
                let same = notified_state a k r.1.0 in
                let only : HasOnlyDirs (notified a k r.1.0).state r.0 = λ n absent.
                  has_child_op cs k (path n) rest
                  ∙ tidy.0 n (ap (λ s. contains_key s.dirs n) (sym same) ∙ absent) in
                subst (λ x. IsTidy x.0) (sym (way_of xxh3_64 op a cs p e))
                  (only, child_op-AllTidy cs k rest step tidy.1)
          ]

      child_op-AllTidy :
          (cs : Children) (key : DirHandlePath) (p : Bytes)
          → ((a : LocalState) (cs : Children) (p : Bytes)
              → IsEnd (a, (cs, p))
              → IsTidy (op a cs p).0)
          → AllTidy cs
          → AllTidy (child_op xxh3_64 op cs key p).0
      child_op-AllTidy no_children key p step tidy = tt
      child_op-AllTidy (child k t cs) key p step tidy = elim (Bool-cases (is_child k key)) [
        | inl e ↦
            subst AllTidy (sym (child_op_same xxh3_64 op k key t cs p e).0)
              (path_op-IsTidy t p step tidy.0, tidy.1)
        | inr e ↦
            subst AllTidy (sym (child_op_other xxh3_64 op k key t cs p e).0)
              (tidy.0, child_op-AllTidy cs key p step tidy.1)
      ]
