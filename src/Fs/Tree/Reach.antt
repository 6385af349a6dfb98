-- ===== src/Fs/Tree/Reach.antt =====
-- An operation on a path changes the directory that the path leads to (s5_fs/src/actor.rs, PathOp).
use s5_rs.Base.{
  ℕ, ◌≡◌, refl, ap, ap₂, sym, ◌∙◌, subst, Bytes, Bool, true, false, Option, none, some, inl, inr,
  if◌then◌else◌, is_some, is_same, is_same_eq, is_same_refl, bytes_ord, arith, Bool-cases,
}
use s5_rs.BTreeMap
use s5_rs.BTreeMap.{contains_key}
use s5_rs.Fs.Dir.{FileRef}
use s5_rs.Fs.Tree.{
  DirHandlePath, path, shard, is_child, LocalState, Tree, closed, actor, Children, no_children,
  child, LocalOp, Route, here, failed, into, route_to_child, notified, path_op, child_op,
  destination, destination_in,
}
use s5_rs.Fs.Tree.Step.{
  file_of, file_at, Route-cases, destination_here, destination-failed, destination_into,
  destination_in_other, destination_in_same,
}
use s5_rs.Fs.Tree.Groups.{NoneBelow}
use s5_rs.Fs.Tree.Promoted.{IsClear}
use s5_rs.Fs.Tree.Kin.{Kin, Kin-into}

is_child_eq : (k l : DirHandlePath) → is_child k l ≡ true → k ≡ l
is_child_eq (path a) (path b) e = ap path (is_same_eq a b e)
is_child_eq (shard i) (shard j) e = ap shard (ground (arith, e))
is_child_eq (path a) (shard j) e = absurd (ground (arith, e))
is_child_eq (shard i) (path b) e = absurd (ground (arith, e))

is_child_refl : (k : DirHandlePath) → is_child k k ≡ true
is_child_refl (path a) = is_same_refl a
is_child_refl (shard i) = ground arith

keys_differ : {k l : DirHandlePath} {p q : Bytes} → into k p ≡ into l q → is_child k l ≡ false → ⊥
keys_differ {k = k} {l = l} {p = p} {q = q} e h =
    let same : k ≡ l = ground (arith, e) in
    let hit = subst (λ x. is_child k x ≡ true) same (is_child_refl k) in ground (arith, h, hit)

pub notified_state :
    (a : LocalState) (k : DirHandlePath) (b : Bool) → (notified a k b).state ≡ a.state
notified_state a k b = ground arith

pub some_inj {ℓ} : {A : Type ℓ} {x y : A} → some x ≡ some y → x ≡ y
some_inj e = ground (arith, e)

pub none-some {ℓ} : {A : Type ℓ} {x : A} → none ≡ some x → ⊥
none-some e = ground (arith, e)

-- No files lie below the entry that a path leads to.
abbrev pub ClearAt : Option (LocalState × (Children × Bytes)) → Type 0
ClearAt d = (r : LocalState × (Children × Bytes)) → d ≡ some r → NoneBelow r.0.state.files r.1.1

module _ (xxh3_64 : Bytes → ℕ) {R : Type 0} (op : LocalOp R) where
  pub way_of :
      (a : LocalState) (cs : Children) (p : Bytes) {r : Route}
      → route_to_child xxh3_64 a.state p ≡ r
      → path_op xxh3_64 op (actor a cs) p ≡ elim r [
        | here ↦ op a cs p
        | failed ↦ (actor a cs, none)
        | into key rest ↦
            let r = child_op xxh3_64 op cs key rest in (actor (notified a key r.1.0) r.0, r.1.1)
      ]
  unfolding path_op
  way_of a cs p e =
      ap
        (λ r. elim r [
          | here ↦ op a cs p
          | failed ↦ (actor a cs, none)
          | into key rest ↦
              let r = child_op xxh3_64 op cs key rest in (actor (notified a key r.1.0) r.0, r.1.1)
        ])
        e

  path_op_closed : (p : Bytes) → (path_op xxh3_64 op closed p).1 ≡ none
  unfolding path_op
  path_op_closed p = refl

  child_op-none :
      (key : DirHandlePath) (p : Bytes) → (child_op xxh3_64 op no_children key p).1.1 ≡ none
  unfolding path_op
  child_op-none key p = refl

  pub child_op_same :
      (k key : DirHandlePath) (t : Tree) (cs : Children) (p : Bytes)
      → is_child k key ≡ true
      → ((child_op xxh3_64 op (child k t cs) key p).0 ≡ child k (path_op xxh3_64 op t p).0 cs)
        × ((child_op xxh3_64 op (child k t cs) key p).1.1 ≡ (path_op xxh3_64 op t p).1)
  unfolding path_op
  child_op_same k key t cs p e = (ground (arith, e), ground (arith, e))

  pub child_op_other :
      (k key : DirHandlePath) (t : Tree) (cs : Children) (p : Bytes)
      → is_child k key ≡ false
      → ((child_op xxh3_64 op (child k t cs) key p).0 ≡ child k t (child_op xxh3_64 op cs key p).0)
        × ((child_op xxh3_64 op (child k t cs) key p).1.1 ≡ (child_op xxh3_64 op cs key p).1.1)
  unfolding path_op
  child_op_other k key t cs p e = (ground (arith, e), ground (arith, e))

  -- Children under other keys stay.
  child_op_apart :
      (cs : Children) (key other : DirHandlePath) (p q : Bytes)
      → is_child key other ≡ false
      → destination_in xxh3_64 (child_op xxh3_64 op cs key p).0 other q
        ≡ destination_in xxh3_64 cs other q
  unfolding path_op
  child_op_apart no_children key other p q apart = refl
  child_op_apart (child k t cs) key other p q apart = elim (Bool-cases (is_child k key)) [
    | inl e ↦
        let miss : is_child k other ≡ false =
          subst (λ x. is_child x other ≡ false) (sym (is_child_eq k key e)) apart in
        ap (λ x. destination_in xxh3_64 x other q) (child_op_same k key t cs p e).0
        ∙ destination_in_other xxh3_64 k other (path_op xxh3_64 op t p).0 cs q miss
        ∙ sym (destination_in_other xxh3_64 k other t cs q miss)
    | inr e ↦
        ap (λ x. destination_in xxh3_64 x other q) (child_op_other k key t cs p e).0
        ∙ elim (Bool-cases (is_child k other)) [
          | inl h ↦
              destination_in_same xxh3_64 k other t (child_op xxh3_64 op cs key p).0 q h
              ∙ sym (destination_in_same xxh3_64 k other t cs q h)
          | inr h ↦
              destination_in_other xxh3_64 k other t (child_op xxh3_64 op cs key p).0 q h
              ∙ child_op_apart cs key other p q apart
              ∙ sym (destination_in_other xxh3_64 k other t cs q h)
        ]
  ]

  -- The result is that of the operation where the path ends.
  mutual
    unfolding destination

    pub path_op-result :
        (t : Tree) (p : Bytes) (r : LocalState × (Children × Bytes))
        → destination xxh3_64 t p ≡ some r
        → (path_op xxh3_64 op t p).1 ≡ (op r.0 r.1.0 r.1.1).1
    path_op-result closed p r h = absurd (ground (arith, h))
    path_op-result (actor a cs) p r h = elim (Route-cases (route_to_child xxh3_64 a.state p)) [
      | inl e ↦
          let same = some_inj (sym (destination_here xxh3_64 a cs p e) ∙ h) in
          ap (λ x. x.1) (way_of a cs p e) ∙ ap (λ x. (op x.0 x.1.0 x.1.1).1) same
      | inr (inl e) ↦ absurd (none-some (sym (destination-failed xxh3_64 a cs p e) ∙ h))
      | inr (inr (k, rest, e)) ↦
          ap (λ x. x.1) (way_of a cs p e)
          ∙ child_op-result cs k rest r (sym (destination_into xxh3_64 a cs p e) ∙ h)
    ]

    child_op-result :
        (cs : Children) (key : DirHandlePath) (p : Bytes) (r : LocalState × (Children × Bytes))
        → destination_in xxh3_64 cs key p ≡ some r
        → (child_op xxh3_64 op cs key p).1.1 ≡ (op r.0 r.1.0 r.1.1).1
    child_op-result no_children key p r h = absurd (ground (arith, h))
    child_op-result (child k t cs) key p r h = elim (Bool-cases (is_child k key)) [
      | inl e ↦
          (child_op_same k key t cs p e).1
          ∙ path_op-result t p r (sym (destination_in_same xxh3_64 k key t cs p e) ∙ h)
      | inr e ↦
          (child_op_other k key t cs p e).1
          ∙ child_op-result cs key p r (sym (destination_in_other xxh3_64 k key t cs p e) ∙ h)
    ]

  -- A path that leads nowhere gives no result.
  mutual
    unfolding destination

    pub path_op-lost :
        (t : Tree) (p : Bytes) → destination xxh3_64 t p ≡ none → (path_op xxh3_64 op t p).1 ≡ none
    path_op-lost closed p h = path_op_closed p
    path_op-lost (actor a cs) p h = elim (Route-cases (route_to_child xxh3_64 a.state p)) [
      | inl e ↦ absurd (none-some (sym h ∙ destination_here xxh3_64 a cs p e))
      | inr (inl e) ↦ ap (λ x. x.1) (way_of a cs p e)
      | inr (inr (k, rest, e)) ↦
          ap (λ x. x.1) (way_of a cs p e)
          ∙ child_op-lost cs k rest (sym (destination_into xxh3_64 a cs p e) ∙ h)
    ]

    child_op-lost :
        (cs : Children) (key : DirHandlePath) (p : Bytes)
        → destination_in xxh3_64 cs key p ≡ none
        → (child_op xxh3_64 op cs key p).1.1 ≡ none
    child_op-lost no_children key p h = child_op-none key p
    child_op-lost (child k t cs) key p h = elim (Bool-cases (is_child k key)) [
      | inl e ↦
          (child_op_same k key t cs p e).1
          ∙ path_op-lost t p (sym (destination_in_same xxh3_64 k key t cs p e) ∙ h)
      | inr e ↦
          (child_op_other k key t cs p e).1
          ∙ child_op-lost cs key p (sym (destination_in_other xxh3_64 k key t cs p e) ∙ h)
    ]

  module _ (v : Option FileRef) where
    -- The operation puts `v` at its path and keeps all other entries that have no files below them.
    abbrev pub Puts : Option (LocalState × (Children × Bytes)) → Type 0
    Puts d =
        (r : LocalState × (Children × Bytes))
        → d ≡ some r
        → (q : Bytes) → Kin r.1.1 q
        → IsClear xxh3_64 r.0 q
        → file_at xxh3_64 (op r.0 r.1.0 r.1.1).0 q
          ≡ (if is_same r.1.1 q then v else file_at xxh3_64 (actor r.0 r.1.0) q)

    -- Paths that go different ways are different.
    other_way :
        (a : LocalState) (p q : Bytes) {r s : Route}
        → route_to_child xxh3_64 a.state p ≡ r
        → route_to_child xxh3_64 a.state q ≡ s
        → (r ≡ s → ⊥)
        → is_same p q ≡ false
    other_way a p q e f differ = elim (Bool-cases (is_same p q)) [
      | inl h ↦ absurd (differ (sym e ∙ ap (route_to_child xxh3_64 a.state) (is_same_eq p q h) ∙ f))
      | inr h ↦ h
    ]

    -- The directory after an operation in a child, which may have told it that it is dirty.
    abbrev told : LocalState → Children → DirHandlePath → Bytes → LocalState
    told a cs k rest = notified a k (child_op xxh3_64 op cs k rest).1.0

    into_lem :
        (a : LocalState) (cs : Children) (p q : Bytes) (k : DirHandlePath) (rest : Bytes)
        → route_to_child xxh3_64 a.state p ≡ into k rest
        → ((q' : Bytes)
            → Kin rest q'
            → ClearAt (destination_in xxh3_64 cs k q')
            → file_of (destination_in xxh3_64 (child_op xxh3_64 op cs k rest).0 k q')
              ≡ (if is_same rest q' then v else file_of (destination_in xxh3_64 cs k q')))
        → Kin p q
        → ClearAt (destination xxh3_64 (actor a cs) q)
        → file_at xxh3_64 (path_op xxh3_64 op (actor a cs) p).0 q
          ≡ (if is_same p q then v else file_at xxh3_64 (actor a cs) q)
    into_lem a cs p q k rest e below kin clear =
        let b = told a cs k rest in
        let ds = (child_op xxh3_64 op cs k rest).0 in
        let state = notified_state a k (child_op xxh3_64 op cs k rest).1.0 in
        let led = ap (λ s. route_to_child xxh3_64 s q) state in
        let choice = λ (c : Bool). if c then v else file_at xxh3_64 (actor a cs) q in
        ap (λ x. file_at xxh3_64 x.0 q) (way_of a cs p e)
        ∙ elim (Route-cases (route_to_child xxh3_64 a.state q)) [
          | inl f ↦
              ap file_of (destination_here xxh3_64 b ds q (led ∙ f))
              ∙ ap (λ s. BTreeMap.get s.files q) state
              ∙ sym (ap file_of (destination_here xxh3_64 a cs q f))
              ∙ sym (ap choice (other_way a p q e f (λ h. ground (arith, h))))
          | inr (inl f) ↦
              ap file_of (destination-failed xxh3_64 b ds q (led ∙ f))
              ∙ sym (ap file_of (destination-failed xxh3_64 a cs q f))
              ∙ sym (ap choice (other_way a p q e f (λ h. ground (arith, h))))
          | inr (inr (k', rest', f)) ↦
              ap file_of (destination_into xxh3_64 b ds q (led ∙ f))
              ∙ elim (Bool-cases (is_child k k')) [
                | inl h ↦
                    let same = is_child_eq k k' h in
                    let g =
                      subst (λ x. route_to_child xxh3_64 a.state q ≡ into x rest') (sym same) f in
                    let down = destination_into xxh3_64 a cs q g in
                    let (kin', alike) = Kin-into xxh3_64 a.state p q rest rest' k e g kin in
                    ap (λ x. file_of (destination_in xxh3_64 ds x rest')) (sym same)
                    ∙ below rest' kin' (subst ClearAt down clear)
                    ∙ ap₂ (λ c x. if c then v else file_of x) alike (sym down)
                | inr h ↦
                    ap file_of (
                      child_op_apart cs k k' rest rest' h ∙ sym (destination_into xxh3_64 a cs q f))
                    ∙ sym (ap choice (other_way a p q e f (λ same. keys_differ same h)))
              ]
        ]

    mutual
      unfolding destination

      pub path_op_lem :
          (t : Tree) (p q : Bytes)
          → is_some (destination xxh3_64 t p) ≡ true
          → Puts (destination xxh3_64 t p)
          → Kin p q
          → ClearAt (destination xxh3_64 t q)
          → file_at xxh3_64 (path_op xxh3_64 op t p).0 q
            ≡ (if is_same p q then v else file_at xxh3_64 t q)
      path_op_lem closed p q there puts kin clear = absurd (ground (arith, there))
      path_op_lem (actor a cs) p q there puts kin clear =
          elim (Route-cases (route_to_child xxh3_64 a.state p)) [
            | inl e ↦
                ap (λ x. file_at xxh3_64 x.0 q) (way_of a cs p e)
                ∙ puts (a, (cs, p)) (destination_here xxh3_64 a cs p e) q kin
                    (λ h. clear (a, (cs, q)) (destination_here xxh3_64 a cs q h))
            | inr (inl e) ↦ absurd (ground (arith, there, destination-failed xxh3_64 a cs p e))
            | inr (inr (k, rest, e)) ↦
                let down = destination_into xxh3_64 a cs p e in
                into_lem a cs p q k rest e
                  (λ q' kin' clear'.
                    child_op_lem cs k rest q' (ap is_some (sym down) ∙ there) (subst Puts down puts)
                      kin' clear')
                  kin clear
          ]

      child_op_lem :
          (cs : Children) (key : DirHandlePath) (p q : Bytes)
          → is_some (destination_in xxh3_64 cs key p) ≡ true
          → Puts (destination_in xxh3_64 cs key p)
          → Kin p q
          → ClearAt (destination_in xxh3_64 cs key q)
          → file_of (destination_in xxh3_64 (child_op xxh3_64 op cs key p).0 key q)
            ≡ (if is_same p q then v else file_of (destination_in xxh3_64 cs key q))
      child_op_lem no_children key p q there puts kin clear = absurd (ground (arith, there))
      child_op_lem (child k t cs) key p q there puts kin clear =
          elim (Bool-cases (is_child k key)) [
            | inl e ↦
                let first = destination_in_same xxh3_64 k key t cs p e in
                let second = destination_in_same xxh3_64 k key t cs q e in
                ap (λ x. file_of (destination_in xxh3_64 x key q)) (child_op_same k key t cs p e).0
                ∙ ap file_of (destination_in_same xxh3_64 k key (path_op xxh3_64 op t p).0 cs q e)
                ∙ path_op_lem t p q (ap is_some (sym first) ∙ there) (subst Puts first puts) kin
                    (subst ClearAt second clear)
                ∙ ap (λ x. if is_same p q then v else file_of x) (sym second)
            | inr e ↦
                let first = destination_in_other xxh3_64 k key t cs p e in
                let second = destination_in_other xxh3_64 k key t cs q e in
                ap (λ x. file_of (destination_in xxh3_64 x key q)) (child_op_other k key t cs p e).0
                ∙ ap file_of
                    (destination_in_other xxh3_64 k key t (child_op xxh3_64 op cs key p).0 q e)
                ∙ child_op_lem cs key p q (ap is_some (sym first) ∙ there) (subst Puts first puts)
                    kin (subst ClearAt second clear)
                ∙ ap (λ x. if is_same p q then v else file_of x) (sym second)
          ]
