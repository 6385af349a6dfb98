-- ===== src/Fs/Tree/Step.antt =====
-- What a new child directory changes for the files that paths lead to (s5_fs/src/actor.rs,
-- route_to_child).
use s5_rs.Base.{
  ℕ, ◌≡◌, refl, ap, ap₂, sym, ◌∙◌, subst, Bytes, true, false, ◌||◌, Option, none, some,
  if◌then◌else◌, is_same, is_same_eq, is_same_refl, is_same_alike, bytes_ord, arith, Bool-cases,
  inl, inr, ◌⊎◌,
}
use s5_rs.BTreeMap
use s5_rs.BTreeMap.{BTreeMap, contains_key}
use s5_rs.Fs.Dir.{DirV1, DirHeader, FileRef}
use s5_rs.Fs.CreateDir.{starts_with, slash_after}
use s5_rs.Fs.Tree.{
  DirHandlePath, path, is_child, LocalState, Tree, actor, Children, child, Route, here, failed,
  into, first_of, route_dir, route_from, route_names, route_to_child, destination, destination_in,
}
use s5_rs.Fs.Tree.Names.{IsName, starts_with_other}

-- The file at the end of a path.
abbrev pub file_of : Option (LocalState × (Children × Bytes)) → Option FileRef
file_of none = none
file_of (some r) = BTreeMap.get r.0.state.files r.1.1

pub Route-cases :
    (r : Route)
    → (r ≡ here) ⊎ ((r ≡ failed) ⊎ ((k : DirHandlePath) × (rest : Bytes) × (r ≡ into k rest)))
Route-cases here = inl refl
Route-cases failed = inr (inl refl)
Route-cases (into k rest) = inr (inr (k, rest, refl))

pub is_same_comm : (a b : Bytes) → is_same a b ≡ is_same b a
is_same_comm a b = is_same_alike a b b a sym sym

module _ (xxh3_64 : Bytes → ℕ) where
  abbrev pub file_at : Tree → Bytes → Option FileRef
  file_at t p = file_of (destination xxh3_64 t p)

  -- A name that no shard holds.
  abbrev pub IsUnsharded : DirHeader → Bytes → Type 0
  IsUnsharded header name =
      (direct : Route) (whole : Bytes) → route_from xxh3_64 header direct name whole ≡ direct

  -- The way to an entry depends on the header and on which directories there are.
  route_same :
      (s s' : DirV1) (name whole rest : Bytes)
      → s'.header ≡ s.header
      → contains_key s'.dirs name ≡ contains_key s.dirs name
      → route_names xxh3_64 s' name whole rest ≡ route_names xxh3_64 s name whole rest
  route_same s s' name whole rest header dirs =
      ap₂ (λ h b. route_from xxh3_64 h (if b then into (path name) rest else here) name whole)
        header dirs

  way :
      (a : LocalState) (cs : Children) (p : Bytes) {r : Route}
      → route_to_child xxh3_64 a.state p ≡ r
      → destination xxh3_64 (actor a cs) p ≡ elim r [
        | here ↦ some (a, (cs, p))
        | failed ↦ none
        | into k rest ↦ destination_in xxh3_64 cs k rest
      ]
  unfolding destination
  way a cs p e =
      ap
        (λ r. elim r [
          | here ↦ some (a, (cs, p))
          | failed ↦ none
          | into k rest ↦ destination_in xxh3_64 cs k rest
        ])
        e

  pub destination_here :
      (a : LocalState) (cs : Children) (p : Bytes)
      → route_to_child xxh3_64 a.state p ≡ here
      → destination xxh3_64 (actor a cs) p ≡ some (a, (cs, p))
  destination_here a cs p e = way a cs p e

  pub destination-failed :
      (a : LocalState) (cs : Children) (p : Bytes)
      → route_to_child xxh3_64 a.state p ≡ failed
      → destination xxh3_64 (actor a cs) p ≡ none
  destination-failed a cs p e = way a cs p e

  pub destination_into :
      (a : LocalState) (cs : Children) (p : Bytes) {k : DirHandlePath} {rest : Bytes}
      → route_to_child xxh3_64 a.state p ≡ into k rest
      → destination xxh3_64 (actor a cs) p ≡ destination_in xxh3_64 cs k rest
  destination_into a cs p e = way a cs p e

  -- A path with another first name does not lead into the child of a name.
  other_key :
      (s : DirV1) (g name whole rest : Bytes) (k : DirHandlePath) (left : Bytes)
      → is_same name g ≡ false
      → route_names xxh3_64 s name whole rest ≡ into k left
      → is_child (path g) k ≡ false
  unfolding route_from
  other_key s g name whole rest k left other e = ground (arith, e, other, is_same_comm g name)

  pub destination_in_other :
      (k key : DirHandlePath) (t : Tree) (cs : Children) (p : Bytes)
      → is_child k key ≡ false
      → destination_in xxh3_64 (child k t cs) key p ≡ destination_in xxh3_64 cs key p
  unfolding destination
  destination_in_other k key t cs p e = ground (arith, e)

  pub destination_in_same :
      (k key : DirHandlePath) (t : Tree) (cs : Children) (p : Bytes)
      → is_child k key ≡ true
      → destination_in xxh3_64 (child k t cs) key p ≡ destination xxh3_64 t p
  unfolding destination
  destination_in_same k key t cs p e = ground (arith, e)

  other_way :
      (a b : LocalState) (cs : Children) (t : Tree) (g q : Bytes)
      → IsName g
      → is_same (first_of q).0 g ≡ false
      → ((p : Bytes)
          → starts_with p (slash_after g) ≡ false
          → BTreeMap.get b.state.files p ≡ BTreeMap.get a.state.files p)
      → route_to_child xxh3_64 b.state q ≡ route_to_child xxh3_64 a.state q
      → file_at (actor b (child (path g) t cs)) q ≡ file_at (actor a cs) q
  other_way a b cs t g q name e files same = elim (Route-cases (route_to_child xxh3_64 a.state q)) [
    | inl h ↦
        ap file_of (destination_here b (child (path g) t cs) q (same ∙ h))
        ∙ files q (starts_with_other g q name e)
        ∙ sym (ap file_of (destination_here a cs q h))
    | inr (inl f) ↦
        ap file_of (destination-failed b (child (path g) t cs) q (same ∙ f))
        ∙ sym (ap file_of (destination-failed a cs q f))
    | inr (inr (k, rest, r)) ↦
        let other = other_key a.state g (first_of q).0 q (first_of q).1 k rest e r in
        ap file_of (
          destination_into b (child (path g) t cs) q (same ∙ r)
          ∙ destination_in_other (path g) k t cs rest other
          ∙ sym (destination_into a cs q r))
  ]

  -- With a child directory at a name, paths with that first name lead into the child, and others
  -- where they led before.
  pub new_child_lem :
      (a b : LocalState) (cs : Children) (t : Tree) (g q : Bytes)
      → IsName g
      → IsUnsharded a.state.header g
      → b.state.header ≡ a.state.header
      → ((n : Bytes) → contains_key b.state.dirs n ≡ (is_same g n || contains_key a.state.dirs n))
      → ((p : Bytes)
          → starts_with p (slash_after g) ≡ false
          → BTreeMap.get b.state.files p ≡ BTreeMap.get a.state.files p)
      → file_at (actor b (child (path g) t cs)) q
        ≡ (if is_same (first_of q).0 g then file_at t (first_of q).1 else file_at (actor a cs) q)
  new_child_lem a b cs t g q name unsharded header dirs files =
      elim (Bool-cases (is_same (first_of q).0 g)) [
        | inl e ↦
            let same = is_same_eq (first_of q).0 g e in
            let there : contains_key b.state.dirs (first_of q).0 ≡ true =
              ground (arith, dirs (first_of q).0, same, is_same_refl g) in
            let led : route_to_child xxh3_64 b.state q ≡ into (path (first_of q).0) (first_of q).1 =
              let n = (first_of q).0 in
              let direct = route_dir b.state n (first_of q).1 in
              ap (λ h. route_from xxh3_64 h direct n q) header
              ∙ subst (λ x. route_from xxh3_64 a.state.header direct x q ≡ direct) (sym same)
                  (unsharded direct q)
              ∙ ap (λ c. if c then into (path n) (first_of q).1 else here) there in
            let hit : is_same g (first_of q).0 ≡ true = ground (arith, same, is_same_refl g) in
            ap file_of (
              destination_into b (child (path g) t cs) q led
              ∙ destination_in_same (path g) (path (first_of q).0) t cs (first_of q).1 hit)
            ∙ ground (arith, e)
        | inr e ↦
            let miss : is_same g (first_of q).0 ≡ false = is_same_comm g (first_of q).0 ∙ e in
            let kept : contains_key b.state.dirs (first_of q).0
                ≡ contains_key a.state.dirs (first_of q).0 =
              ground (arith, dirs (first_of q).0, miss) in
            let way_same = route_same a.state b.state (first_of q).0 q (first_of q).1 header kept in
            other_way a b cs t g q name e files way_same ∙ ground (arith, e)
      ]
