-- ===== src/Examples/Trees.antt =====
-- A root directory with ten files below "a", which the next write promotes to a child directory.
use s5_rs.Base.{
  ◌≢◌, ◌+◌, ℕ, ◌≡◌, refl, ap, sym, ◌∙◌, subst, ◌==◌, Bytes, Bool, true, false, some, none, [], ◌∷◌,
  ◌++◌, replicate, arith, if◌then◌else◌, is_same, bytes_ord, cmp_bytes,
}
use s5_rs.BTreeMap
use s5_rs.BTreeMap.{keys}
use s5_rs.Fs.Dir.{DirV1, new_dir, DirRef, FileRef, new_file, is_tombstone}
use s5_rs.Fs.CreateDir.{slash_after, strip_prefix, starts_with}
use s5_rs.Fs.CreateDir.Extract.{strip_prefix-append}
use s5_rs.Fs.Tree.{
  path, child, LocalState, Tree, actor, Children, no_children, split_once, here, route_from,
  route_to_child, destination,
}
use s5_rs.Fs.Tree.Names.{IsName}
use s5_rs.Fs.Tree.Promotion.{DirCodec, clean, longest, optimize_dir_structure}
use s5_rs.Fs.Tree.Fuel.{optimize_dir_structure-longest}
use s5_rs.Fs.Tree.Api.{file_put_sync, file_get, file_delete, create_dir, unless_tombstone}
use s5_rs.Fs.Tree.Groups.{NoneBelow}
use s5_rs.Fs.Tree.Kin.{IsPlain, Kin}
use s5_rs.Fs.Tree.Reach.{some_inj}
use s5_rs.Fs.Tree.Tidy.{IsTidy}
use s5_rs.Fs.Tree.Laws.{
  IsReached, IsOpen, file_put_sync-file_get, file_delete-file_get, operations-IsTidy,
}
use s5_rs.Fs.Tree.NewDir.{create_dir-file_get}
use s5_rs.Fs.Tree.Again.{create_dir-again}
use s5_rs.Fs.Tree.Nested.{create_dir-hides}

abbrev ends_in_slash : Bytes → Bool
ends_in_slash [] = false
ends_in_slash (c ∷ []) = c == 47
ends_in_slash (c ∷ d ∷ p) = ends_in_slash (d ∷ p)

ends_in_slash-slash_after : (g : Bytes) → ends_in_slash (slash_after g) ≡ true
ends_in_slash-slash_after [] = refl
ends_in_slash-slash_after (c ∷ []) = refl
ends_in_slash-slash_after (c ∷ d ∷ g) = ends_in_slash-slash_after (d ∷ g)

plain : (p : Bytes) → ends_in_slash p ≡ false → IsPlain p
plain p h g e = ground (arith, sym h ∙ ap ends_in_slash e ∙ ends_in_slash-slash_after g)

kin :
    (p q : Bytes)
    → ends_in_slash p ≡ false
    → ends_in_slash q ≡ false
    → starts_with p (slash_after q) ≡ false
    → Kin p q
kin p q a b c = record {
  first_IsPlain = plain p a;
  second_IsPlain = plain q b;
  not_below = λ name e. ground (
    arith,
    c,
    ap (λ x. starts_with x (slash_after q)) e,
    strip_prefix-append (slash_after q) name,
  );
}

abbrev any_ref : DirRef
any_ref = record {
  ref_type = none;
  hash = replicate 32 0;
  ts_seconds = none;
  ts_nanos = none;
  keys = none;
  encryption_type = none;
  extra = none;
}

-- Directories that can always be stored.
abbrev codec : DirCodec
codec = record {
  build_child_dir_ref = λ name. any_ref;
  store_dir = λ s. some any_ref;
  save = λ s. some (replicate 32 9);
}

abbrev no_hash : Bytes → ℕ
no_hash name = 0

abbrev below_a : ℕ → Bytes × FileRef
below_a c = (97 ∷ 47 ∷ c ∷ [], new_file (replicate 32 c) c)

abbrev ten_files : Tree
ten_files =
    actor
      (clean (record new_dir {
        files =
            below_a 48
            ∷ below_a 49
            ∷ below_a 50
            ∷ below_a 51
            ∷ below_a 52
            ∷ below_a 53
            ∷ below_a 54
            ∷ below_a 55
            ∷ below_a 56
            ∷ below_a 57
            ∷ [];
      }))
      no_children

abbrev eleventh : Bytes
eleventh = 97 ∷ 47 ∷ 98 ∷ []

abbrev first_file : Bytes
first_file = 97 ∷ 47 ∷ 48 ∷ []

tidy : IsTidy ten_files
tidy = ((λ n absent. refl), tt)

reached : IsReached no_hash codec ten_files eleventh
unfolding destination route_from split_once BTreeMap.get
reached = refl

related : Kin eleventh first_file
unfolding strip_prefix
related = kin eleventh first_file refl refl refl

IsOpen-first : IsOpen no_hash codec ten_files first_file
unfolding destination route_from split_once BTreeMap.get cmp_bytes
IsOpen-first r e = subst (λ x. NoneBelow x.0.state.files x.1.1) (some_inj e) (λ name. refl)

file_put_sync_example :
    ((file_put_sync codec no_hash ten_files eleventh (new_file (replicate 32 1) 1)).1 ≡ some tt)
    × ((file_get codec no_hash
          (file_put_sync codec no_hash ten_files eleventh (new_file (replicate 32 1) 1)).0
          first_file).1
        ≡ (if is_same eleventh first_file
            then (if is_tombstone (new_file (replicate 32 1) 1)
                then none
                else some (new_file (replicate 32 1) 1))
            else (file_get codec no_hash ten_files first_file).1))
file_put_sync_example =
    file_put_sync-file_get no_hash codec ten_files eleventh first_file (new_file (replicate 32 1) 1)
      tidy reached (λ s. (any_ref, refl)) related IsOpen-first

file_delete_example :
    ((file_delete codec no_hash ten_files eleventh 5 0).1 ≡ some tt)
    × ((file_get codec no_hash (file_delete codec no_hash ten_files eleventh 5 0).0 first_file).1
        ≡ (if is_same eleventh first_file
            then none
            else (file_get codec no_hash ten_files first_file).1))
file_delete_example =
    file_delete-file_get no_hash codec ten_files eleventh first_file 5 0 tidy reached
      (λ s. (any_ref, refl)) related IsOpen-first

operations_example :
    IsTidy (file_put_sync codec no_hash ten_files eleventh (new_file (replicate 32 1) 1)).0
    × IsTidy (file_get codec no_hash ten_files eleventh).0
    × IsTidy (file_delete codec no_hash ten_files eleventh 5 0).0
    × IsTidy (create_dir codec no_hash ten_files eleventh).0
operations_example =
    operations-IsTidy no_hash codec ten_files eleventh (new_file (replicate 32 1) 1) 5 0 tidy

-- The directory "a".
root_names :
    (r : LocalState × (Children × Bytes))
    → destination no_hash ten_files (97 ∷ []) ≡ some r
    → IsName r.1.1 × (r.1.1 ≢ [])
unfolding destination route_from split_once BTreeMap.get
root_names r e =
    subst (λ x. IsName x.1.1 × (x.1.1 ≢ [])) (some_inj e) (refl, λ x. ground (arith, x))

IsReached-a : IsReached no_hash codec ten_files (97 ∷ [])
unfolding destination route_from split_once BTreeMap.get
IsReached-a = refl

related_a : Kin (97 ∷ []) first_file
unfolding strip_prefix
related_a = kin (97 ∷ []) first_file refl refl refl

create_dir_example :
    ((create_dir codec no_hash ten_files (97 ∷ [])).1 ≡ some tt)
    × ((file_get codec no_hash (create_dir codec no_hash ten_files (97 ∷ [])).0 first_file).1 ≡ (
        if is_same (97 ∷ []) first_file
        then none
        else (file_get codec no_hash ten_files first_file).1))
create_dir_example =
    create_dir-file_get codec no_hash ten_files (97 ∷ []) first_file tidy IsReached-a root_names
      related_a IsOpen-first

-- The directory "a" exists and holds a file under the empty name.
abbrev unnamed : LocalState
unnamed = clean (record new_dir { files = ([], new_file (replicate 32 4) 4) ∷ [] })

abbrev with_a : Tree
with_a =
    actor (clean (record new_dir { dirs = (97 ∷ [], any_ref) ∷ [] }))
      (child (path (97 ∷ [])) (actor unnamed no_children) no_children)

with_a-IsTidy : IsTidy with_a
unfolding BTreeMap.get
with_a-IsTidy = ((λ n absent. ground (arith, absent)), (((λ n absent. refl), tt), tt))

with_a-leads : destination no_hash with_a (97 ∷ []) ≡ some (unnamed, (no_children, []))
unfolding destination route_from split_once BTreeMap.get cmp_bytes
with_a-leads = refl

create_dir-again_example :
    ((file_get codec no_hash with_a (97 ∷ [])).1
      ≡ unless_tombstone (some (BTreeMap.get unnamed.state.files [])))
    × ((create_dir codec no_hash with_a (97 ∷ [])).1 ≡ some tt)
    × ((file_get codec no_hash (create_dir codec no_hash with_a (97 ∷ [])).0 (97 ∷ [])).1 ≡ none)
create_dir-again_example =
    create_dir-again codec no_hash with_a (97 ∷ []) unnamed no_children with_a-IsTidy with_a-leads
      (plain (97 ∷ []) refl) (λ name. unfold BTreeMap.get cmp_bytes in refl)

-- A directory with the file "a/b/c", in which the directory "a/b" is created while "a" is none.
abbrev deep_state : LocalState
deep_state =
    clean
      (record new_dir { files = (97 ∷ 47 ∷ 98 ∷ 47 ∷ 99 ∷ [], new_file (replicate 32 3) 3) ∷ [] })

deep_ends : route_to_child no_hash deep_state.state eleventh ≡ here
unfolding route_from split_once BTreeMap.get
deep_ends = refl

deep_split : split_once eleventh ≡ some (97 ∷ [], 98 ∷ [])
unfolding split_once
deep_split = refl

create_dir-hides_example :
    ((file_get codec no_hash (actor deep_state no_children) (slash_after eleventh ++ (99 ∷ []))).1
      ≡ unless_tombstone
          (some (BTreeMap.get deep_state.state.files (slash_after eleventh ++ (99 ∷ [])))))
    × ((file_get codec no_hash
          (create_dir codec no_hash (actor deep_state no_children) eleventh).0
          (slash_after eleventh ++ (99 ∷ []))).1
        ≡ none)
create_dir-hides_example =
    create_dir-hides codec no_hash deep_state no_children eleventh (99 ∷ []) (97 ∷ []) (98 ∷ [])
      ((λ n absent. refl), tt) deep_split deep_ends (unfold BTreeMap.get in refl)

-- Eleven files below "a", which are promoted.
abbrev eleven_files : DirV1
eleven_files = record new_dir {
  files =
      below_a 48
      ∷ below_a 49
      ∷ below_a 50
      ∷ below_a 51
      ∷ below_a 52
      ∷ below_a 53
      ∷ below_a 54
      ∷ below_a 55
      ∷ below_a 56
      ∷ below_a 57
      ∷ below_a 98
      ∷ [];
}

optimize_dir_structure-longest_example :
    optimize_dir_structure codec (longest (keys eleven_files.files) + 5) eleven_files
    ≡ optimize_dir_structure codec (longest (keys eleven_files.files)) eleven_files
optimize_dir_structure-longest_example = optimize_dir_structure-longest codec 5 eleven_files
