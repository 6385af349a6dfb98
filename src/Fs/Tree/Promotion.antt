-- ===== src/Fs/Tree/Promotion.antt =====
-- Promoting prefixes with many files to child directories (s5_fs/src/actor/sharding.rs:
-- check_auto_promote, promote_prefix, optimize_dir_structure; s5_fs/src/actor.rs: open_dir and the
-- message UpdateDirRefHash). Encoding, encryption, the blob store, the clock and random numbers are
-- the parameters below.
use s5_rs.Base.{
  ℕ, zero, suc, Bytes, Bool, true, false, ◌||◌, not, Option, none, some, List, [], ◌∷◌,
  if◌then◌else◌, is_same, bytes_ord, keep, length, ltb, leb,
}
use s5_rs.BTreeMap
use s5_rs.BTreeMap.{BTreeMap, contains_key, keys}
use s5_rs.Fs.Dir.{DirV1, new_dir, DirRef, DirRefType, dir_ref_type}
use s5_rs.Fs.CreateDir.{move_files, slash_after, starts_with, extract_child_dir_state}
use s5_rs.Fs.Tree.{
  path, is_child, DirHandlePath, LocalState, Tree, closed, actor, Children, no_children, child,
  marked, split_once, tells_of,
}

-- `FS5_PROMOTION_THRESHOLD`.
abbrev pub promotion_threshold : ℕ
promotion_threshold = 10

-- `build_child_dir_ref`, the reference to an encoded and imported directory, and the hash that the
-- first save of an actor gives.
pub record DirCodec : Type 0 where
  pub build_child_dir_ref : Bytes → DirRef
  pub store_dir : DirV1 → Option DirRef
  pub save : DirV1 → Option Bytes

-- `path.split_once('/')` with this first part.
abbrev pub in_group : Bytes → Bytes → Bool
in_group prefix p = elim (split_once p) [ none ↦ false | some parts ↦ is_same parts.0 prefix ]

-- The prefixes of some paths, each once: the keys of `groups`.
unfoldable pub prefixes : List Bytes → List Bytes
prefixes [] = []
prefixes (p ∷ paths) =
    let rest = prefixes paths in
    elim (split_once p) [
      | none ↦ rest
      | some parts ↦ parts.0 ∷ keep (λ g. not (is_same g parts.0)) rest
    ]

-- The groups of `optimize_dir_structure`: some prefixes, each with those of the paths below it.
unfoldable pub gather : List Bytes → List Bytes → List (Bytes × List Bytes)
gather paths [] = []
gather paths (g ∷ gs) = (g, keep (in_group g) paths) ∷ gather paths gs

abbrev pub groups : List Bytes → List (Bytes × List Bytes)
groups paths = gather paths (prefixes paths)

-- The length of the longest path: each level of the promoted directories takes a part of it.
unfoldable pub longest : List Bytes → ℕ
longest [] = 0
longest (p ∷ paths) = let rest = longest paths in if leb rest (length p) then length p else rest

-- A directory that its actor has just loaded or been given.
abbrev pub clean : DirV1 → LocalState
clean s = record { state = s; dirty = false; shard_size_check_ops = 0 }

-- What the actor of a reference loads that nothing was saved for: none by its hash, the empty
-- directory by its registry key.
abbrev pub unsaved : DirRef → Tree
unsaved d = elim (dir_ref_type d) [
  | DirRefType.blake3_hash ↦ closed
  | DirRefType.registry_key ↦ actor (clean new_dir) no_children
]

abbrev pub has_child : Children → DirHandlePath → Bool
has_child no_children key = false
has_child (child k t cs) key = is_child k key || has_child cs key

-- The message `UpdateDirRefHash` of a child directory.
unfoldable pub update_dir_ref_hash : LocalState → Bytes → Bytes → LocalState
update_dir_ref_hash a name hash = elim (BTreeMap.get a.state.dirs name) [
  | none ↦ a
  | some d ↦
      if is_same d.hash hash
      then a
      else marked (record a {
        state = record a.state {
          dirs = BTreeMap.insert a.state.dirs name (record d { hash = hash });
        };
      })
]

module _ (codec : DirCodec) where
  -- The loop over the groups, with the recursive call.
  unfoldable pub optimize_groups :
      (DirV1 → Option (DirV1 × Children))
      → List (Bytes × List Bytes)
      → DirV1
      → Children
      → Option (DirV1 × Children)
  optimize_groups optimize [] state cs = some (state, cs)
  optimize_groups optimize ((prefix, paths) ∷ gs) state cs =
      elim (ltb promotion_threshold (length paths)) [
        | false ↦ optimize_groups optimize gs state cs
        | true ↦
            let moved = move_files (slash_after prefix) paths state.files [] in
            elim (optimize (record new_dir { files = moved.1 })) [
              | none ↦ none
              | some r ↦ elim (codec.store_dir r.0) [
                | none ↦ none
                | some d ↦
                    optimize_groups optimize gs
                      (record state { dirs = BTreeMap.insert state.dirs prefix d; files = moved.0 })
                      (child (path prefix) (actor (clean r.0) r.1) cs)
              ]
            ]
      ]

  -- `optimize_dir_structure`, on fuel: the directory and what its new children load.
  unfoldable pub optimize_dir_structure : ℕ → DirV1 → Option (DirV1 × Children)
  optimize_dir_structure zero state = some (state, no_children)
  optimize_dir_structure (suc n) state =
      optimize_groups (optimize_dir_structure n) (groups (keys state.files)) state no_children

  -- The first save of a child that starts with a given state: it tells its parent the hash.
  abbrev pub published : LocalState → Bytes → Option Bytes → LocalState
  published a name none = a
  published a name (some hash) =
      if tells_of (BTreeMap.get a.state.dirs name) then update_dir_ref_hash a name hash else a

  -- `open_dir` with an initial state: an open child stays.
  unfoldable pub open_dir : LocalState → Children → Bytes → DirV1 → Children → LocalState × Children
  open_dir a cs name s grandchildren =
      if has_child cs (path name)
      then (a, cs)
      else (published a name (codec.save s), child (path name) (actor (clean s) grandchildren) cs)

  -- `promote_prefix`, and whether it succeeds.
  unfoldable pub promote_prefix : LocalState → Children → Bytes → (LocalState × Children) × Bool
  promote_prefix a cs prefix =
      if contains_key a.state.dirs prefix
      then ((a, cs), true)
      else let r = extract_child_dir_state a.state prefix in
        let d = codec.build_child_dir_ref prefix in
        let after = record a { state = record r.0 { dirs = BTreeMap.insert r.0.dirs prefix d } } in
        elim (optimize_dir_structure (longest (keys r.1.files)) r.1) [
          | none ↦ ((after, child (path prefix) (unsaved d) cs), false)
          | some o ↦ (open_dir after cs prefix o.0 o.1, true)
        ]

  -- `check_auto_promote`, and whether it succeeds.
  unfoldable pub check_auto_promote : LocalState → Children → Bytes → (LocalState × Children) × Bool
  check_auto_promote a cs p = elim (split_once p) [
    | none ↦ ((a, cs), true)
    | some parts ↦
        if ltb promotion_threshold
          (length (keep (λ k. starts_with k (slash_after parts.0)) (keys a.state.files)))
        then promote_prefix a cs parts.0
        else ((a, cs), true)
  ]
