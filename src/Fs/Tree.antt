-- ===== src/Fs/Tree.antt =====
-- The tree of directory actors (s5_fs/src/actor.rs): a directory with the actors of its child
-- directories and shards. A child that is not running yet is the one its actor loads; `closed` is an
-- actor that failed to load. Each child has one parent, and every message is handled before the next
-- call.
pub mod Promotion
pub mod Api
pub mod Names
pub mod Step
pub mod Groups
pub mod Optimize
pub mod Fuel
pub mod Promoted
pub mod Kin
pub mod Reach
pub mod Tidy
pub mod Kept
pub mod Files
pub mod Laws
pub mod NewDir
pub mod Again
pub mod Nested
use s5_rs.Base.{
  ℕ, zero, suc, ◌+◌, ◌==◌, Bytes, Bool, true, false, ◌&&◌, not, Option, none, some, List, [], ◌∷◌,
  if◌then◌else◌, leb, is_same, bytes_ord, nat_ord, min, ◌-◌, ◌^◌,
}
use s5_rs.BTreeMap
use s5_rs.BTreeMap.{BTreeMap, contains_key}
use s5_rs.Fs.Dir.{DirV1, DirHeader, DirRef, DirRefType, dir_ref_type, FileRef}
use s5_rs.Fs.Sharding.{shard_bucket_for, max_shard_level}

pub data DirHandlePath : Type 0 where
  path : Bytes → DirHandlePath
  shard : ℕ → DirHandlePath

abbrev pub is_child : DirHandlePath → DirHandlePath → Bool
is_child (path a) (path b) = is_same a b
is_child (shard i) (shard j) = i == j
is_child (path a) (shard j) = false
is_child (shard i) (path b) = false

-- The part of `DirActor` that operations on paths change.
pub record LocalState : Type 0 where
  pub state : DirV1
  pub dirty : Bool
  pub shard_size_check_ops : ℕ

mutual
  pub data Tree : Type 0 where
    closed : Tree
    actor : LocalState → Children → Tree

  pub data Children : Type 0 where
    no_children : Children
    child : DirHandlePath → Tree → Children → Children

abbrev pub is_dirty : Tree → Bool
is_dirty closed = false
is_dirty (actor a cs) = a.dirty

-- `mark_as_dirty` without the message to the parent.
abbrev pub marked : LocalState → LocalState
marked a = record a {
  shard_size_check_ops = min (a.shard_size_check_ops + 1) (2 ^ 64 - 1);
  dirty = true;
}

-- `str::split_once('/')`.
unfoldable pub split_once : Bytes → Option (Bytes × Bytes)
split_once [] = none
split_once (c ∷ text) =
    let rest = split_once text in
    if c == 47 then some ([], text) else elim rest [ none ↦ none | some p ↦ some (c ∷ p.0, p.1) ]

-- The first name of a path and the rest.
abbrev pub first_of : Bytes → Bytes × Bytes
first_of p = elim (split_once p) [ none ↦ (p, []) | some parts ↦ parts ]

-- Where a path leads from a directory: an entry of its own, the rest of the path in a child, or
-- nowhere, as a shard cannot be opened.
pub data Route : Type 0 where
  here failed : Route
  into : DirHandlePath → Bytes → Route

abbrev pub route_dir : DirV1 → Bytes → Bytes → Route
route_dir state dir_name rest =
    if contains_key state.dirs dir_name then into (path dir_name) rest else here

-- `open_dir_shard_impl`: whether a shard can be opened.
abbrev pub opens_shard : ℕ → DirRef → Bool
opens_shard level dir_ref = elim (dir_ref_type dir_ref) [
  | DirRefType.blake3_hash ↦ leb (level + 1) max_shard_level
  | DirRefType.registry_key ↦ false
]

abbrev pub shard_at : Option (BTreeMap ℕ DirRef) → ℕ → Option DirRef
shard_at none index = none
shard_at (some shards) index = BTreeMap.get shards index

module _ (xxh3_64 : Bytes → ℕ) where
  -- The way to a shard if there is one for the name, else that to a child directory or here.
  unfoldable pub route_from : DirHeader → Route → Bytes → Bytes → Route
  route_from header direct dir_name whole = elim header.shard_level [
    | none ↦ direct
    | some level ↦ elim (shard_bucket_for xxh3_64 level dir_name) [
      | none ↦ failed
      | some index ↦ elim (shard_at header.shards index) [
        | none ↦ direct
        | some dir_ref ↦ if opens_shard level dir_ref then into (shard index) whole else failed
      ]
    ]
  ]

  -- `route_to_child`, of the first name of a path, the whole path and the rest.
  abbrev pub route_names : DirV1 → Bytes → Bytes → Bytes → Route
  route_names state dir_name whole rest =
      route_from state.header (route_dir state dir_name rest) dir_name whole

  abbrev pub route_to_child : DirV1 → Bytes → Route
  route_to_child state p = route_names state (first_of p).0 p (first_of p).1

-- Whether a child tells the directory when it becomes dirty: one that is linked by a registry key
-- does not.
abbrev pub tells_of : Option DirRef → Bool
tells_of none = false
tells_of (some d) = elim (dir_ref_type d) [
  | DirRefType.blake3_hash ↦ true
  | DirRefType.registry_key ↦ false
]

abbrev pub tells_parent : DirV1 → DirHandlePath → Bool
tells_parent state (shard i) = true
tells_parent state (path name) = tells_of (BTreeMap.get state.dirs name)

-- The message `MarkAsDirty` of a child.
abbrev pub notified : LocalState → DirHandlePath → Bool → LocalState
notified a key became_dirty = if became_dirty && tells_parent a.state key then marked a else a

-- An operation on a directory and the rest of a path: the directory after it and its result, none
-- where it fails.
abbrev pub LocalOp : Type 0 → Type 0
LocalOp R = LocalState → Children → Bytes → Tree × Option R

module _ (xxh3_64 : Bytes → ℕ) {R : Type 0} (op : LocalOp R) where
  -- `PathOp`: the operation is handed on to the directory that the path leads to.
  unfoldable mutual
    pub path_op : Tree → Bytes → Tree × Option R
    path_op closed p = (closed, none)
    path_op (actor a cs) p = elim (route_to_child xxh3_64 a.state p) [
      | here ↦ op a cs p
      | failed ↦ (actor a cs, none)
      | into key rest ↦ let r = child_op cs key rest in (actor (notified a key r.1.0) r.0, r.1.1)
    ]

    -- The children, whether the child became dirty, and the result.
    pub child_op : Children → DirHandlePath → Bytes → Children × (Bool × Option R)
    child_op no_children key p = (no_children, (false, none))
    child_op (child k t cs) key p =
        let r = path_op t p in
        let rest = child_op cs key p in
        if is_child k key
        then (child k r.0 cs, (not (is_dirty t) && is_dirty r.0, r.1))
        else (child k t rest.0, rest.1)

module _ (xxh3_64 : Bytes → ℕ) where
  -- The directory that a path leads to, with its children and the rest of the path.
  unfoldable mutual
    pub destination : Tree → Bytes → Option (LocalState × (Children × Bytes))
    destination closed p = none
    destination (actor a cs) p = elim (route_to_child xxh3_64 a.state p) [
      | here ↦ some (a, (cs, p))
      | failed ↦ none
      | into key rest ↦ destination_in cs key rest
    ]

    pub destination_in : Children → DirHandlePath → Bytes → Option (LocalState × (Children × Bytes))
    destination_in no_children key p = none
    destination_in (child k t cs) key p =
        let found = destination t p in
        let rest = destination_in cs key p in if is_child k key then found else rest
