-- ===== src/Fs/CreateDir.antt =====
-- Creating a child directory from the files below its name (s5_fs/src/actor.rs: create_dir_at;
-- s5_fs/src/actor/sharding.rs: extract_child_dir_state). The reference of the child, with its keys
-- and the time, is an argument. The state that the child's actor is opened with is a result.
pub mod Extract
use s5_rs.Base.{
  ℕ, zero, suc, Bytes, Bool, true, false, Option, none, some, List, [], ◌∷◌, ◌++◌, ◌==◌,
  if◌then◌else◌, is_some, keep, length, ltb, bytes_ord,
}
use s5_rs.BTreeMap
use s5_rs.BTreeMap.{BTreeMap, contains_key, keys}
use s5_rs.Fs.Dir.{DirV1, new_dir, DirRef, FileRef}

-- `str::strip_prefix` and `starts_with`.
unfoldable pub strip_prefix : Bytes → Bytes → Option Bytes
strip_prefix path [] = some path
strip_prefix [] (c ∷ prefix) = none
strip_prefix (d ∷ path) (c ∷ prefix) =
    let rest = strip_prefix path prefix in if d == c then rest else none

abbrev pub starts_with : Bytes → Bytes → Bool
starts_with path prefix = is_some (strip_prefix path prefix)

-- One turn of the loop of `extract_child_dir_state`: the files of the directory and of the child.
abbrev pub move_file :
    Bytes
    → Option Bytes
    → Option FileRef
    → BTreeMap Bytes FileRef
    → BTreeMap Bytes FileRef
    → BTreeMap Bytes FileRef × BTreeMap Bytes FileRef
move_file file_path sub none files child = (files, child)
move_file file_path none (some f) files child = (BTreeMap.remove files file_path, child)
move_file file_path (some sub_path) (some f) files child =
    (BTreeMap.remove files file_path, BTreeMap.insert child sub_path f)

unfoldable pub move_files :
    Bytes
    → List Bytes
    → BTreeMap Bytes FileRef
    → BTreeMap Bytes FileRef
    → BTreeMap Bytes FileRef × BTreeMap Bytes FileRef
move_files prefix_slash [] files child = (files, child)
move_files prefix_slash (file_path ∷ paths) files child =
    let r =
      move_file file_path (strip_prefix file_path prefix_slash) (BTreeMap.get files file_path) files
        child in
    move_files prefix_slash paths r.0 r.1

abbrev pub slash_after : Bytes → Bytes
slash_after prefix = prefix ++ (47 ∷ [])

-- `extract_child_dir_state`: the state after it and the child's.
unfoldable pub extract_child_dir_state : DirV1 → Bytes → DirV1 × DirV1
extract_child_dir_state state prefix =
    let matching_keys = keep (λ k. starts_with k (slash_after prefix)) (keys state.files) in
    let r = move_files (slash_after prefix) matching_keys state.files [] in
    (record state { files = r.0 }, record new_dir { files = r.1 })

-- `create_dir_at`, with the child that it opens if there is no such directory yet.
unfoldable pub create_dir_at : DirRef → DirV1 → Bytes → DirV1 × Option DirV1
create_dir_at dir_ref state prefix =
    if contains_key state.dirs prefix
    then (state, none)
    else let r = extract_child_dir_state state prefix in
      (record r.0 { dirs = BTreeMap.insert r.0.dirs prefix dir_ref }, some r.1)
