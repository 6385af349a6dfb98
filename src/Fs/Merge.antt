-- ===== src/Fs/Merge.antt =====
-- Merging a remote snapshot into a directory that is not sharded (s5_fs/src/actor/merge.rs): the
-- later timestamp wins.
pub mod Entry
pub mod Convergence
pub mod Handles
use s5_rs.Base.{
  ℕ, ◌+◌, ◌*◌, Bytes, Bool, true, false, Option, none, some, List, [], ◌∷◌, ltb, unwrap_or,
  if◌then◌else◌, bytes_ord, is_some, is_none,
}
use s5_rs.BTreeMap
use s5_rs.BTreeMap.{BTreeMap}
use s5_rs.Fs.Dir.{DirRef, FileRef, DirV1, DirHeader, fields}
use s5_rs.Fs.Actor.{DirActor, mark_as_dirty}

-- `dir_ts` and `file_ts`: nanoseconds, with an absent part read as 0.
unfoldable pub dir_ts : DirRef → ℕ
dir_ts d = unwrap_or d.ts_seconds 0 * 1_000_000_000 + unwrap_or d.ts_nanos 0

unfoldable pub file_ts : FileRef → ℕ
file_ts f =
    unwrap_or (fields f).timestamp 0 * 1_000_000_000 + unwrap_or (fields f).timestamp_subsec_nanos 0

-- The entries of a directory and the handles of its open children.
pub record Entries : Type 0 where
  pub dirs : BTreeMap Bytes DirRef
  pub files : BTreeMap Bytes FileRef
  pub dir_handles : BTreeMap Bytes ℕ

-- One turn of the first loop of `merge_entries_local`.
unfoldable pub merge_dir : Entries → Bytes → DirRef → Entries
merge_dir s name remote_dir = elim (BTreeMap.get s.files name) [
  | some local_file ↦
      if ltb (file_ts local_file) (dir_ts remote_dir)
      then record s {
        files = BTreeMap.remove s.files name;
        dir_handles = BTreeMap.remove s.dir_handles name;
        dirs = BTreeMap.insert s.dirs name remote_dir;
      }
      else s
  | none ↦ elim (BTreeMap.get s.dirs name) [
    | some local_dir ↦
        if ltb (dir_ts local_dir) (dir_ts remote_dir)
        then record s {
          dir_handles = BTreeMap.remove s.dir_handles name;
          dirs = BTreeMap.insert s.dirs name remote_dir;
        }
        else s
    | none ↦ record s { dirs = BTreeMap.insert s.dirs name remote_dir }
  ]
]

-- One turn of the second loop.
unfoldable pub merge_file : Entries → Bytes → FileRef → Entries
merge_file s name remote_file = elim (BTreeMap.get s.dirs name) [
  | some local_dir ↦
      if ltb (dir_ts local_dir) (file_ts remote_file)
      then record s {
        dir_handles = BTreeMap.remove s.dir_handles name;
        dirs = BTreeMap.remove s.dirs name;
        files = BTreeMap.insert s.files name remote_file;
      }
      else s
  | none ↦ elim (BTreeMap.get s.files name) [
    | some local_file ↦
        if ltb (file_ts local_file) (file_ts remote_file)
        then record s { files = BTreeMap.insert s.files name remote_file }
        else s
    | none ↦ record s { files = BTreeMap.insert s.files name remote_file }
  ]
]

unfoldable pub merge_dirs : Entries → BTreeMap Bytes DirRef → Entries
merge_dirs s [] = s
merge_dirs s ((name, remote_dir) ∷ rest) = merge_dirs (merge_dir s name remote_dir) rest

unfoldable pub merge_files : Entries → BTreeMap Bytes FileRef → Entries
merge_files s [] = s
merge_files s ((name, remote_file) ∷ rest) = merge_files (merge_file s name remote_file) rest

-- `merge_entries_local`.
unfoldable pub merge_entries_local :
    Entries → BTreeMap Bytes DirRef → BTreeMap Bytes FileRef → Entries
merge_entries_local s dirs files = merge_files (merge_dirs s dirs) files

-- `merge_header_fields`.
unfoldable pub merge_header_fields : DirHeader → DirHeader → DirHeader
merge_header_fields local remote = record local {
  try_files = if is_none local.try_files then remote.try_files else local.try_files;
  error_pages = if is_none local.error_pages then remote.error_pages else local.error_pages;
}

abbrev pub entries_of : DirActor → Entries
entries_of a = record { dirs = a.state.dirs; files = a.state.files; dir_handles = a.dir_handles }

-- `merge_snapshot` where the local directory is not sharded.
unfoldable pub merge_snapshot : DirActor → DirV1 → DirActor
merge_snapshot a snapshot =
    let s = merge_entries_local (entries_of a) snapshot.dirs snapshot.files in
    mark_as_dirty (record a {
      state = record (a.state) {
        dirs = s.dirs;
        files = s.files;
        header = merge_header_fields a.state.header snapshot.header;
      };
      dir_handles = s.dir_handles;
    })
