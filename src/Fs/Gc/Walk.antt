-- ===== src/Fs/Gc/Walk.antt =====
-- The walk over the directories of a file system root (s5_fs/src/gc.rs,
-- collect_fs_reachable_hashes). The files root.fs5.cbor and snapshots.fs5.cbor are given by their
-- bytes, none where they cannot be read; decryption and the CBOR codec are parameters.
pub mod Visited
pub mod Turn
pub mod Live
pub mod Metadata
pub mod Collected
pub mod Safety
use s5_rs.Base.{
  ℕ, zero, suc, Bytes, Bool, true, false, Option, none, some, List, [], ◌∷◌, ◌++◌, map, Result, ok,
  err, nat_ord, bytes_ord, if◌then◌else◌, ◌>>=◌,
}
use s5_rs.BTreeMap
use s5_rs.BTreeMap.{contains_key, values}
use s5_rs.Store.{Store, StoreError}
use s5_rs.Blob.Paths.{HashCodec}
use s5_rs.Blob.Store as BlobStore
use s5_rs.Fs.Dir.{DirV1, DirRef}
use s5_rs.Fs.Gc.{HashSet, collect_hashes_from_dir}

-- An element of `hash_queue`: a hash and the key that its directory is encrypted with.
abbrev pub Link : Type 0
Link = Bytes × Option Bytes

-- `get_key`.
abbrev pub get_key : DirRef → Option Bytes
get_key d = elim d.keys [ none ↦ none | some ks ↦ BTreeMap.get ks 14 ]

abbrev pub link_of : DirRef → Link
link_of d = (d.hash, get_key d)

abbrev pub shard_links : DirV1 → List Link
shard_links dir = elim dir.header.shards [ none ↦ [] | some shards ↦ map link_of (values shards) ]

-- The directories that a snapshot refers to, shards first.
unfoldable pub links : DirV1 → List Link
links dir = shard_links dir ++ map link_of (values dir.dirs)

-- `dir_queue.push_back(subdir)` where a directory could be loaded.
abbrev pub push_loaded : Option DirV1 → List DirV1 → List DirV1
push_loaded none dirs = dirs
push_loaded (some subdir) dirs = dirs ++ (subdir ∷ [])

-- Why nothing is collected; `out_of_turns` stands for a loop that does not end.
pub data FsError : Type 0 where
  root_not_decrypted root_not_parsed out_of_turns : FsError

module _ {S : Type 0} (c : HashCodec) (api : Store S) (meta_store : S)
    (decrypt_dir_bytes : Bytes → Option Bytes → Option Bytes)
    (from_bytes : Bytes → Option DirV1) where
  -- A directory of the store, none where it cannot be read, decrypted or decoded.
  unfoldable pub load_dir : Bytes → Option Bytes → Option DirV1
  load_dir h key = elim (BlobStore.read_as_bytes c api meta_store h 0 none) [
    | err e ↦ none
    | ok bytes ↦ elim (decrypt_dir_bytes bytes key) [
      | none ↦ none
      | some decrypted ↦ from_bytes decrypted
    ]
  ]

  -- The inner loop, which drains `hash_queue`: `visited_dirs` and `dir_queue` after it.
  unfoldable pub drain : List Link → HashSet → List DirV1 → HashSet × List DirV1
  drain [] visited dirs = (visited, dirs)
  drain ((h, key) ∷ hash_queue) visited dirs =
      if contains_key visited h
      then drain hash_queue visited dirs
      else drain hash_queue (BTreeMap.insert visited h tt) (push_loaded (load_dir h key) dirs)

  -- The outer loop, on fuel.
  unfoldable pub traverse : ℕ → List DirV1 → List Link → HashSet → HashSet → Result FsError HashSet
  traverse n [] hash_queue visited reachable = ok reachable
  traverse zero (dir ∷ dirs) hash_queue visited reachable = err out_of_turns
  traverse (suc n) (dir ∷ dirs) hash_queue visited reachable =
      let r = drain (hash_queue ++ links dir) visited dirs in
      traverse n r.1 [] r.0 (collect_hashes_from_dir dir reachable)

  -- The snapshots of an index that can be decoded, under the key of the root.
  unfoldable pub snapshot_links : Option Bytes → Option Bytes → List Link
  snapshot_links none root_key = []
  snapshot_links (some bytes) root_key = elim (from_bytes bytes) [
    | none ↦ []
    | some snapshots_dir ↦ map (λ d. (d.hash, root_key)) (values snapshots_dir.dirs)
  ]

  -- The directory of root.fs5.cbor.
  unfoldable pub root_dirs : Option Bytes → Option Bytes → Result FsError (List DirV1)
  root_dirs none root_key = ok []
  root_dirs (some bytes) root_key = elim (decrypt_dir_bytes bytes root_key) [
    | none ↦ err root_not_decrypted
    | some decrypted ↦ elim (from_bytes decrypted) [
      | none ↦ err root_not_parsed
      | some dir ↦ ok (dir ∷ [])
    ]
  ]

  -- `collect_fs_reachable_hashes`, of the two files and the root key.
  unfoldable pub collect_fs_reachable_hashes :
      ℕ → Option Bytes → Option Bytes → Option Bytes → Result FsError HashSet
  collect_fs_reachable_hashes n root_file snapshots_file root_key = do
    dir_queue ← root_dirs root_file root_key
    traverse n dir_queue (snapshot_links snapshots_file root_key) [] []
