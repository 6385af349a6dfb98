-- ===== src/Fs/Gc/Walk/Collected.antt =====
-- The walk of s5_fs/src/gc.rs collects what the live directories keep alive.
use s5_rs.Base.{ℕ, suc, ◌≤◌, ◌≡◌, sym, subst, Bytes, true, Option, List, length, ok, bytes_ord}
use s5_rs.BTreeMap.{contains_key, values}
use s5_rs.Stream.{IsArray}
use s5_rs.Store.{Store}
use s5_rs.Blob.Paths.{HashCodec}
use s5_rs.Fs.Dir.{DirV1, DirRef}
use s5_rs.Fs.CreateDir.Extract.{among}
use s5_rs.Fs.Gc.{HashSet}
use s5_rs.Fs.Gc.Reachable.{any_keeps_alive}
use s5_rs.Fs.Gc.Walk.{links, snapshot_links, collect_fs_reachable_hashes}
use s5_rs.Fs.Gc.Walk.Visited.{IsKeyed, IsArchive}
use s5_rs.Fs.Gc.Walk.Live.{IsLinked, traverse-IsLinked}
use s5_rs.Fs.Gc.Walk.Live as Linked
use s5_rs.Fs.Gc.Walk.Metadata.{
  encryption_key, Refers, HasOwnKey, links-Refers, Refers-links, IsStored, IsRoot, IsSnapshot,
  IsLive, the_root, snapshot, below, stored-load_dir, load_dir-IsStored, snapshot_links-IsSnapshot,
  IsSnapshot-snapshot_links, IsRoot-root_dirs,
}

-- Where all references of a directory carry the keys of their hashes, its links do.
links-IsKeyed :
    (key_of : Bytes → Option Bytes) (d : DirV1)
    → ((r : DirRef) → Refers d r → HasOwnKey key_of r.hash (encryption_key r))
    → IsKeyed key_of (links d)
links-IsKeyed key_of d own l has =
    let (r, refers, same) = links-Refers d l has in
    subst (λ x. HasOwnKey key_of x.0 x.1) (sym same) (own r refers)

module _ {S : Type 0} (c : HashCodec) (api : Store S) (meta_store : S)
    (decrypt_dir_bytes : Bytes → Option Bytes → Option Bytes) (from_bytes : Bytes → Option DirV1)
    (key_of : Bytes → Option Bytes) (known : List Bytes) where
  -- The metadata of a file system root: directories are stored under known hashes, and the references
  -- of the root, the snapshots and the stored directories carry the keys of their hashes.
  pub record IsMetadata (root : DirV1) (root_file root_key snapshots_file : Option Bytes)
      : Type 0 where
    pub root_IsRoot : IsRoot c api meta_store decrypt_dir_bytes from_bytes root_file root_key root
    pub stored_known :
        (h : Bytes) (key : Option Bytes) (d : DirV1)
        → IsArray 32 h
        → IsStored c api meta_store decrypt_dir_bytes from_bytes h key d
        → among h known ≡ true
    pub root_keys : (r : DirRef) → Refers root r → HasOwnKey key_of r.hash (encryption_key r)
    pub snapshot_keys :
        (r : DirRef)
        → IsSnapshot c api meta_store decrypt_dir_bytes from_bytes snapshots_file r
        → HasOwnKey key_of r.hash root_key
    pub stored_keys :
        (h : Bytes) (key : Option Bytes) (d : DirV1) (r : DirRef)
        → IsStored c api meta_store decrypt_dir_bytes from_bytes h key d
        → Refers d r
        → HasOwnKey key_of r.hash (encryption_key r)

  module _ (root : DirV1) (root_file root_key snapshots_file : Option Bytes)
      (metadata : IsMetadata root root_file root_key snapshots_file) where
    archive : IsArchive c api meta_store decrypt_dir_bytes from_bytes key_of known
    archive = record {
      loads_known = λ h key d a e.
          metadata.stored_known h key d a
            (load_dir-IsStored c api meta_store decrypt_dir_bytes from_bytes h key d e);
      loads_keyed = λ h key d e. links-IsKeyed key_of d (λ r refers.
          metadata.stored_keys h key d r
            (load_dir-IsStored c api meta_store decrypt_dir_bytes from_bytes h key d e) refers);
    }

    IsLive-IsLinked :
        (d : DirV1)
        → IsLive c api meta_store decrypt_dir_bytes from_bytes root root_key snapshots_file d
        → IsLinked c api meta_store decrypt_dir_bytes from_bytes root
            (snapshot_links c api meta_store decrypt_dir_bytes from_bytes snapshots_file root_key)
            d
    IsLive-IsLinked d the_root = Linked.the_root
    IsLive-IsLinked d (snapshot r _ listed stored) =
        Linked.snapshot (r.hash, root_key) d
          (IsSnapshot-snapshot_links c api meta_store decrypt_dir_bytes from_bytes snapshots_file
            root_key r listed)
          (stored-load_dir c api meta_store decrypt_dir_bytes from_bytes r.hash root_key d stored)
    IsLive-IsLinked e (below d _ r live refers stored) =
        Linked.linked d e (r.hash, encryption_key r) (IsLive-IsLinked d live)
          (Refers-links d r refers)
          (stored-load_dir c api meta_store decrypt_dir_bytes from_bytes r.hash (encryption_key r) e
            stored)

    -- collect_fs_reachable_hashes ends and has collected every hash that a live directory keeps
    -- alive. Live are the root, and what snapshots, shards and child directories of live
    -- directories refer to, as far as the metadata store holds it under the hash of the reference:
    -- not a directory under a registry key, nor what cannot be read. The root can be read,
    -- references have hashes of 32 bytes, each under one key, and the loop may take one turn more
    -- than there are hashes that directories are stored under.
    pub collect_fs_reachable_hashes_lem :
        (n : ℕ)
        → suc (length known) ≤ n
        → (reachable : HashSet) × (collect_fs_reachable_hashes c api meta_store decrypt_dir_bytes
              from_bytes n root_file snapshots_file root_key
            ≡ ok reachable)
          × ((d : DirV1) (h : Bytes)
              → IsLive c api meta_store decrypt_dir_bytes from_bytes root root_key snapshots_file d
              → any_keeps_alive h (values d.files) ≡ true
              → contains_key reachable h ≡ true)
    collect_fs_reachable_hashes_lem n fuel =
        let (reachable, ends, all) =
          traverse-IsLinked c api meta_store decrypt_dir_bytes from_bytes key_of known archive n
            root root_file root_key snapshots_file
            (IsRoot-root_dirs c api meta_store decrypt_dir_bytes from_bytes root_file root_key root
              metadata.root_IsRoot)
            (links-IsKeyed key_of root metadata.root_keys)
            (λ l has.
              let (r, listed, same) =
                snapshot_links-IsSnapshot c api meta_store decrypt_dir_bytes from_bytes
                  snapshots_file root_key l has in
              subst (λ x. HasOwnKey key_of x.0 x.1) (sym same) (metadata.snapshot_keys r listed))
            fuel in
        (reachable, ends, λ d h live alive. all d h (IsLive-IsLinked d live) alive)
