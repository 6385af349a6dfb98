-- ===== src/Fs/Gc/Walk/Safety.antt =====
-- A sweep (s5_fs/src/gc.rs, gc_store) with what collect_fs_reachable_hashes collected.
use s5_rs.Base.{
  ℕ, suc, ◌≤◌, ◌≡◌, ap, sym, ◌∙◌, Bytes, Bool, true, not, ◌&&◌, Option, List, length, Result, ok,
  bytes_ord, arith,
}
use s5_rs.BTreeMap.{contains_key, values}
use s5_rs.Stream.{IsArray}
use s5_rs.Store.{Store}
use s5_rs.Store.Contract.{IsStore}
use s5_rs.Registry.{RegistryError}
use s5_rs.Blob.Paths.{HashCodec}
use s5_rs.Blob.Paths.RoundTrip.{IsHashCodec}
use s5_rs.Blob.Store.Laws.{blob_file}
use s5_rs.Fs.Dir.{DirV1}
use s5_rs.Fs.Gc.{HashSet, gc_store}
use s5_rs.Fs.Gc.Reachable.{any_keeps_alive}
use s5_rs.Fs.Gc.Sweep.{unpinned, gc_store-keeps}
use s5_rs.Fs.Gc.Walk.{collect_fs_reachable_hashes}
use s5_rs.Fs.Gc.Walk.Metadata.{IsLive}
use s5_rs.Fs.Gc.Walk.Collected.{IsMetadata, collect_fs_reachable_hashes_lem}

module _ {S : Type 0} (c : HashCodec) (api : Store S) (meta_store : S)
    (decrypt_dir_bytes : Bytes → Option Bytes → Option Bytes) (from_bytes : Bytes → Option DirV1)
    (key_of : Bytes → Option Bytes) (known : List Bytes) (root : DirV1)
    (root_file root_key snapshots_file : Option Bytes)
    (metadata : IsMetadata c api meta_store decrypt_dir_bytes from_bytes key_of known root root_file
      root_key snapshots_file) where
  -- A sweep of any blob store with what collect_fs_reachable_hashes collected, whether it succeeds
  -- or ends in an error, leaves every blob that a live directory keeps alive as it was. Live are
  -- the root, and what snapshots, shards and child directories of live directories refer to, as
  -- far as the metadata store holds it under the hash of the reference: not a directory under a
  -- registry key, nor what cannot be read. The root can be read, references have hashes of 32
  -- bytes, each under one key, and the loop may take one turn more than there are hashes that
  -- directories are stored under.
  pub gc_store-live :
      {T P : Type 0} (blob_codec : HashCodec) (blobs : Store T) (outboard : Bool)
      (pins : Bytes → Result RegistryError (List P)) (dry_run : Bool)
      (codec : IsHashCodec blob_codec) (store : IsStore blobs) (n : ℕ) (reachable : HashSet) (t : T)
      (d : DirV1) (h : Bytes)
      → suc (length known) ≤ n
      → collect_fs_reachable_hashes c api meta_store decrypt_dir_bytes from_bytes n root_file
          snapshots_file root_key
        ≡ ok reachable
      → IsLive c api meta_store decrypt_dir_bytes from_bytes root root_key snapshots_file d
      → any_keeps_alive h (values d.files) ≡ true
      → IsArray 32 h
      → blob_file blob_codec blobs outboard codec store
          (gc_store blob_codec blobs outboard reachable pins dry_run t).1
          h
        ≡ blob_file blob_codec blobs outboard codec store t h
  gc_store-live blob_codec blobs outboard pins dry_run codec store n reachable t d h fuel collected
        live alive array =
      let (found, ends, all) =
        collect_fs_reachable_hashes_lem c api meta_store decrypt_dir_bytes from_bytes key_of known
          root root_file root_key snapshots_file metadata n fuel in
      let same : found ≡ reachable = ground (arith, ends, collected) in
      let kept : contains_key reachable h ≡ true =
        ap (λ m. contains_key m h) (sym same) ∙ all d h live alive in
      gc_store-keeps blob_codec blobs outboard reachable pins dry_run codec store t h array
        (ap (λ b. unpinned reachable pins h && not b) kept ∙ ground arith)
