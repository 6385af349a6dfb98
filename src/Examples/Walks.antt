-- ===== src/Examples/Walks.antt =====
-- A walk from a root with one shard, which is a directory that refers to itself and holds one file,
-- and is a snapshot too.
use s5_rs.Base.{
  ℕ, ◌≡◌, refl, sym, ap, ◌∙◌, subst, Bytes, true, false, Option, none, some, [], ◌∷◌, ok, replicate,
  arith, inl, inr, if◌then◌else◌, is_same, is_same_eq, bytes_ord, nat_ord, Bool-cases, cmp_bytes,
}
use s5_rs.BTreeMap
use s5_rs.BTreeMap.{BTreeMap, contains_key, values}
use s5_rs.Stream.{IsArray}
use s5_rs.Store.Memory.{MemoryStore, memory_store, features, slice, open_read_bytes}
use s5_rs.Store.Memory.Laws.{memory_store-IsStore}
use s5_rs.Blob.Paths.{blob_path_for_hash, path_for_hash, hash_from_blob_path}
use s5_rs.Blob.Paths.RoundTrip.{hash_from_blob_path-blob_path_for_hash}
use s5_rs.Blob.Store.{read_as_bytes}
use s5_rs.Blob.Store.Laws.{blob_file}
use s5_rs.Fs.Dir.{DirV1, new_dir, new_header, DirRef, new_file, is_tombstone, file_ref_type}
use s5_rs.Fs.CreateDir.Extract.{among}
use s5_rs.Fs.Gc.{
  HashSet, gc_store, collect_hashes_from_dir, collect_files, collect_file, add_versions_iterative,
  walk,
}
use s5_rs.Fs.Gc.Reachable.{any_keeps_alive}
use s5_rs.Fs.Gc.Walk.{
  traverse, drain, links, load_dir, snapshot_links, root_dirs, collect_fs_reachable_hashes,
}
use s5_rs.Fs.Gc.Walk.Visited.{Has}
use s5_rs.Fs.Gc.Walk.Metadata.{
  encryption_key, Refers, to_dir, to_shard, HasOwnKey, IsStored, IsSnapshot, entry, IsLive,
  the_root, below,
}
use s5_rs.Fs.Gc.Walk.Collected.{IsMetadata, collect_fs_reachable_hashes_lem}
use s5_rs.Fs.Gc.Walk.Safety.{gc_store-live}
use s5_rs.Examples.Sweeps.{codec, codec-IsHashCodec, a_hash, a_hash-IsArray, one_blob, none_pinned}

abbrev dir_hash : Bytes
dir_hash = replicate 32 9

dir_hash-IsArray : IsArray 32 dir_hash
dir_hash-IsArray = record { len = refl; bytes = ground arith }

abbrev dir_link : DirRef
dir_link = record {
  ref_type = none;
  hash = dir_hash;
  ts_seconds = none;
  ts_nanos = none;
  keys = none;
  encryption_type = none;
  extra = none;
}

-- One shard.
abbrev root : DirV1
root = record new_dir {
  header = record new_header { shard_level = some 0; shards = some ((3, dir_link) ∷ []) };
}

abbrev index : DirV1
index = record new_dir { dirs = (98 ∷ [], dir_link) ∷ [] }

abbrev inner : DirV1
inner = record new_dir {
  dirs = (99 ∷ [], dir_link) ∷ [];
  files = (97 ∷ [], new_file a_hash 10) ∷ [];
}

abbrev from_bytes : Bytes → Option DirV1
from_bytes b =
    if is_same b (0 ∷ []) then some root else if is_same b (7 ∷ []) then some index else some inner

abbrev decrypt : Bytes → Option Bytes → Option Bytes
decrypt b key = some b

abbrev meta_store : MemoryStore
meta_store = (blob_path_for_hash codec dir_hash features, 1 ∷ 2 ∷ []) ∷ []

abbrev no_key : Bytes → Option Bytes
no_key h = none

some_map :
    {m n : BTreeMap ℕ DirRef} → ◌≡◌ {A = Option (BTreeMap ℕ DirRef)} (some m) (some n) → m ≡ n
some_map e = ground (arith, e)

-- All references are the same.
abbrev RefersOnly : DirV1 → Type 0
RefersOnly d = (r : DirRef) → Refers d r → dir_link ≡ r

one_shard : (i : ℕ) (r : DirRef) → Has {A = ℕ × DirRef} (i, r) ((3, dir_link) ∷ []) → dir_link ≡ r
one_shard i r (inl same) = ap (λ x. x.1) (sym same)
one_shard i r (inr none_left) = elim none_left [ ]

root-RefersOnly : RefersOnly root
root-RefersOnly r (to_dir name _ has) = absurd has
root-RefersOnly r (to_shard m i _ e has) = one_shard i r (subst (Has (i, r)) (sym (some_map e)) has)

index-RefersOnly : RefersOnly index
index-RefersOnly r (to_dir name _ (inl same)) = ap (λ x. x.1) (sym same)
index-RefersOnly r (to_dir name _ (inr none_left)) = elim none_left [ ]
index-RefersOnly r (to_shard m i _ e has) = absurd (ground (arith, e))

inner-RefersOnly : RefersOnly inner
inner-RefersOnly r (to_dir name _ (inl same)) = ap (λ x. x.1) (sym same)
inner-RefersOnly r (to_dir name _ (inr none_left)) = elim none_left [ ]
inner-RefersOnly r (to_shard m i _ e has) = absurd (ground (arith, e))

decoded-RefersOnly : (b : Bytes) (d : DirV1) → from_bytes b ≡ some d → RefersOnly d
decoded-RefersOnly b d e = elim (Bool-cases (is_same b (0 ∷ []))) [
  | inl x ↦
      let is_root : root ≡ d = ground (arith, e, x) in subst RefersOnly is_root root-RefersOnly
  | inr x ↦ elim (Bool-cases (is_same b (7 ∷ []))) [
    | inl y ↦
        let is_index : index ≡ d = ground (arith, e, x, y) in
        subst RefersOnly is_index index-RefersOnly
    | inr y ↦
        let is_inner : inner ≡ d = ground (arith, e, x, y) in
        subst RefersOnly is_inner inner-RefersOnly
  ]
]

own_key : (r : DirRef) → dir_link ≡ r → HasOwnKey no_key r.hash (encryption_key r)
own_key r same =
    subst (λ x. HasOwnKey no_key x.hash (encryption_key x)) same (refl, dir_hash-IsArray)

root_key-own : (r : DirRef) → dir_link ≡ r → HasOwnKey no_key r.hash none
root_key-own r same = subst (λ x. HasOwnKey no_key x.hash none) same (refl, dir_hash-IsArray)

same_hash :
    (h : Bytes)
    → IsArray 32 h
    → blob_path_for_hash codec dir_hash features ≡ blob_path_for_hash codec h features
    → dir_hash ≡ h
same_hash h a e =
    let one =
      hash_from_blob_path-blob_path_for_hash codec codec-IsHashCodec dir_hash features
        dir_hash-IsArray in
    let other = hash_from_blob_path-blob_path_for_hash codec codec-IsHashCodec h features a in
    ground (arith, sym one ∙ ap (λ p. hash_from_blob_path codec p features) e ∙ other)

listed_dir : among dir_hash (dir_hash ∷ []) ≡ true
unfolding among cmp_bytes
listed_dir = refl

-- The snapshot index lists the directory too.
abbrev index_file : Option Bytes
index_file = some (7 ∷ [])

listed-only :
    (r : DirRef)
    → IsSnapshot codec memory_store meta_store decrypt from_bytes index_file r
    → dir_link ≡ r
listed-only r (entry b d name _ read decoded has) =
    decoded-RefersOnly b d decoded r (to_dir name r has)

metadata :
    IsMetadata codec memory_store meta_store decrypt from_bytes no_key
      (dir_hash ∷ [])
      root
      (some (0 ∷ []))
      none
      index_file
unfolding open_read_bytes BTreeMap.get among cmp_bytes
metadata = record {
  root_IsRoot = record {
    bytes = 0 ∷ [];
    plain = 0 ∷ [];
    read = refl;
    decrypted = refl;
    decoded = refl;
  };
  stored_known = λ h key d a s.
      let read = s.read in
      elim (Bool-cases (
        is_same (blob_path_for_hash codec dir_hash features)
          (blob_path_for_hash codec h features))) [
            | inl e ↦
                ap (λ x. among x (dir_hash ∷ []))
                  (sym (
                    same_hash h a (
                      is_same_eq (blob_path_for_hash codec dir_hash features)
                        (blob_path_for_hash codec h features) e)))
                ∙ listed_dir
            | inr e ↦ absurd (ground (arith, read, e))
          ];
  root_keys = λ r refers. own_key r (root-RefersOnly r refers);
  snapshot_keys = λ r listed. root_key-own r (listed-only r listed);
  stored_keys = λ h key d r s refers. own_key r (decoded-RefersOnly s.plain d s.decoded r refers);
}

dir-IsStored : IsStored codec memory_store meta_store decrypt from_bytes dir_hash none inner
unfolding open_read_bytes BTreeMap.get cmp_bytes slice blob_path_for_hash path_for_hash features
dir-IsStored = record {
  bytes = 1 ∷ 2 ∷ [];
  plain = 1 ∷ 2 ∷ [];
  read = refl;
  decrypted = refl;
  decoded = refl;
}

-- Through the shard of the root, and again through the directory itself.
inner-IsLive : IsLive codec memory_store meta_store decrypt from_bytes root none index_file inner
inner-IsLive =
    below root inner dir_link the_root (to_shard ((3, dir_link) ∷ []) 3 dir_link refl (inl refl))
      dir-IsStored

collect_fs_reachable_hashes_example :
    (reachable : HashSet) × (collect_fs_reachable_hashes codec memory_store meta_store decrypt
        from_bytes 2
        (some (0 ∷ []))
        index_file
        none
      ≡ ok reachable)
    × ((d : DirV1) (h : Bytes)
        → IsLive codec memory_store meta_store decrypt from_bytes root none index_file d
        → any_keeps_alive h (values d.files) ≡ true
        → contains_key reachable h ≡ true)
collect_fs_reachable_hashes_example =
    collect_fs_reachable_hashes_lem codec memory_store meta_store decrypt from_bytes no_key
      (dir_hash ∷ []) root (some (0 ∷ [])) none index_file metadata 2 (omega arith)

collected :
    collect_fs_reachable_hashes codec memory_store meta_store decrypt from_bytes 2
      (some (0 ∷ []))
      index_file
      none
    ≡ ok ((a_hash, tt) ∷ [])
unfolding collect_fs_reachable_hashes traverse drain root_dirs snapshot_links links load_dir
    read_as_bytes open_read_bytes BTreeMap.get BTreeMap.insert cmp_bytes slice blob_path_for_hash
    path_for_hash features new_file collect_hashes_from_dir collect_files collect_file
    add_versions_iterative walk is_tombstone file_ref_type
collected = refl

inner_alive : any_keeps_alive a_hash (values inner.files) ≡ true
unfolding is_tombstone file_ref_type new_file cmp_bytes
inner_alive = refl

gc_store-live_example :
    blob_file codec memory_store true codec-IsHashCodec memory_store-IsStore
      (gc_store codec memory_store true ((a_hash, tt) ∷ []) none_pinned false one_blob).1
      a_hash
    ≡ blob_file codec memory_store true codec-IsHashCodec memory_store-IsStore one_blob a_hash
gc_store-live_example =
    gc_store-live codec memory_store meta_store decrypt from_bytes no_key (dir_hash ∷ []) root
      (some (0 ∷ [])) none index_file metadata codec memory_store true none_pinned false
      codec-IsHashCodec memory_store-IsStore 2 ((a_hash, tt) ∷ []) one_blob inner a_hash
      (omega arith) collected inner-IsLive inner_alive a_hash-IsArray
