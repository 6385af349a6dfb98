-- ===== src/Fs/Gc/Walk/Metadata.antt =====
-- Which directories of a file system root are live (s5_fs/src/gc.rs), told by the fields of
-- directories and the bytes of the metadata store, apart from the walk that collects them.
use s5_rs.Base.{
  ℕ, ◌≡◌, refl, ap, sym, ◌∙◌, subst, Bytes, Option, none, some, List, [], ◌∷◌, map, inl, inr, ok,
  arith, nat_ord, Result-cases, Option-cases,
}
use s5_rs.BTreeMap
use s5_rs.BTreeMap.{BTreeMap, values}
use s5_rs.Stream.{IsArray}
use s5_rs.Store.{Store}
use s5_rs.Blob.Paths.{HashCodec, blob_path_for_hash}
use s5_rs.Blob.Store.{read_as_bytes}
use s5_rs.Fs.Dir.{DirV1, DirRef}
use s5_rs.Fs.Gc.Walk.{Link, link_of, shard_links, links, load_dir, snapshot_links, root_dirs}
use s5_rs.Fs.Gc.Walk.Visited.{Has, Has-left, Has-right, Has-split}

-- The key of a reference, its entry 0x0e.
abbrev pub encryption_key : DirRef → Option Bytes
encryption_key r = elim r.keys [ none ↦ none | some keys ↦ BTreeMap.get keys 14 ]

-- A directory refers to its child directories and its shards.
pub data Refers (d : DirV1) : DirRef → Type 0 where
  to_dir : (name : Bytes) (r : DirRef) → Has (name, r) d.dirs → Refers d r
  to_shard :
      (shards : BTreeMap ℕ DirRef) (i : ℕ) (r : DirRef)
      → d.header.shards ≡ some shards
      → Has (i, r) shards
      → Refers d r

-- A hash has 32 bytes and its key is the one that belongs to it.
abbrev pub HasOwnKey : (Bytes → Option Bytes) → Bytes → Option Bytes → Type 0
HasOwnKey key_of h key = (key ≡ key_of h) × IsArray 32 h

Has-map : {A B : Type 0} (f : A → B) (x : A) (xs : List A) → Has x xs → Has (f x) (map f xs)
Has-map f x [] has = has
Has-map f x (y ∷ xs) (inl e) = inl (ap f e)
Has-map f x (y ∷ xs) (inr has) = inr (Has-map f x xs has)

Has-unmap :
    {A B : Type 0} (f : A → B) (y : B) (xs : List A)
    → Has y (map f xs)
    → (x : A) × Has x xs × (y ≡ f x)
Has-unmap f y [] has = absurd has
Has-unmap f y (x ∷ xs) (inl e) = (x, inl refl, e)
Has-unmap f y (x ∷ xs) (inr has) = let (z, there, e) = Has-unmap f y xs has in (z, inr there, e)

-- The entries of a map, as links.
Has-values :
    {K : Type 0} (f : DirRef → Link) (m : BTreeMap K DirRef) (l : Link)
    → Has l (map f (values m))
    → (k : K) × (r : DirRef) × Has (k, r) m × (l ≡ f r)
Has-values f m l has =
    let (r, there, e) = Has-unmap f l (values m) has in
    let (entry, inside, same) = Has-unmap (λ x. x.1) r m there in
    (entry.0, entry.1, inside, e ∙ ap f same)

values-Has :
    {K : Type 0} (f : DirRef → Link) (m : BTreeMap K DirRef) (k : K) (r : DirRef)
    → Has (k, r) m
    → Has (f r) (map f (values m))
values-Has f m k r has = Has-map f r (values m) (Has-map (λ x. x.1) (k, r) m has)

pub links-Refers :
    (d : DirV1) (l : Link)
    → Has l (links d)
    → (r : DirRef) × Refers d r × (l ≡ (r.hash, encryption_key r))
unfolding links
links-Refers d l has = elim (Has-split l (shard_links d) (map link_of (values d.dirs)) has) [
  | inl shard ↦ elim (Option-cases d.header.shards) [
    | inl e ↦
        absurd (subst (λ o. Has l (elim o [ none ↦ [] | some m ↦ map link_of (values m) ])) e shard)
    | inr (m, e) ↦
        let (i, r, there, same) =
          Has-values link_of m l
            (subst (λ o. Has l (elim o [ none ↦ [] | some m ↦ map link_of (values m) ])) e shard) in
        (r, to_shard m i r e there, same)
  ]
  | inr below ↦
      let (name, r, there, same) = Has-values link_of d.dirs l below in
      (r, to_dir name r there, same)
]

pub Refers-links : (d : DirV1) (r : DirRef) → Refers d r → Has (r.hash, encryption_key r) (links d)
unfolding links
Refers-links d r (to_dir name _ has) =
    Has-right (link_of r) (shard_links d) (map link_of (values d.dirs))
      (values-Has link_of d.dirs name r has)
Refers-links d r (to_shard m i _ e has) =
    Has-left (link_of r) (shard_links d) (map link_of (values d.dirs)) (
      subst (λ o. Has (link_of r) (elim o [ none ↦ [] | some m ↦ map link_of (values m) ])) (sym e)
        (values-Has link_of m i r has))

-- What an index that may not be decoded lists.
abbrev under_key : Option Bytes → Option DirV1 → List Link
under_key root_key index = elim index [
  | none ↦ []
  | some i ↦ map (λ d. (d.hash, root_key)) (values i.dirs)
]

module _ {S : Type 0} (c : HashCodec) (api : Store S) (meta_store : S)
    (decrypt_dir_bytes : Bytes → Option Bytes → Option Bytes)
    (from_bytes : Bytes → Option DirV1) where
  -- A directory stands encrypted with a key in the blob of a hash.
  pub record IsStored (h : Bytes) (key : Option Bytes) (d : DirV1) : Type 0 where
    pub bytes : Bytes
    pub plain : Bytes
    pub read :
        api.open_read_bytes meta_store (blob_path_for_hash c h api.features) 0 none ≡ ok bytes
    pub decrypted : decrypt_dir_bytes bytes key ≡ some plain
    pub decoded : from_bytes plain ≡ some d

  -- The directory of the file root.fs5.cbor.
  pub record IsRoot (root_file root_key : Option Bytes) (d : DirV1) : Type 0 where
    pub bytes : Bytes
    pub plain : Bytes
    pub read : root_file ≡ some bytes
    pub decrypted : decrypt_dir_bytes bytes root_key ≡ some plain
    pub decoded : from_bytes plain ≡ some d

  -- The references in the file snapshots.fs5.cbor.
  pub data IsSnapshot (snapshots_file : Option Bytes) : DirRef → Type 0 where
    entry :
        (bytes : Bytes) (index : DirV1) (name : Bytes) (r : DirRef)
        → snapshots_file ≡ some bytes
        → from_bytes bytes ≡ some index
        → Has (name, r) index.dirs
        → IsSnapshot snapshots_file r

  -- The live directories: the root, what the snapshots refer to, and what live directories refer to,
  -- as far as it is stored under the hash of the reference.
  pub data IsLive (root : DirV1) (root_key snapshots_file : Option Bytes) : DirV1 → Type 0 where
    the_root : IsLive root root_key snapshots_file root
    snapshot :
        (r : DirRef) (d : DirV1)
        → IsSnapshot snapshots_file r
        → IsStored r.hash root_key d
        → IsLive root root_key snapshots_file d
    below :
        (d e : DirV1) (r : DirRef)
        → IsLive root root_key snapshots_file d
        → Refers d r
        → IsStored r.hash (encryption_key r) e
        → IsLive root root_key snapshots_file e

  pub stored-load_dir :
      (h : Bytes) (key : Option Bytes) (d : DirV1)
      → IsStored h key d
      → load_dir c api meta_store decrypt_dir_bytes from_bytes h key ≡ some d
  unfolding load_dir read_as_bytes
  stored-load_dir h key d s = ground (arith, s.read, s.decrypted, s.decoded)

  pub load_dir-IsStored :
      (h : Bytes) (key : Option Bytes) (d : DirV1)
      → load_dir c api meta_store decrypt_dir_bytes from_bytes h key ≡ some d
      → IsStored h key d
  unfolding load_dir read_as_bytes
  load_dir-IsStored h key d e =
      elim (Result-cases
        (api.open_read_bytes meta_store (blob_path_for_hash c h api.features) 0 none)) [
          | inr (x, f) ↦ absurd (ground (arith, e, f))
          | inl (b, f) ↦ elim (Option-cases (decrypt_dir_bytes b key)) [
            | inl g ↦ absurd (ground (arith, e, f, g))
            | inr (p, g) ↦ record {
              bytes = b;
              plain = p;
              read = f;
              decrypted = g;
              decoded = ground (arith, e, f, g);
            }
          ]
        ]

  pub snapshot_links-IsSnapshot :
      (snapshots_file root_key : Option Bytes) (l : Link)
      → Has l (snapshot_links c api meta_store decrypt_dir_bytes from_bytes snapshots_file root_key)
      → (r : DirRef) × IsSnapshot snapshots_file r × (l ≡ (r.hash, root_key))
  unfolding snapshot_links
  snapshot_links-IsSnapshot none root_key l has = absurd has
  snapshot_links-IsSnapshot (some bytes) root_key l has = elim (Option-cases (from_bytes bytes)) [
    | inl e ↦ absurd (subst (λ o. Has l (under_key root_key o)) e has)
    | inr (index, e) ↦
        let (name, r, there, same) =
          Has-values (λ d. (d.hash, root_key)) index.dirs l
            (subst (λ o. Has l (under_key root_key o)) e has) in
        (r, entry bytes index name r refl e there, same)
  ]

  pub IsSnapshot-snapshot_links :
      (snapshots_file root_key : Option Bytes) (r : DirRef)
      → IsSnapshot snapshots_file r
      → Has
          (r.hash, root_key)
          (snapshot_links c api meta_store decrypt_dir_bytes from_bytes snapshots_file root_key)
  unfolding snapshot_links
  IsSnapshot-snapshot_links file root_key r (entry bytes index name _ read decoded has) =
      let all : snapshot_links c api meta_store decrypt_dir_bytes from_bytes file root_key
          ≡ map (λ d. (d.hash, root_key)) (values index.dirs) =
        ap (λ f. snapshot_links c api meta_store decrypt_dir_bytes from_bytes f root_key) read
        ∙ ap (under_key root_key) decoded in
      subst (Has (r.hash, root_key)) (sym all)
        (values-Has (λ d. (d.hash, root_key)) index.dirs name r has)

  pub IsRoot-root_dirs :
      (root_file root_key : Option Bytes) (d : DirV1)
      → IsRoot root_file root_key d
      → root_dirs c api meta_store decrypt_dir_bytes from_bytes root_file root_key ≡ ok (d ∷ [])
  unfolding root_dirs
  IsRoot-root_dirs root_file root_key d s = ground (arith, s.read, s.decrypted, s.decoded)
