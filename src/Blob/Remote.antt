-- ===== src/Blob/Remote.antt =====
-- `RemoteBlobStore` (s5_blobs/src/store_remote.rs): the peer at the other end of a connection as a
-- store, whose paths are those of blobs. The texts of its errors are not modelled.
pub mod Laws
pub mod Session
use s5_rs.Base.{
  ℕ, ◌^◌, ◌-◌, Bytes, Bool, true, false, not, ◌||◌, Option, none, some, List, [], ◌∷◌, ◌++◌, Result,
  ok, err, ◌>>=◌, if◌then◌else◌, ◌==◌, length, drop, keep, is_same, bytes_ord, concat, map_err,
}
use s5_rs.Store.{
  Store, StoreError, StoreFeatures, path_error, hash_mismatch, remote_error, unsupported,
}
use s5_rs.Blob.Location.{BlobLocation}
use s5_rs.Blob.Paths.{HashCodec, slash, as_hash}
use s5_rs.Blob.Client.{
  Connection, gather, delete_blob, pin_blob, query, download_bytes, upload_chunks,
}

-- `split_once('/')`.
unfoldable pub split_once : Bytes → Option (Bytes × Bytes)
split_once [] = none
split_once (x ∷ xs) =
    let rest = split_once xs in
    if x == slash then some ([], xs) else elim rest [ none ↦ none | some p ↦ some (x ∷ p.0, p.1) ]

-- "blob3" and "obao6".
abbrev pub blob_name : Bytes
blob_name = 98 ∷ 108 ∷ 111 ∷ 98 ∷ 51 ∷ []

abbrev pub obao6_name : Bytes
obao6_name = 111 ∷ 98 ∷ 97 ∷ 111 ∷ 54 ∷ []

-- `str::ends_with`.
abbrev pub ends_with : Bytes → Bytes → Bool
ends_with s suffix = is_same (drop (length s - length suffix) s) suffix

-- The part of a path that names the hash.
unfoldable pub relevant : Bytes → Bytes
relevant path = elim (split_once path) [
  | none ↦ path
  | some p ↦ if ends_with p.0 blob_name || ends_with p.0 obao6_name then p.1 else path
]

-- The end of `hash_from_path`: the text must decode to 32 bytes.
abbrev pub decode_hash : HashCodec → Bytes → Bytes → Result StoreError Bytes
decode_hash c path text = elim (c.base64_decode text) [
  | none ↦ err (path_error path)
  | some bytes ↦ elim (as_hash bytes) [ none ↦ err (path_error path) | some hash ↦ ok hash ]
]

-- `hash_from_path`.
unfoldable pub hash_from_path : HashCodec → Bytes → Result StoreError Bytes
hash_from_path c path = decode_hash c path (keep (λ x. not (x == slash)) (relevant path))

unfoldable pub features : StoreFeatures
features = record {
  supports_rename = false;
  case_sensitive = true;
  recommended_max_dir_size = 2 ^ 64 - 1;
}

module _ {T E : Type 0} (c : HashCodec) (conn : Connection T E) (blake3 : Bytes → Bytes) where
  -- The upload at the end of `put_stream` and `put_bytes`.
  unfoldable pub upload : T → Bytes → ℕ → List Bytes → Result StoreError (Unit {0}) × T
  upload t hash size chunks =
      let r = upload_chunks conn t hash size chunks in
      (elim r.0 [ ok _ ↦ ok tt | err e ↦ err remote_error ], r.1)

  -- The bytes of a blob that the peer lacks, against the hash of the path.
  unfoldable pub upload_stream :
      T → Bytes → List (Result StoreError Bytes) → Result StoreError (Unit {0}) × T
  upload_stream t hash stream = elim (gather stream) [
    | err e ↦ (err e, t)
    | ok chunks ↦
        if not (is_same (blake3 (concat chunks)) hash)
        then (err hash_mismatch, t)
        else upload t hash (length (concat chunks)) chunks
  ]

  unfoldable pub put_stream :
      T → Bytes → List (Result StoreError Bytes) → Result StoreError (Unit {0}) × T
  put_stream t path stream = elim (hash_from_path c path) [
    | err e ↦ (err e, t)
    | ok hash ↦
        let pin = pin_blob conn t hash in
        elim pin.0 [
          | ok (ok true) ↦ (ok tt, pin.1)
          | ok (ok false) ↦ upload_stream pin.1 hash stream
          | ok (err e) ↦ (err remote_error, pin.1)
          | err e ↦ (err remote_error, pin.1)
        ]
  ]

  -- `put_temp`, with "blob3/temp" for every stream.
  unfoldable pub put_temp : T → List (Result StoreError Bytes) → Result StoreError Bytes × T
  put_temp t stream =
      let path = blob_name ++ (slash ∷ 116 ∷ 101 ∷ 109 ∷ 112 ∷ []) in
      let r = put_stream t path stream in (elim r.0 [ err e ↦ err e | ok _ ↦ ok path ], r.1)

  unfoldable pub put_bytes : T → Bytes → Bytes → Result StoreError (Unit {0}) × T
  put_bytes t path bytes = elim (hash_from_path c path) [
    | err e ↦ (err e, t)
    | ok hash ↦
        let pin = pin_blob conn t hash in
        elim pin.0 [
          | ok (ok true) ↦ (ok tt, pin.1)
          | ok (ok false) ↦ upload pin.1 hash (length bytes) (bytes ∷ [])
          | ok (err e) ↦ (err remote_error, pin.1)
          | err e ↦ (err remote_error, pin.1)
        ]
  ]

  unfoldable pub exists : T → Bytes → Result StoreError Bool
  exists t path = do
    hash ← hash_from_path c path
    response ← map_err (λ e. remote_error) (query conn t hash [])
    ok response.exists

  unfoldable pub open_read_bytes : T → Bytes → ℕ → Option ℕ → Result StoreError Bytes
  open_read_bytes t path offset max_len = do
    hash ← hash_from_path c path
    map_err (λ e. remote_error) (download_bytes conn t hash offset max_len)

  unfoldable pub size : T → Bytes → Result StoreError ℕ
  size t path = do
    hash ← hash_from_path c path
    response ← map_err (λ e. remote_error) (query conn t hash [])
    elim response.size [ some n ↦ ok n | none ↦ err remote_error ]

  unfoldable pub list : T → Result StoreError (List Bytes)
  list t = err unsupported

  unfoldable pub delete : T → Bytes → Result StoreError (Unit {0}) × T
  delete t path = elim (hash_from_path c path) [
    | err e ↦ (err e, t)
    | ok hash ↦
        let r = delete_blob conn t hash in
        (
          elim r.0 [
            | ok (ok orphaned) ↦ ok tt
            | ok (err e) ↦ err remote_error
            | err e ↦ err remote_error
          ],
          r.1,
        )
  ]

  unfoldable pub rename : T → Bytes → Bytes → Result StoreError (Unit {0}) × T
  rename t old_path new_path = (err unsupported, t)

  unfoldable pub provide : T → Bytes → Result StoreError (List BlobLocation)
  provide t path = ok []

  -- `impl Store for RemoteBlobStore`.
  abbrev pub remote_store : Store T
  remote_store = record {
    features = features;
    put_temp = λ uuid. put_temp;
    put_stream = put_stream;
    put_bytes = put_bytes;
    exists = exists;
    open_read_bytes = open_read_bytes;
    size = size;
    list = list;
    delete = delete;
    rename = rename;
    provide = provide;
  }
