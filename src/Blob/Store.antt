-- ===== src/Blob/Store.antt =====
-- `BlobStore` (s5_core/src/blob/store.rs, read.rs) over any store. The outboard data lies in the
-- same store (`BlobStore::new`), or there is none (`without_outboard`). Imports are in
-- Blob/Import.
pub mod Laws
use s5_rs.Base.{
  false, ℕ, Bytes, Bool, Option, none, some, List, [], ◌∷◌, Result, ok, err, map_err, ◌>>=◌,
  if◌then◌else◌,
}
use s5_rs.Store.{Store, StoreError, path_error}
use s5_rs.Blob.Location.{BlobLocation}
use s5_rs.Blob.Paths.{
  HashCodec, PathError, invalid_data, blob_path_for_hash, obao6_path_for_hash, hash_from_blob_path,
}

-- An error of a path, among those of a store.
abbrev pub path_failed : PathError → StoreError
path_failed (invalid_data t) = path_error t

module _ {S : Type 0} (c : HashCodec) (api : Store S) where
  abbrev pub blob_path : Bytes → Bytes
  blob_path hash = blob_path_for_hash c hash api.features

  abbrev pub obao6_path : Bytes → Bytes
  obao6_path hash = obao6_path_for_hash c hash api.features

  unfoldable pub size : S → Bytes → Result StoreError ℕ
  size s hash = api.size s (blob_path hash)

  unfoldable pub provide : S → Bytes → Result StoreError (List BlobLocation)
  provide s hash = api.provide s (blob_path hash)

  unfoldable pub contains : S → Bytes → Result StoreError Bool
  contains s hash = api.exists s (blob_path hash)

  unfoldable pub read_as_bytes : S → Bytes → ℕ → Option ℕ → Result StoreError Bytes
  read_as_bytes s hash offset max_len = api.open_read_bytes s (blob_path hash) offset max_len

  -- The loop of `list_hashes`: other paths are passed over, and the first error ends it.
  unfoldable pub hashes_of : List Bytes → Result StoreError (List Bytes)
  hashes_of [] = ok []
  hashes_of (path ∷ paths) =
      let rest = hashes_of paths in
      elim (hash_from_blob_path c path api.features) [
        | err e ↦ err (path_failed e)
        | ok none ↦ rest
        | ok (some hash) ↦ do hashes ← rest; ok (hash ∷ hashes)
      ]

  unfoldable pub list_hashes : S → Result StoreError (List Bytes)
  list_hashes s = do paths ← api.list s; hashes_of paths

-- The operations that look at the outboard data.
module _ {S : Type 0} (c : HashCodec) (api : Store S) (outboard : Bool) where
  -- `delete`: an error of the outboard data is only logged.
  unfoldable pub delete : S → Bytes → Result StoreError (Unit {0}) × S
  delete s hash =
      let r = api.delete s (blob_path c api hash) in
      elim r.0 [
        | err e ↦ (err e, r.1)
        | ok _ ↦
            if outboard then (ok tt, (api.delete r.1 (obao6_path c api hash)).1) else (ok tt, r.1)
      ]

  unfoldable pub contains_obao6 : S → Bytes → Result StoreError Bool
  contains_obao6 s hash = if outboard then api.exists s (obao6_path c api hash) else ok false

  unfoldable pub provide_obao6 : S → Bytes → Result StoreError (List BlobLocation)
  provide_obao6 s hash = if outboard then api.provide s (obao6_path c api hash) else ok []
