-- ===== src/Store.antt =====
-- Object stores: the trait `Store` (s5_core/src/store.rs) as a record of operations that pass the
-- store along. Paths are strings, as their bytes.
pub mod Contract
pub mod Memory
use s5_rs.Base.{ℕ, Bytes, Bool, Option, List, [], ◌∷◌, ◌++◌, Result, ok, err}
use s5_rs.Blob.Location.{BlobLocation}

pub data StoreError : Type 0 where
  not_found : Bytes → StoreError
  io_error : ℕ → StoreError
  path_error : Bytes → StoreError
  hash_mismatch : StoreError
  remote_error unsupported : StoreError

-- `StoreFeatures`.
pub record StoreFeatures : Type 0 where
  pub supports_rename : Bool
  pub case_sensitive : Bool
  pub recommended_max_dir_size : ℕ

-- `trait Store`. A stream of chunks is the list of what it yields; `put_temp` is given the random
-- name that it may use.
pub record Store (S : Type 0) : Type 0 where
  pub features : StoreFeatures
  pub put_temp : Bytes → S → List (Result StoreError Bytes) → Result StoreError Bytes × S
  pub put_stream : S → Bytes → List (Result StoreError Bytes) → Result StoreError (Unit {0}) × S
  pub put_bytes : S → Bytes → Bytes → Result StoreError (Unit {0}) × S
  pub exists : S → Bytes → Result StoreError Bool
  pub open_read_bytes : S → Bytes → ℕ → Option ℕ → Result StoreError Bytes
  pub size : S → Bytes → Result StoreError ℕ
  pub list : S → Result StoreError (List Bytes)
  pub delete : S → Bytes → Result StoreError (Unit {0}) × S
  pub rename : S → Bytes → Bytes → Result StoreError (Unit {0}) × S
  pub provide : S → Bytes → Result StoreError (List BlobLocation)

-- `Store::put_temp`, by default: ".tmp/" and a random name.
abbrev pub temp_path : Bytes → Bytes
temp_path uuid = 46 ∷ 116 ∷ 109 ∷ 112 ∷ 47 ∷ uuid

unfoldable pub default_put_temp :
    {S : Type 0}
    → (S → Bytes → List (Result StoreError Bytes) → Result StoreError (Unit {0}) × S)
    → Bytes
    → S
    → List (Result StoreError Bytes)
    → Result StoreError Bytes × S
default_put_temp put_stream uuid s stream =
    let r = put_stream s (temp_path uuid) stream in
    (elim r.0 [ err e ↦ err e | ok _ ↦ ok (temp_path uuid) ], r.1)
