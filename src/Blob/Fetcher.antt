-- ===== src/Blob/Fetcher.antt =====
-- `MultiFetcher` (s5_blobs/src/multi_fetcher.rs). A local source is a `BlobStore` with its state, a
-- remote one a `Client` with its connection. The texts of errors are not modelled.
pub mod Laws
pub mod Outcome
use s5_rs.Base.{
  Bytes, Bool, true, false, not, ◌||◌, Option, none, some, List, [], ◌∷◌, ◌++◌, Result, map_err,
  to_option, unwrap_or, if◌then◌else◌, ℕ, length, is_empty,
}
use s5_rs.Store.{Store, StoreError}
use s5_rs.Blob.Paths.{HashCodec}
use s5_rs.Blob.Import.{Hashing, import_bytes}
use s5_rs.Blob.Rpc.{QueryResponse}
use s5_rs.Blob.Query.{find_blob_by_blinded_hash}
use s5_rs.Blob.Client.{Connection, query, query_blinded, download_bytes, RpcError}
use s5_rs.Blob.Store as BlobStore

-- What went wrong at a source.
pub data Reason : Type 0 where
  contains_check_failed read_failed : StoreError → Reason
  query_failed download_failed : RpcError → Reason

pub record FetchError : Type 0 where
  pub source_name : Bytes
  pub reason : Reason

pub data FetchResult : Type 0 where
  ok : Bytes → FetchResult
  not_found : FetchResult
  all_failed : List FetchError → FetchResult

pub data BlobSource (S T : Type 0) : Type 0 where
  local : Bytes → S → BlobSource S T
  remote : Bytes → T → BlobSource S T

-- The end of `fetch`.
abbrev pub fetch_end : List FetchError → FetchResult
fetch_end errors = if is_empty errors then not_found else all_failed errors

module _ {S T E : Type 0} (c : HashCodec) (api : Store S) (conn : Connection T E) where
  unfoldable pub try_fetch_from : BlobSource S T → Bytes → Result FetchError (Option Bytes)
  try_fetch_from (local name s) hash = elim (BlobStore.contains c api s hash) [
    | Result.err e ↦ Result.err (record { source_name = name; reason = contains_check_failed e })
    | Result.ok false ↦ Result.ok none
    | Result.ok true ↦ elim (BlobStore.read_as_bytes c api s hash 0 none) [
      | Result.ok bytes ↦ Result.ok (some bytes)
      | Result.err e ↦ Result.err (record { source_name = name; reason = read_failed e })
    ]
  ]
  try_fetch_from (remote name t) hash = elim (query conn t hash []) [
    | Result.err e ↦ Result.err (record { source_name = name; reason = query_failed e })
    | Result.ok response ↦
        if not response.exists then Result.ok none else elim (download_bytes conn t hash 0 none) [
          | Result.ok bytes ↦ Result.ok (some bytes)
          | Result.err e ↦ Result.err (record { source_name = name; reason = download_failed e })
        ]
  ]

  -- The loop of `fetch`, with the errors so far.
  unfoldable pub fetch_from : List (BlobSource S T) → Bytes → List FetchError → FetchResult
  fetch_from [] hash errors = fetch_end errors
  fetch_from (source ∷ sources) hash errors = elim (try_fetch_from source hash) [
    | Result.ok (some bytes) ↦ ok bytes
    | Result.ok none ↦ fetch_from sources hash errors
    | Result.err e ↦ fetch_from sources hash (errors ++ (e ∷ []))
  ]

  unfoldable pub fetch : List (BlobSource S T) → Bytes → FetchResult
  fetch sources hash = fetch_from sources hash []

  unfoldable pub check_exists : BlobSource S T → Bytes → Bool
  check_exists (local name s) hash = unwrap_or (to_option (BlobStore.contains c api s hash)) false
  check_exists (remote name t) hash = elim (query conn t hash []) [
    | Result.ok response ↦ response.exists
    | Result.err e ↦ false
  ]

  unfoldable pub exists : List (BlobSource S T) → Bytes → Bool
  exists [] hash = false
  exists (source ∷ sources) hash =
      let rest = exists sources hash in if check_exists source hash then true else rest

  unfoldable pub check_exists_blinded : (Bytes → Bytes) → BlobSource S T → Bytes → Option Bytes
  check_exists_blinded blake3 (local name s) blinded =
      find_blob_by_blinded_hash c api blake3 s blinded
  check_exists_blinded blake3 (remote name t) blinded = elim (query_blinded conn t blinded []) [
    | Result.ok response ↦ if response.exists then response.actual_hash else none
    | Result.err e ↦ none
  ]

  unfoldable pub exists_blinded : (Bytes → Bytes) → List (BlobSource S T) → Bytes → Option Bytes
  exists_blinded blake3 [] blinded = none
  exists_blinded blake3 (source ∷ sources) blinded =
      let rest = exists_blinded blake3 sources blinded in
      elim (check_exists_blinded blake3 source blinded) [ some hash ↦ some hash | none ↦ rest ]

-- The errors of `fetch_to_store`.
pub data StoreFetchError : Type 0 where
  store_failed : StoreError → StoreFetchError
  not_in_any_source : StoreFetchError
  all_sources_failed : List Reason → StoreFetchError

abbrev pub reasons : List FetchError → List Reason
reasons [] = []
reasons (e ∷ errors) = e.reason ∷ reasons errors

module _ {S T E D : Type 0} (c : HashCodec) (api : Store S) (conn : Connection T E)
    (dest_api : Store D) (outboard : Bool) (crates : Hashing) (uuid : Bytes) where
  -- `fetch_to_store`, once the destination does not hold the blob.
  unfoldable pub store_fetched : D → FetchResult → Result StoreFetchError (Unit {0}) × D
  store_fetched dest (ok bytes) =
      let r = import_bytes c dest_api outboard crates uuid dest bytes in
      (elim r.0 [ Result.ok _ ↦ Result.ok tt | Result.err e ↦ Result.err (store_failed e) ], r.1)
  store_fetched dest not_found = (Result.err not_in_any_source, dest)
  store_fetched dest (all_failed errors) = (Result.err (all_sources_failed (reasons errors)), dest)

  unfoldable pub fetch_to_store :
      List (BlobSource S T) → Bytes → D → Result StoreFetchError (Unit {0}) × D
  fetch_to_store sources hash dest = elim (BlobStore.contains c dest_api dest hash) [
    | Result.ok true ↦ (Result.ok tt, dest)
    | Result.ok false ↦ store_fetched dest (fetch c api conn sources hash)
    | Result.err e ↦ store_fetched dest (fetch c api conn sources hash)
  ]
