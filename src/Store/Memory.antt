-- ===== src/Store/Memory.antt =====
-- `MemoryStore` (blob_stores/memory/src/lib.rs): a map from paths to bytes. `u64 as usize` is the
-- identity, as on a 64-bit target. No file has a location.
pub mod Laws
use s5_rs.Base.{
  ℕ, ◌-◌, ◌^◌, not, min, Bytes, Bool, true, Option, none, some, List, [], ◌∷◌, ◌++◌, Result, ok,
  err, ◌>>=◌, length, take, drop, leb, if◌then◌else◌, bytes_ord, is_same,
}
use s5_rs.BTreeMap
use s5_rs.BTreeMap.{BTreeMap}
use s5_rs.Blob.Location.{BlobLocation}
use s5_rs.Store.{Store, StoreError, StoreFeatures, not_found, default_put_temp}

abbrev pub MemoryStore : Type 0
MemoryStore = BTreeMap Bytes Bytes

-- `try_collect` and `concat`: the first error of the stream, or its chunks in one piece.
unfoldable pub try_concat : List (Result StoreError Bytes) → Result StoreError Bytes
try_concat [] = ok []
try_concat (ok chunk ∷ rest) = do bytes ← try_concat rest; ok (chunk ++ bytes)
try_concat (err e ∷ rest) = err e

unfoldable pub put_bytes : MemoryStore → Bytes → Bytes → Result StoreError (Unit {0}) × MemoryStore
put_bytes s path bytes = (ok tt, BTreeMap.insert s path bytes)

unfoldable pub put_stream :
    MemoryStore
    → Bytes
    → List (Result StoreError Bytes)
    → Result StoreError (Unit {0}) × MemoryStore
put_stream s path chunks = elim (try_concat chunks) [
  | ok bytes ↦ (ok tt, BTreeMap.insert s path bytes)
  | err e ↦ (err e, s)
]

unfoldable pub features : StoreFeatures
features = record {
  supports_rename = true;
  case_sensitive = true;
  recommended_max_dir_size = 2 ^ 64 - 1;
}

unfoldable pub exists : MemoryStore → Bytes → Result StoreError Bool
exists s path = ok (BTreeMap.contains_key s path)

-- The part of a file from `offset`, of at most `max_len` bytes.
unfoldable pub slice : Bytes → ℕ → Option ℕ → Bytes
slice file offset max_len =
    if leb (length file) offset
    then []
    else let remaining = length file - offset in
      take (elim max_len [ some max ↦ min remaining max | none ↦ remaining ]) (drop offset file)

unfoldable pub open_read_bytes : MemoryStore → Bytes → ℕ → Option ℕ → Result StoreError Bytes
open_read_bytes s path offset max_len = elim (BTreeMap.get s path) [
  | none ↦ err (not_found path)
  | some file ↦ ok (slice file offset max_len)
]

unfoldable pub size : MemoryStore → Bytes → Result StoreError ℕ
size s path = elim (BTreeMap.get s path) [
  | none ↦ err (not_found path)
  | some file ↦ ok (length file)
]

unfoldable pub list : MemoryStore → Result StoreError (List Bytes)
list s = ok (BTreeMap.keys s)

unfoldable pub delete : MemoryStore → Bytes → Result StoreError (Unit {0}) × MemoryStore
delete s path = (ok tt, BTreeMap.remove s path)

unfoldable pub rename : MemoryStore → Bytes → Bytes → Result StoreError (Unit {0}) × MemoryStore
rename s old_path new_path =
    if is_same old_path new_path then (ok tt, s) else elim (BTreeMap.get s old_path) [
      | none ↦ (err (not_found old_path), s)
      | some value ↦ (ok tt, BTreeMap.insert (BTreeMap.remove s old_path) new_path value)
    ]

unfoldable pub provide : MemoryStore → Bytes → Result StoreError (List BlobLocation)
provide s path = if not (BTreeMap.contains_key s path) then ok [] else ok []

abbrev pub memory_store : Store MemoryStore
memory_store = record {
  features = features;
  put_temp = default_put_temp put_stream;
  put_stream = put_stream;
  put_bytes = put_bytes;
  exists = exists;
  open_read_bytes = open_read_bytes;
  size = size;
  list = list;
  delete = delete;
  rename = rename;
  provide = provide;
}
