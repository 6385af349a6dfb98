-- ===== src/Blob/Import.antt =====
-- Imports into a blob store (s5_core/src/blob/import.rs). BLAKE3, the outboard of the `bao_tree`
-- crate and the random name of a temporary file are parameters. A stream is the list of what it
-- yields; the outboard data lies in the same store, or there is none.
pub mod Laws
use s5_rs.Base.{
  ℕ, ◌^◌, Bytes, Bool, true, false, not, ◌&&◌, Option, none, some, List, [], ◌∷◌, ◌++◌, Result, ok,
  err, leb, if◌then◌else◌, is_empty, is_same, bytes_ord, length, map,
}
use s5_rs.Store.{Store, StoreError, hash_mismatch}
use s5_rs.Blob.Paths.{HashCodec}
use s5_rs.Blob.Identifier.{BlobId}
use s5_rs.Blob.Store.{blob_path, obao6_path}

-- `blake3::hash`, and `PreOrderOutboard::create_sized`: the root hash and the data.
pub record Hashing : Type 0 where
  pub blake3 : Bytes → Bytes
  pub create_sized : Bytes → ℕ → Result StoreError (Bytes × Bytes)

-- `compute_outboard`.
unfoldable pub compute_outboard : Hashing → Bytes → ℕ → Result StoreError (Bytes × Option Bytes)
compute_outboard crates bytes size = elim (crates.create_sized bytes size) [
  | err e ↦ err e
  | ok ob ↦ ok (ob.0, if not (is_empty ob.1) then some ob.1 else none)
]

-- What the hasher of `import_stream` sees: the chunks that go by.
abbrev pub hashed : List (Result StoreError Bytes) → Bytes
hashed [] = []
hashed (ok chunk ∷ rest) = chunk ++ hashed rest
hashed (err e ∷ rest) = []

abbrev pub Imported : Type 0 → Type 0
Imported S = Result StoreError BlobId × S

module _ {S : Type 0} (api : Store S) where
  -- The copy in `finalize_import`, for stores that do not rename.
  unfoldable pub copy_temp : S → Bytes → Bytes → Result StoreError (Unit {0}) × S
  copy_temp s temp final = elim (api.open_read_bytes s temp 0 none) [
    | err e ↦ (err e, s)
    | ok stream ↦
        let put = api.put_stream s final (ok stream ∷ []) in
        elim put.0 [ err e ↦ (err e, put.1) | ok _ ↦ api.delete put.1 temp ]
  ]

  -- The end of `finalize_import`: the temporary file becomes the blob, or is deleted.
  unfoldable pub settle : S → Bytes → Bytes → Result StoreError (Unit {0}) × S
  settle s temp final = elim (api.exists s final) [
    | err e ↦ (err e, s)
    | ok true ↦ api.delete s temp
    | ok false ↦
        if api.features.supports_rename then api.rename s temp final else copy_temp s temp final
  ]

module _ {S : Type 0} (c : HashCodec) (api : Store S) (outboard : Bool) where
  -- The write of the outboard data, in `import_bytes` and `finalize_import`.
  unfoldable pub put_outboard : S → Bytes → Option Bytes → Result StoreError (Unit {0}) × S
  put_outboard s hash none = (ok tt, s)
  put_outboard s hash (some ob) =
      if outboard then api.put_bytes s (obao6_path c api hash) ob else (ok tt, s)

  unfoldable pub finalize_import : S → Bytes → Bytes → ℕ → Option Bytes → Imported S
  finalize_import s temp hash size ob =
      let put = put_outboard s hash ob in
      elim put.0 [
        | err e ↦ (err e, put.1)
        | ok _ ↦
            let end = settle api put.1 temp (blob_path c api hash) in
            (elim end.0 [ err e ↦ err e | ok _ ↦ ok (record { hash = hash; size = size }) ], end.1)
      ]

module _ (outboard : Bool) (crates : Hashing) where
  -- The hash and the outboard data that `import_bytes` computes; below 2^16 bytes only the hash.
  unfoldable pub hash_bytes : Bytes → Result StoreError (Bytes × Option Bytes)
  hash_bytes bytes =
      if outboard && leb (2 ^ 16) (length bytes)
      then compute_outboard crates bytes (length bytes)
      else ok (crates.blake3 bytes, none)

module _ {S : Type 0} (api : Store S) (outboard : Bool) (crates : Hashing) where
  -- The outboard data that `import_stream` reads the temporary file for.
  unfoldable pub stream_outboard : S → Bytes → ℕ → Bytes → Result StoreError (Option Bytes)
  stream_outboard s path size hash =
      if outboard
      then elim (api.open_read_bytes s path 0 none) [
        | err e ↦ err e
        | ok bytes ↦ elim (compute_outboard crates bytes size) [
          | err e ↦ err e
          | ok computed ↦ if not (is_same computed.0 hash) then err hash_mismatch else ok computed.1
        ]
      ]
      else ok none

module _ {S : Type 0} (c : HashCodec) (api : Store S) (outboard : Bool) (crates : Hashing)
    (uuid : Bytes) where
  -- `import_bytes` once the hash is there.
  unfoldable pub import_hashed : S → Bytes → Bytes → Option Bytes → Imported S
  import_hashed s bytes hash ob =
      let id : BlobId = record { hash = hash; size = length bytes } in
      let first = put_outboard c api outboard s hash ob in
      elim first.0 [
        | err e ↦ (err e, first.1)
        | ok _ ↦ elim (api.exists first.1 (blob_path c api hash)) [
          | err e ↦ (err e, first.1)
          | ok true ↦ (ok id, first.1)
          | ok false ↦
              if api.features.supports_rename
              then (let temp = api.put_temp uuid first.1 (ok bytes ∷ []) in
                  elim temp.0 [
                    | err e ↦ (err e, temp.1)
                    | ok path ↦ finalize_import c api outboard temp.1 path hash (length bytes) ob
                  ])
              else (let put = api.put_bytes first.1 (blob_path c api hash) bytes in
                  (elim put.0 [ err e ↦ err e | ok _ ↦ ok id ], put.1))
        ]
      ]

  unfoldable pub import_bytes : S → Bytes → Imported S
  import_bytes s bytes = elim (hash_bytes outboard crates bytes) [
    | err e ↦ (err e, s)
    | ok computed ↦ import_hashed s bytes computed.0 computed.1
  ]

  -- `import_stream`, with the temporary file that `put_temp` wrote.
  unfoldable pub import_temp :
      Result StoreError Bytes × S → List (Result StoreError Bytes) → Imported S
  import_temp temp stream = elim temp.0 [
    | err e ↦ (err e, temp.1)
    | ok path ↦ elim (api.size temp.1 path) [
      | err e ↦ (err e, temp.1)
      | ok size ↦
          let hash = crates.blake3 (hashed stream) in
          elim (stream_outboard api outboard crates temp.1 path size hash) [
            | err e ↦ (err e, temp.1)
            | ok ob ↦ finalize_import c api outboard temp.1 path hash size ob
          ]
    ]
  ]

  unfoldable pub import_stream : S → List (Result StoreError Bytes) → Imported S
  import_stream s stream = import_temp (api.put_temp uuid s stream) stream
