-- ===== src/Blob/Identifier.antt =====
-- `BlobId` (s5_core/src/blob/identifier.rs). A multibase text is decoded by the `multibase` crate:
-- `parse` takes its result.
pub mod RoundTrip
use s5_rs.Base.{
  ℕ, zero, suc, ◌+◌, ◌-◌, Bytes, Bool, not, Option, none, some, List, [], ◌∷◌, ◌++◌, Result, ok,
  err, if◌then◌else◌, ltb, ◌==◌, length, take, drop, replicate, to_le, of_le,
}

abbrev pub s5_magic_byte : ℕ
s5_magic_byte = 0x5b

abbrev pub blob_type_default : ℕ
blob_type_default = 0x82

abbrev pub multihash_blake3 : ℕ
multihash_blake3 = 0x1e

pub data BlobIdError : Type 0 where
  multibase : BlobIdError
  invalid_length : ℕ → BlobIdError
  invalid_magic_byte invalid_blob_type invalid_multihash_type : ℕ → ℕ → BlobIdError

pub record BlobId : Type 0 where
  pub hash : Bytes
  pub size : ℕ

-- `bytes[i]`, which panics past the end: `parse_bytes` reads only below the length it has tested.
abbrev pub byte_at : Bytes → ℕ → ℕ
byte_at [] i = 0
byte_at (b ∷ bs) zero = b
byte_at (b ∷ bs) (suc i) = byte_at bs i

-- `BlobId::parse`, from the decoded bytes on.
unfoldable pub parse_bytes : Bytes → Result BlobIdError BlobId
parse_bytes bytes =
    if ltb (length bytes) 35
    then err (invalid_length (length bytes))
    else if not (byte_at bytes 0 == s5_magic_byte)
    then err (invalid_magic_byte s5_magic_byte (byte_at bytes 0))
    else if not (byte_at bytes 1 == blob_type_default)
    then err (invalid_blob_type blob_type_default (byte_at bytes 1))
    else if not (byte_at bytes 2 == multihash_blake3)
    then err (invalid_multihash_type multihash_blake3 (byte_at bytes 2))
    else let size_slice = drop 35 bytes in
      if ltb 8 (length size_slice)
      then err (invalid_length (length bytes))
      else ok (record {
        hash = take 32 (drop 3 bytes);
        size = of_le (size_slice ++ replicate (8 - length size_slice) 0);
      })

-- `BlobId::parse`, with what `multibase::decode` makes of a text.
unfoldable pub parse : (Bytes → Option Bytes) → Bytes → Result BlobIdError BlobId
parse decode text = elim (decode text) [ none ↦ err multibase | some bytes ↦ parse_bytes bytes ]

-- `iter().rposition(|&x| x != 0)`.
unfoldable pub rposition_nonzero : Bytes → Option ℕ
rposition_nonzero [] = none
rposition_nonzero (b ∷ bs) = elim (rposition_nonzero bs) [
  | some i ↦ some (suc i)
  | none ↦ if b == 0 then none else some 0
]

-- The size with its trailing zeros cut off.
unfoldable pub trim : Bytes → Bytes
trim size_bytes = elim (rposition_nonzero size_bytes) [
  | some pos ↦ take (suc pos) size_bytes
  | none ↦ []
]

-- `BlobId::to_bytes`.
unfoldable pub to_bytes : BlobId → Bytes
to_bytes id =
    s5_magic_byte ∷ blob_type_default ∷ multihash_blake3 ∷ (id.hash ++ trim (to_le 8 id.size))
