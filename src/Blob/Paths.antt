-- ===== src/Blob/Paths.antt =====
-- Where a blob lies in a store (s5_core/src/blob/paths.rs). The `base64` and `base32_fs` crates
-- encode the hash.
pub mod RoundTrip
use s5_rs.Base.{
  ℕ, zero, suc, Bytes, Bool, true, false, not, ◌||◌, Option, none, some, [], ◌∷◌, ◌++◌, Result, ok,
  err, if◌then◌else◌, ltb, ◌==◌, length, take, drop, is_empty, keep,
}
use s5_rs.Store.{StoreFeatures}

-- The encodings of the two crates. The `decode` of `base32_fs` fills a buffer of `decoded_len`
-- bytes, and is called on valid texts only.
pub record HashCodec : Type 0 where
  pub base64_encode : Bytes → Bytes
  pub base64_decode : Bytes → Option Bytes
  pub base32_encode : Bytes → Bytes
  pub base32_is_valid : Bytes → Bool
  pub base32_decoded_len : ℕ → Option ℕ
  pub base32_decode : Bytes → Bytes

abbrev pub slash : ℕ
slash = 47

-- "blob3/" and "obao6/".
abbrev pub blob_prefix : Bytes
blob_prefix = 98 ∷ 108 ∷ 111 ∷ 98 ∷ 51 ∷ 47 ∷ []

abbrev pub obao6_prefix : Bytes
obao6_prefix = 111 ∷ 98 ∷ 97 ∷ 111 ∷ 54 ∷ 47 ∷ []

module _ (c : HashCodec) where
  abbrev pub hash_text : Bytes → StoreFeatures → Bytes
  hash_text hash features =
      if features.case_sensitive then c.base64_encode hash else c.base32_encode hash

  -- `path_for_hash`. The slices of the text panic where it is shorter than 6 characters.
  unfoldable pub path_for_hash : Bytes → StoreFeatures → Bytes
  path_for_hash hash features =
      let hash_str = hash_text hash features in
      if ltb features.recommended_max_dir_size 10000
      then if features.case_sensitive
        then take 2 hash_str ++ (slash ∷ (take 2 (drop 2 hash_str) ++ (slash ∷ drop 4 hash_str)))
        else take 2 hash_str
          ++ (slash
              ∷ (take 2 (drop 2 hash_str)
                  ++ (slash ∷ (take 2 (drop 4 hash_str) ++ (slash ∷ drop 6 hash_str)))))
      else hash_str

  -- `blob_path_for_hash` and `obao6_path_for_hash`.
  unfoldable pub blob_path_for_hash : Bytes → StoreFeatures → Bytes
  blob_path_for_hash hash features = blob_prefix ++ path_for_hash hash features

  unfoldable pub obao6_path_for_hash : Bytes → StoreFeatures → Bytes
  obao6_path_for_hash hash features = obao6_prefix ++ path_for_hash hash features

-- `str::starts_with`.
abbrev pub starts_with : Bytes → Bytes → Bool
starts_with s [] = true
starts_with [] (p ∷ ps) = false
starts_with (x ∷ s) (p ∷ ps) = let rest = starts_with s ps in if x == p then rest else false

pub data PathError : Type 0 where
  invalid_data : Bytes → PathError

-- A hash is 32 bytes.
abbrev pub as_hash : Bytes → Option Bytes
as_hash bytes = if length bytes == 32 then some bytes else none

-- `hash_from_blob_path`.
unfoldable pub hash_from_blob_path :
    HashCodec → Bytes → StoreFeatures → Result PathError (Option Bytes)
hash_from_blob_path c path features =
    if not (starts_with path blob_prefix)
    then ok none
    else let encoded = keep (λ x. not (x == slash)) (drop 6 path) in
      if is_empty encoded
      then ok none
      else if features.case_sensitive
      then elim (c.base64_decode encoded) [
        | none ↦ err (invalid_data encoded)
        | some bytes ↦ ok (as_hash bytes)
      ]
      else if not (c.base32_is_valid encoded)
      then ok none
      else elim (c.base32_decoded_len (length encoded)) [
        | none ↦ ok none
        | some len ↦ ok (as_hash (c.base32_decode encoded))
      ]
