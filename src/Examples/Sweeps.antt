-- ===== src/Examples/Sweeps.antt =====
-- Paths of blobs, and a sweep over a store with one blob. The codec writes each byte as one
-- character that is not a slash, and fills the text up to the length of the real ones.
use s5_rs.Base.{
  none, ℕ, ◌+◌, ◌-◌, ◌%◌, ◌≡◌, ◌≢◌, refl, sym, ap, ◌∙◌, ap₂, Bytes, IsBytes, true, false, Option,
  some, List, [], ◌∷◌, ◌++◌, map, Result, ok, if◌then◌else◌, ltb, length, length-append,
  length-replicate, take, take-append, subst, zero, suc, replicate, arith, All, All-append,
  bytes_ord, keep,
}
use s5_rs.BTreeMap
use s5_rs.BTreeMap.{contains_key, values}
use s5_rs.Stream.{IsArray}
use s5_rs.Store.Memory.{MemoryStore, memory_store, features, list, delete}
use s5_rs.Store.Memory.Laws.{memory_store-IsStore}
use s5_rs.Registry.{RegistryError}
use s5_rs.Blob.Paths.{HashCodec, blob_path_for_hash, hash_from_blob_path, path_for_hash}
use s5_rs.Blob.Paths.RoundTrip.{IsHashCodec, hash_from_blob_path-blob_path_for_hash}
use s5_rs.Blob.Store.{list_hashes, hashes_of}
use s5_rs.Blob.Store.Laws.{blob_file}
use s5_rs.Fs.Gc.{gc_store, sweep, sweep_one, sweep_candidate, GcReport, empty_report}
use s5_rs.Fs.Gc.Sweep.{gc_store-keeps, gc_store-deletes}
use s5_rs.Blob.Store as BlobStore

abbrev pub up : ℕ → ℕ
up x = if ltb x 47 then x else x + 1

abbrev pub down : ℕ → ℕ
down x = (if ltb x 47 then x else x - 1) % 256

abbrev pub filled : ℕ → Bytes → Bytes
filled k h = map up h ++ replicate k 65

abbrev pub unfilled : Bytes → Bytes
unfilled t = map down (take 32 t)

abbrev pub codec : HashCodec
codec = record {
  base64_encode = filled 11;
  base64_decode = λ t. some (unfilled t);
  base32_encode = filled 20;
  base32_is_valid = λ t. true;
  base32_decoded_len = λ n. some 32;
  base32_decode = unfilled;
}

length-up : (h : Bytes) → length (map up h) ≡ length h
length-up [] = refl
length-up (x ∷ h) = omega (arith, length-up h)

up-plain : (h : Bytes) → All (λ x. x ≢ 47) (map up h)
up-plain [] = tt
up-plain (x ∷ h) = (λ e. ground (arith, e), up-plain h)

fill-plain : (k : ℕ) → All {A = ℕ} (λ x. x ≢ 47) (replicate k 65)
fill-plain zero = tt
fill-plain (suc k) = (λ e. omega (arith, e), fill-plain k)

down-up : (h : Bytes) → IsBytes h → map down (map up h) ≡ h
down-up [] i = refl
down-up (x ∷ h) i = ap₂ ◌∷◌ (ground (arith, i.0)) (down-up h i.1)

down-IsBytes : (t : Bytes) → IsBytes (map down t)
down-IsBytes [] = tt
down-IsBytes (x ∷ t) = (omega arith, down-IsBytes t)

filled-long : (k : ℕ) (h : Bytes) → length h ≡ 32 → length (filled k h) ≡ 32 + k
filled-long k h e = omega (
  arith,
  e,
  length-up h,
  length-append (map up h) (replicate k 65),
  length-replicate {A = ℕ} k 65,
)

unfilled-filled : (k : ℕ) (h : Bytes) → IsArray 32 h → unfilled (filled k h) ≡ h
unfilled-filled k h a =
    ap (λ n. map down (take n (filled k h))) (sym a.len ∙ sym (length-up h))
    ∙ ap (map down) (take-append (map up h) (replicate k 65))
    ∙ down-up h a.bytes

some_eq : {a b : Bytes} → ◌≡◌ {A = Option Bytes} (some a) (some b) → a ≡ b
some_eq e = ground (arith, e)

pub codec-IsHashCodec : IsHashCodec codec
codec-IsHashCodec = record {
  base64_plain = λ h a. All-append _ (map up h) _ (up-plain h) (fill-plain 11);
  base64_len = λ h a. filled-long 11 h a.len;
  base64_round = λ h a. ap some (unfilled-filled 11 h a);
  base64_bytes = λ t e. subst IsBytes (some_eq e) (down-IsBytes (take 32 t));
  base32_plain = λ h a. All-append _ (map up h) _ (up-plain h) (fill-plain 20);
  base32_len = λ h a. filled-long 20 h a.len;
  base32_valid = λ h a. refl;
  decoded_len = refl;
  base32_round = λ h a. unfilled-filled 20 h a;
  base32_bytes = λ t. down-IsBytes (take 32 t);
}

abbrev pub a_hash : Bytes
a_hash = replicate 32 5

pub a_hash-IsArray : IsArray 32 a_hash
a_hash-IsArray = record { len = refl; bytes = ground arith }

hash_from_blob_path_example :
    hash_from_blob_path codec (blob_path_for_hash codec a_hash features) features ≡ ok (some a_hash)
hash_from_blob_path_example =
    hash_from_blob_path-blob_path_for_hash codec codec-IsHashCodec a_hash features a_hash-IsArray

abbrev pub one_blob : MemoryStore
one_blob = (blob_path_for_hash codec a_hash features, 1 ∷ 2 ∷ []) ∷ []

-- Every hash has one pin, and none has any.
abbrev all_pinned : Bytes → Result RegistryError (List ℕ)
all_pinned h = ok (1 ∷ [])

abbrev pub none_pinned : Bytes → Result RegistryError (List ℕ)
none_pinned h = ok []

gc_store-keeps_example :
    blob_file codec memory_store true codec-IsHashCodec memory_store-IsStore
      (gc_store codec memory_store true [] all_pinned false one_blob).1
      a_hash
    ≡ blob_file codec memory_store true codec-IsHashCodec memory_store-IsStore one_blob a_hash
gc_store-keeps_example =
    gc_store-keeps codec memory_store true [] all_pinned false codec-IsHashCodec
      memory_store-IsStore one_blob a_hash a_hash-IsArray refl

abbrev swept : GcReport
swept = record empty_report { total = 1; deleted = 1; candidates = a_hash ∷ [] }

listed : list_hashes codec memory_store one_blob ≡ ok (a_hash ∷ [])
unfolding list_hashes list hashes_of hash_from_blob_path blob_path_for_hash path_for_hash features
    keep
listed = refl

gc_store-deletes_example :
    blob_file codec memory_store true codec-IsHashCodec memory_store-IsStore
      (gc_store codec memory_store true [] none_pinned false one_blob).1
      a_hash
    ≡ none
unfolding gc_store list_hashes list hashes_of hash_from_blob_path blob_path_for_hash path_for_hash
    features keep sweep sweep_one sweep_candidate BlobStore.delete BTreeMap.get delete
gc_store-deletes_example =
    gc_store-deletes codec memory_store true [] none_pinned codec-IsHashCodec memory_store-IsStore
      one_blob [] [] a_hash swept listed a_hash-IsArray refl refl
