-- ===== src/Blob/Store/Laws.antt =====
-- Deleting and listing blobs (s5_core/src/blob/store.rs) over any store.
use s5_rs.Base.{
  ◌≡◌, refl, ap, Bytes, Bool, false, Option, none, some, List, [], ◌∷◌, Result, ok, err, ◌>>=◌,
  if◌then◌else◌, is_same, is_same_ne, is_same_alike, bytes_ord, arith, All, Result-cases, inl, inr,
  subst,
}
use s5_rs.Stream.{IsArray}
use s5_rs.Store.{Store, StoreError}
use s5_rs.Store.Contract.{IsStore}
use s5_rs.Blob.Paths.{
  PathError, HashCodec, blob_path_for_hash, obao6_path_for_hash, hash_from_blob_path,
}
use s5_rs.Blob.Paths.RoundTrip.{
  IsHashCodec, blob_path_for_hash_injective, hash_from_blob_path-IsArray,
}
use s5_rs.Blob.Store.{path_failed, blob_path, obao6_path, delete, hashes_of, list_hashes}

All-ok :
    (xs : List Bytes) {ys : List Bytes}
    → ◌≡◌ {A = Result StoreError (List Bytes)} (ok xs) (ok ys)
    → All (IsArray 32) xs
    → All (IsArray 32) ys
All-ok xs {ys} e a = let same : xs ≡ ys = ground (arith, e) in subst (All (IsArray 32)) same a

-- One turn of the loop, with what it calls taken as values.
hashes_step :
    (r : Result PathError (Option Bytes)) (rest : Result StoreError (List Bytes)) {ys : List Bytes}
    → ((h : Bytes) → r ≡ ok (some h) → IsArray 32 h)
    → ((hs : List Bytes) → rest ≡ ok hs → All (IsArray 32) hs)
    → ◌≡◌ {A = Result StoreError (List Bytes)}
        (elim r [
          | err e ↦ err (path_failed e)
          | ok none ↦ rest
          | ok (some hash) ↦ do hashes ← rest; ok (hash ∷ hashes)
        ])
        (ok ys)
    → All (IsArray 32) ys
hashes_step (err x) rest f g e = absurd (ground (arith, e))
hashes_step (ok none) rest {ys} f g e = g ys e
hashes_step (ok (some h)) (err x) f g e = absurd (ground (arith, e))
hashes_step (ok (some h)) (ok hs) f g e = All-ok (h ∷ hs) e (f h refl, g hs refl)

module _ {S : Type 0} (c : HashCodec) (api : Store S) (outboard : Bool) (codec : IsHashCodec c)
    (store : IsStore api) where
  -- The bytes of a blob.
  abbrev pub blob_file : S → Bytes → Option Bytes
  blob_file s h = store.file s (blob_path c api h)

  pub obao6_apart : (h k : Bytes) → is_same (obao6_path c api h) (blob_path c api k) ≡ false
  unfolding blob_path_for_hash obao6_path_for_hash
  obao6_apart h k = is_same_ne {K = Bytes} _ _ (λ e. ground (arith, e))

  pub same_path :
      (h k : Bytes)
      → IsArray 32 h
      → IsArray 32 k
      → is_same (blob_path c api h) (blob_path c api k) ≡ is_same h k
  same_path h k a b =
      is_same_alike {K = Bytes} _ _ h k (blob_path_for_hash_injective c codec h k api.features a b)
        (ap (blob_path c api))

  pub blob_file-delete :
      (s : S) (h k : Bytes)
      → IsArray 32 h
      → IsArray 32 k
      → blob_file (delete c api outboard s h).1 k ≡ (if is_same h k then none else blob_file s k)
  unfolding delete
  blob_file-delete s h k a b = ground (
    arith,
    store.delete_ok s (blob_path c api h),
    same_path h k a b,
    obao6_apart h k,
    store.file_delete s (blob_path c api h) (blob_path c api k),
    store.file_delete (api.delete s (blob_path c api h)).1 (obao6_path c api h) (blob_path c api k),
  )

  pub delete_ok : (s : S) (h : Bytes) → (delete c api outboard s h).0 ≡ ok tt
  unfolding delete
  delete_ok s h = ground (arith, store.delete_ok s (blob_path c api h))

  pub hashes_of-IsArray :
      (paths : List Bytes) {hs : List Bytes} → hashes_of c api paths ≡ ok hs → All (IsArray 32) hs
  unfolding hashes_of
  hashes_of-IsArray [] e = All-ok [] e tt
  hashes_of-IsArray (p ∷ paths) e =
      hashes_step (hash_from_blob_path c p api.features) (hashes_of c api paths)
        (λ h. hash_from_blob_path-IsArray c codec p api.features) (λ hs. hashes_of-IsArray paths) e

  pub list_hashes-IsArray :
      (s : S) (hs : List Bytes) → list_hashes c api s ≡ ok hs → All (IsArray 32) hs
  unfolding list_hashes
  list_hashes-IsArray s hs e = elim (Result-cases (api.list s)) [
    | inl (paths, f) ↦ hashes_of-IsArray paths (rw f at e)
    | inr (x, f) ↦ absurd (ground (arith, e, f))
  ]
