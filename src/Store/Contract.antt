-- ===== src/Store/Contract.antt =====
-- What the clients of a store rely on: which file stands at each path, and how the operations
-- change that.
use s5_rs.Base.{
  ℕ, Result, ◌≡◌, ◌≢◌, Bytes, Option, List, none, some, ok, to_option, is_some, if◌then◌else◌,
  is_same, bytes_ord, true, length, take, drop, map, concat,
}
use s5_rs.Store.{Store, StoreError, default_put_temp}

pub record IsStore {S : Type 0} (api : Store S) : Type 0 where
  pub file : S → Bytes → Option Bytes
  pub reads : (s : S) (p : Bytes) → to_option (api.open_read_bytes s p 0 none) ≡ file s p
  pub exists_lem : (s : S) (p : Bytes) → api.exists s p ≡ ok (is_some (file s p))
  pub put_ok : (s : S) (p b : Bytes) → (api.put_bytes s p b).0 ≡ ok tt
  pub file_put :
      (s : S) (p b q : Bytes)
      → file (api.put_bytes s p b).1 q ≡ (if is_same p q then some b else file s q)
  pub delete_ok : (s : S) (p : Bytes) → (api.delete s p).0 ≡ ok tt
  pub file_delete :
      (s : S) (p q : Bytes) → file (api.delete s p).1 q ≡ (if is_same p q then none else file s q)

-- What the clients rely on that read a part of a file, write one from a stream, or rename one. The
-- store keeps the `put_temp` of the trait.
pub record IsFullStore {S : Type 0} (api : Store S) : Type 0 where
  pub basic : IsStore api
  pub size_lem :
      (s : S) (p : Bytes) {b : Bytes} → basic.file s p ≡ some b → api.size s p ≡ ok (length b)
  pub read_part :
      (s : S) (p : Bytes) (offset n : ℕ) {b : Bytes}
      → basic.file s p ≡ some b
      → api.open_read_bytes s p offset (some n) ≡ ok (take n (drop offset b))
  pub temp_default :
      (uuid : Bytes) (s : S) (stream : List (Result StoreError Bytes))
      → api.put_temp uuid s stream ≡ default_put_temp api.put_stream uuid s stream
  pub stream_ok :
      (s : S) (p : Bytes) (chunks : List Bytes) → (api.put_stream s p (map ok chunks)).0 ≡ ok tt
  pub file_stream :
      (s : S) (p : Bytes) (chunks : List Bytes) (q : Bytes)
      → basic.file (api.put_stream s p (map ok chunks)).1 q
        ≡ (if is_same p q then some (concat chunks) else basic.file s q)
  pub rename_ok :
      (s : S) (p q : Bytes) {b : Bytes}
      → api.features.supports_rename ≡ true
      → p ≢ q
      → basic.file s p ≡ some b
      → (api.rename s p q).0 ≡ ok tt
  pub file_rename :
      (s : S) (p q r : Bytes) {b : Bytes}
      → api.features.supports_rename ≡ true
      → p ≢ q
      → basic.file s p ≡ some b
      → basic.file (api.rename s p q).1 r
        ≡ (if is_same q r then some b else if is_same p r then none else basic.file s r)
