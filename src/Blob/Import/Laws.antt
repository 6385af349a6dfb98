-- ===== src/Blob/Import/Laws.antt =====
-- Imports (s5_core/src/blob/import.rs) over any store that keeps the contracts.
use s5_rs.Base.{
  not, is_empty, ℕ, ◌≡◌, refl, ap, ◌∙◌, Bytes, Bool, false, Option, none, some, List, [], ◌∷◌, ◌++◌,
  Result, ok, map, concat, length, if◌then◌else◌, is_same, is_same_ne, is_same_eq, bytes_ord, arith,
  unwrap_or, Result-cases, ◌≢◌, Option-cases, Bool-cases, inl, inr, is_same_refl, append-nil,
}
use s5_rs.Stream.{IsArray}
use s5_rs.Store.{Store, StoreError, temp_path, default_put_temp}
use s5_rs.Store.Contract.{IsFullStore}
use s5_rs.Blob.Paths.{HashCodec, blob_path_for_hash, obao6_path_for_hash}
use s5_rs.Blob.Paths.RoundTrip.{IsHashCodec}
use s5_rs.Blob.Store.{blob_path, obao6_path}
use s5_rs.Blob.Store.Laws.{obao6_apart, same_path, blob_file}
use s5_rs.Blob.Import.{
  copy_temp, Hashing, hashed, compute_outboard, put_outboard, settle, finalize_import,
  stream_outboard, import_stream, import_temp,
}

-- What the crates promise: hashes of 32 bytes, and an outboard whose root is the hash.
pub record IsHashing (crates : Hashing) : Type 0 where
  pub hash_array : (b : Bytes) → IsArray 32 (crates.blake3 b)
  pub sized :
      (b : Bytes) → (ob : Bytes) × (crates.create_sized b (length b) ≡ ok (crates.blake3 b, ob))

pub hashed-map : (chunks : List Bytes) → hashed (map ok chunks) ≡ concat chunks
hashed-map [] = refl
hashed-map (b ∷ chunks) = ap (◌++◌ b) (hashed-map chunks)

module _ {S : Type 0} (c : HashCodec) (api : Store S) where
  temp_apart :
      (uuid h : Bytes)
      → (is_same (temp_path uuid) (blob_path c api h) ≡ false)
        × (is_same (obao6_path c api h) (temp_path uuid) ≡ false)
        × (is_same (blob_path c api h) (temp_path uuid) ≡ false)
  unfolding blob_path_for_hash obao6_path_for_hash
  temp_apart uuid h = (
    is_same_ne {K = Bytes} _ _ (λ e. ground (arith, e)),
    is_same_ne {K = Bytes} _ _ (λ e. ground (arith, e)),
    is_same_ne {K = Bytes} _ _ (λ e. ground (arith, e)),
  )

module _ {S : Type 0} (api : Store S) (full : IsFullStore api) where
  abbrev file : S → Bytes → Option Bytes
  file = full.basic.file

  read_all :
      (s : S) (p : Bytes) {b : Bytes} → file s p ≡ some b → api.open_read_bytes s p 0 none ≡ ok b
  read_all s p h = elim (Result-cases (api.open_read_bytes s p 0 none)) [
    | inl (x, e) ↦ ground (arith, e, h, full.basic.reads s p)
    | inr (x, e) ↦ absurd (ground (arith, e, h, full.basic.reads s p))
  ]

  -- What stands at a path when the temporary file has become the blob, unless that was there.
  abbrev settled : S → Bytes → Bytes → Bytes → Bytes → Option Bytes
  settled s temp final b p =
      if is_same final p
      then some (unwrap_or (file s final) b)
      else if is_same temp p
      then none
      else file s p

  copy_temp_lem :
      (s : S) (temp final : Bytes) (p : Bytes) {b : Bytes}
      → is_same temp final ≡ false
      → file s temp ≡ some b
      → file s final ≡ none
      → ((copy_temp api s temp final).0 ≡ ok tt)
        × (file (copy_temp api s temp final).1 p ≡ settled s temp final b p)
  unfolding copy_temp
  copy_temp_lem s temp final p {b} n h absent =
      let put = api.put_stream s final (ok b ∷ []) in
      ground (
        arith,
        read_all s temp h,
        full.stream_ok s final (b ∷ []),
        full.file_stream s final (b ∷ []) p,
        append-nil b,
        absent,
        n,
        is_same_eq temp p,
        is_same_eq final p,
        full.basic.delete_ok put.1 temp,
        full.basic.file_delete put.1 temp p,
      )

  settle_lem :
      (s : S) (temp final : Bytes) (p : Bytes) {b : Bytes}
      → is_same temp final ≡ false
      → file s temp ≡ some b
      → ((settle api s temp final).0 ≡ ok tt)
        × (file (settle api s temp final).1 p ≡ settled s temp final b p)
  unfolding settle
  settle_lem s temp final p {b} n h = elim (Option-cases (file s final)) [
    | inr (v, e) ↦ ground (
      arith,
      full.basic.exists_lem s final,
      e,
      n,
      is_same_eq final p,
      full.basic.delete_ok s temp,
      full.basic.file_delete s temp p,
    )
    | inl e ↦ elim (Bool-cases api.features.supports_rename) [
      | inl r ↦
          let apart : temp ≢ final = λ x. ground (arith, n, x, is_same_refl final) in
          ground (
            arith,
            full.basic.exists_lem s final,
            e,
            r,
            full.rename_ok s temp final r apart h,
            full.file_rename s temp final p r apart h,
          )
      | inr r ↦
          ground
            (arith, full.basic.exists_lem s final, e, r, copy_temp_lem s temp final p {b = b} n h e)
    ]
  ]

module _ {S : Type 0} (c : HashCodec) (api : Store S) (outboard : Bool)
    (full : IsFullStore api) where
  put_outboard_lem :
      (s : S) (h : Bytes) (ob : Option Bytes) (p : Bytes)
      → is_same (obao6_path c api h) p ≡ false
      → ((put_outboard c api outboard s h ob).0 ≡ ok tt)
        × (full.basic.file (put_outboard c api outboard s h ob).1 p ≡ full.basic.file s p)
  unfolding put_outboard
  put_outboard_lem s h none p n = (refl, refl)
  put_outboard_lem s h (some b) p n = ground (
    arith,
    n,
    full.basic.put_ok s (obao6_path c api h) b,
    full.basic.file_put s (obao6_path c api h) b p,
  )

module _ {S : Type 0} (c : HashCodec) (api : Store S) (outboard : Bool) (codec : IsHashCodec c)
    (full : IsFullStore api) where
  -- Becoming the blob of a hash leaves the other blobs.
  finalize_import_lem :
      (s : S) (uuid h : Bytes) (n : ℕ) (ob : Option Bytes) (k : Bytes) {b : Bytes}
      → IsArray 32 h
      → IsArray 32 k
      → full.basic.file s (temp_path uuid) ≡ some b
      → let r = finalize_import c api outboard s (temp_path uuid) h n ob in
        (r.0 ≡ ok (record { hash = h; size = n }))
        × (blob_file c api outboard codec full.basic r.1 k ≡ (
            if is_same h k
            then some (unwrap_or (blob_file c api outboard codec full.basic s h) b)
            else blob_file c api outboard codec full.basic s k))
        × (full.basic.file r.1 (temp_path uuid) ≡ none)
  unfolding finalize_import
  finalize_import_lem s uuid h n ob k {b} i j there =
      let put = put_outboard c api outboard s h ob in
      let at = λ (p : Bytes) (a : is_same (obao6_path c api h) p ≡ false).
        put_outboard_lem c api outboard full s h ob p a in
      let (apart, clear, behind) = temp_apart c api uuid h in
      let clear' = obao6_apart c api outboard codec full.basic h in
      let kept : full.basic.file put.1 (temp_path uuid) ≡ some b = (at _ clear).1 ∙ there in
      let end = λ (p : Bytes).
        settle_lem api full put.1 (temp_path uuid) (blob_path c api h) p {b = b} apart kept in
      ground (
        arith,
        at (temp_path uuid) clear,
        at (blob_path c api h) (clear' h),
        at (blob_path c api k) (clear' k),
        end (blob_path c api k),
        end (temp_path uuid),
        same_path c api outboard codec full.basic h k i j,
        temp_apart c api uuid k,
        is_same_refl {K = Bytes} (temp_path uuid),
        apart,
        behind,
      )

module _ {S : Type 0} (api : Store S) (outboard : Bool) (crates : Hashing) (full : IsFullStore api)
    (hashing : IsHashing crates) where
  stream_outboard_lem :
      (s : S) (p b : Bytes)
      → full.basic.file s p ≡ some b
      → (ob : Option Bytes) × (stream_outboard api outboard crates s p (length b) (crates.blake3 b)
          ≡ ok ob)
  unfolding stream_outboard compute_outboard
  stream_outboard_lem s p b h =
      let (ob, sized) = hashing.sized b in
      let same = is_same_refl (crates.blake3 b) in
      elim (Bool-cases outboard) [
        | inl e ↦ (
          if not (is_empty ob) then some ob else none,
          ground (arith, e, read_all api full s p h, sized, same),
        )
        | inr e ↦ (none, rw e refl)
      ]

module _ {S : Type 0} (c : HashCodec) (api : Store S) (outboard : Bool) (crates : Hashing)
    (uuid : Bytes) (codec : IsHashCodec c) (full : IsFullStore api)
    (hashing : IsHashing crates) where
  import_stream-default :
      (s : S) (stream : List (Result StoreError Bytes))
      → import_stream c api outboard crates uuid s stream
        ≡ import_temp c api outboard crates uuid
            (default_put_temp api.put_stream uuid s stream)
            stream
  unfolding import_stream
  import_stream-default s stream =
      ap (λ t. import_temp c api outboard crates uuid t stream) (full.temp_default uuid s stream)

  -- The import of a stream succeeds, names the blob by the hash and the length of its bytes, puts
  -- it there unless there was one, leaves every other blob and no temporary file, with or without
  -- outboard data and whether the store renames or not.
  pub import_stream_lem :
      (s : S) (chunks : List Bytes) (k : Bytes)
      → IsArray 32 k
      → let r = import_stream c api outboard crates uuid s (map ok chunks) in
        let h = crates.blake3 (concat chunks) in
        (r.0 ≡ ok (record { hash = h; size = length (concat chunks) }))
        × (blob_file c api outboard codec full.basic r.1 k ≡ (
            if is_same h k
            then some (unwrap_or (blob_file c api outboard codec full.basic s h) (concat chunks))
            else blob_file c api outboard codec full.basic s k))
        × (full.basic.file r.1 (temp_path uuid) ≡ none)
  unfolding import_temp default_put_temp
  import_stream_lem s chunks k a =
      let b = concat chunks in
      let h = crates.blake3 b in
      let put = api.put_stream s (temp_path uuid) (map ok chunks) in
      let at = λ (p : Bytes). full.file_stream s (temp_path uuid) chunks p in
      let there : full.basic.file put.1 (temp_path uuid) ≡ some b =
        at (temp_path uuid) ∙ rw (is_same_refl {K = Bytes} (temp_path uuid)) refl in
      let (ob, e) =
        stream_outboard_lem api outboard crates full hashing put.1 (temp_path uuid) b there in
      let end =
        finalize_import_lem c api outboard codec full put.1 uuid h (length b) ob k {b = b}
          (hashing.hash_array b) a there in
      rw
        (
          import_stream-default s (map ok chunks),
          full.stream_ok s (temp_path uuid) chunks,
          full.size_lem put.1 (temp_path uuid) there,
          hashed-map chunks,
          e,
          hashed-map chunks,
        )
        (ground (
          arith,
          end,
          at (blob_path c api h),
          at (blob_path c api k),
          (temp_apart c api uuid h).0,
          (temp_apart c api uuid k).0,
        ))
