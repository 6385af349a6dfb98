-- ===== src/Fs/Gc/Sweep.antt =====
-- The blobs that `gc_store` (s5_fs/src/gc.rs) deletes.
use s5_rs.Base.{
  ◌≡◌, inl, inr, refl, ◌∙◌, Bytes, Bool, true, false, not, ◌&&◌, List, [], ◌∷◌, ◌++◌, Result, ok,
  err, arith, bytes_ord, is_same, is_same_eq, none, is_same_refl, All, Bool-cases, Result-cases,
}
use s5_rs.BTreeMap.{contains_key}
use s5_rs.Stream.{IsArray}
use s5_rs.Store.{Store}
use s5_rs.Store.Contract.{IsStore}
use s5_rs.Registry.{RegistryError}
use s5_rs.Blob.Paths.{HashCodec}
use s5_rs.Blob.Paths.RoundTrip.{IsHashCodec}
use s5_rs.Blob.Store.{list_hashes}
use s5_rs.Blob.Store.Laws.{blob_file, blob_file-delete, list_hashes-IsArray}
use s5_rs.Fs.Gc.{
  HashSet, GcReport, GcError, empty_report, sweep_candidate, sweep_one, sweep, gc_store,
}

-- A hash that no pin and no directory keeps alive.
module _ {P : Type 0} (reachable : HashSet) (pins : Bytes → Result RegistryError (List P)) where
  abbrev pub unpinned : Bytes → Bool
  unpinned h = elim (pins h) [ ok [] ↦ true | ok (p ∷ ps) ↦ false | err e ↦ false ]

  abbrev pub is_candidate : Bytes → Bool
  is_candidate h = unpinned h && not (contains_key reachable h)

module _ {S P : Type 0} (c : HashCodec) (api : Store S) (outboard : Bool) (reachable : HashSet)
    (pins : Bytes → Result RegistryError (List P)) (dry_run : Bool) (codec : IsHashCodec c)
    (store : IsStore api) where
  sweep_one-file :
      (r : GcReport) (s : S) (h k : Bytes)
      → IsArray 32 h
      → IsArray 32 k
      → is_candidate reachable pins k ≡ false
      → blob_file c api outboard codec store
          (sweep_one c api outboard reachable pins dry_run r s h).1
          k
        ≡ blob_file c api outboard codec store s k
  unfolding sweep_one sweep_candidate
  sweep_one-file r s h k a b n = elim (Bool-cases (is_same h k)) [
    | inl e ↦
        let same : h ≡ k = is_same_eq h k e in
        let fate : is_candidate reachable pins h ≡ false = rw same n in ground (arith, fate)
    | inr e ↦ ground (arith, e, blob_file-delete c api outboard codec store s h k a b)
  ]

  sweep-file :
      (hs : List Bytes) (r : GcReport) (s : S) (k : Bytes)
      → All (IsArray 32) hs
      → IsArray 32 k
      → is_candidate reachable pins k ≡ false
      → blob_file c api outboard codec store
          (sweep c api outboard reachable pins dry_run hs r s).1
          k
        ≡ blob_file c api outboard codec store s k
  unfolding sweep
  sweep-file [] r s k a b n = refl
  sweep-file (h ∷ hs) r s k a b n =
      let one = sweep_one c api outboard reachable pins dry_run r s h in
      let first = sweep_one-file r s h k a.0 b n in
      elim (Result-cases one.0) [
        | inl (r', e) ↦ rw (e, sweep) (sweep-file hs r' one.1 k a.1 b n ∙ first)
        | inr (x, e) ↦ rw (e, sweep) first
      ]

  -- A sweep, whether it succeeds or ends in an error, leaves every blob as it is that has a pin,
  -- that is reachable, or whose pins cannot be read, over every store that keeps the contract of
  -- stores.
  pub gc_store-keeps :
      (s : S) (k : Bytes)
      → IsArray 32 k
      → is_candidate reachable pins k ≡ false
      → blob_file c api outboard codec store (gc_store c api outboard reachable pins dry_run s).1 k
        ≡ blob_file c api outboard codec store s k
  unfolding gc_store
  gc_store-keeps s k b n = elim (Result-cases (list_hashes c api s)) [
    | inl (hs, e) ↦
        rw (e, gc_store)
          (sweep-file hs empty_report s k (list_hashes-IsArray c api outboard codec store s hs e) b
            n)
    | inr (x, e) ↦ rw (e, gc_store) refl
  ]

-- An error is no report.
pub failed : {x : GcError} {q : GcReport} → ¬ (◌≡◌ {A = Result GcError GcReport} (err x) (ok q))
failed e = ground (arith, e)

-- A candidate that is listed is gone after a sweep that deletes.
module _ {S P : Type 0} (c : HashCodec) (api : Store S) (outboard : Bool) (reachable : HashSet)
    (pins : Bytes → Result RegistryError (List P)) (codec : IsHashCodec c)
    (store : IsStore api) where
  sweep_one-gone :
      (r : GcReport) (s : S) (h k : Bytes)
      → IsArray 32 h
      → IsArray 32 k
      → blob_file c api outboard codec store s k ≡ none
      → blob_file c api outboard codec store
          (sweep_one c api outboard reachable pins false r s h).1
          k
        ≡ none
  unfolding sweep_one sweep_candidate
  sweep_one-gone r s h k a b n =
      ground (arith, n, blob_file-delete c api outboard codec store s h k a b)

  sweep-gone :
      (hs : List Bytes) (r : GcReport) (s : S) (k : Bytes)
      → All (IsArray 32) hs
      → IsArray 32 k
      → blob_file c api outboard codec store s k ≡ none
      → blob_file c api outboard codec store (sweep c api outboard reachable pins false hs r s).1 k
        ≡ none
  unfolding sweep
  sweep-gone [] r s k a b n = n
  sweep-gone (h ∷ hs) r s k a b n =
      let one = sweep_one c api outboard reachable pins false r s h in
      let first = sweep_one-gone r s h k a.0 b n in
      elim (Result-cases one.0) [
        | inl (r', e) ↦ rw (e, sweep) (sweep-gone hs r' one.1 k a.1 b first)
        | inr (x, e) ↦ rw (e, sweep) first
      ]

  sweep_one-deletes :
      (r : GcReport) (s : S) (k : Bytes)
      → IsArray 32 k
      → is_candidate reachable pins k ≡ true
      → blob_file c api outboard codec store
          (sweep_one c api outboard reachable pins false r s k).1
          k
        ≡ none
  unfolding sweep_one sweep_candidate
  sweep_one-deletes r s k b n =
      ground (arith, n, blob_file-delete c api outboard codec store s k k b b, is_same_refl k)

  sweep-deletes :
      (before after : List Bytes) (r q : GcReport) (s : S) (k : Bytes)
      → All (IsArray 32) (before ++ (k ∷ after))
      → IsArray 32 k
      → is_candidate reachable pins k ≡ true
      → (sweep c api outboard reachable pins false (before ++ (k ∷ after)) r s).0 ≡ ok q
      → blob_file c api outboard codec store
          (sweep c api outboard reachable pins false (before ++ (k ∷ after)) r s).1
          k
        ≡ none
  unfolding sweep
  sweep-deletes [] after r q s k a b n e =
      let one = sweep_one c api outboard reachable pins false r s k in
      elim (Result-cases one.0) [
        | inl (r', f) ↦
            rw (f, sweep) (sweep-gone after r' one.1 k a.1 b (sweep_one-deletes r s k b n))
        | inr (x, f) ↦ rw (f, sweep) (sweep_one-deletes r s k b n)
      ]
  sweep-deletes (h ∷ before) after r q s k a b n e =
      let one = sweep_one c api outboard reachable pins false r s h in
      elim (Result-cases one.0) [
        | inl (r', f) ↦
            rw (f, sweep) (sweep-deletes before after r' q one.1 k a.1 b n (rw (f, sweep) at e))
        | inr (x, f) ↦ absurd (failed (rw (f, sweep) at e))
      ]

  -- After a sweep that is no dry run and succeeds, a listed blob without pins that is not
  -- reachable is not in the store any more, over every store that keeps the contract of stores.
  pub gc_store-deletes :
      (s : S) (before after : List Bytes) (k : Bytes) (q : GcReport)
      → list_hashes c api s ≡ ok (before ++ (k ∷ after))
      → IsArray 32 k
      → is_candidate reachable pins k ≡ true
      → (gc_store c api outboard reachable pins false s).0 ≡ ok q
      → blob_file c api outboard codec store (gc_store c api outboard reachable pins false s).1 k
        ≡ none
  unfolding gc_store
  gc_store-deletes s before after k q e b n f =
      rw (e, gc_store)
        (sweep-deletes before after empty_report q s k
          (list_hashes-IsArray c api outboard codec store s (before ++ (k ∷ after)) e) b n
          (rw (e, gc_store) at f))
