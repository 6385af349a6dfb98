-- ===== src/Pins/Unpin.antt =====
-- Unpinning (s5_core/src/pins/registry_pinner.rs, unpin_hash), whether the context pins the hash or
-- not.
use s5_rs.Base.{
  ◌+◌, ◌<◌, ◌^◌, ◌≡◌, refl, sym, ap, Bytes, ok, if◌then◌else◌, is_empty, is_same, is_same_eq,
  bytes_ord, Bool-cases, inl, inr, arith,
}
use s5_rs.BTreeMap
use s5_rs.BTreeMap.{contains_key, remove_absent}
use s5_rs.Stream.{IsArray}
use s5_rs.Registry.{RegistryApi}
use s5_rs.Registry.Contract.{IsRegistry}
use s5_rs.Pins.{PinCodec, PinContext, pin_ord, unpin_hash}
use s5_rs.Pins.Entries.{IsPinCodec}
use s5_rs.Pins.Laws.{PinTable, HoldsTable, get_internal_lem, unpin_hash_lem}

module _ {S : Type 0} (c : PinCodec) (api : RegistryApi S) where
  -- The registry holds the table with one context taken away at one hash.
  pub record Unpinned (t : PinTable) (h : Bytes) (p : PinContext) (s : S) : Type 0 where
    pub table : PinTable
    pub holds : HoldsTable c api s table
    pub row :
        (k : Bytes) → (table k).0 ≡ (if is_same h k then BTreeMap.remove (t h).0 p else (t k).0)

same_row : (t : PinTable) (h k : Bytes) → (t k).0 ≡ (if is_same h k then (t h).0 else (t k).0)
same_row t h k = elim (Bool-cases (is_same h k)) [
  | inl e ↦ rw e (ap (λ x. (t x).0) (sym (is_same_eq h k e)))
  | inr e ↦ rw e refl
]

module _ {S : Type 0} (c : PinCodec) (api : RegistryApi S) (codec : IsPinCodec c)
    (backend : IsRegistry api) where
  pub unpin_hash_any :
      (s : S) (t : PinTable) (h : Bytes) (p : PinContext)
      → HoldsTable c api s t
      → IsArray 32 h
      → (t h).1 + 1 < 2 ^ 64
      → ((unpin_hash c api s h p).0 ≡ ok (is_empty (BTreeMap.remove (t h).0 p)))
        × Unpinned c api t h p (unpin_hash c api s h p).1
  unfolding unpin_hash
  unpin_hash_any s t h p H a bound = elim (Bool-cases (contains_key (t h).0 p)) [
    | inl held ↦
        let (done, after) = unpin_hash_lem c api codec backend s t h p H a bound held in
        (done, record { table = _; holds = after; row = λ k. ground (arith) })
    | inr e ↦
        let same = remove_absent (t h).0 p e in
        rw (get_internal_lem c api codec backend s t h H a, e, same, unpin_hash)
          (refl, record { table = t; holds = H; row = λ k. rw same (same_row t h k) })
  ]
