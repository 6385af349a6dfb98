-- ===== src/Pins/Laws.antt =====
-- The pinner (s5_core/src/pins/registry_pinner.rs) and the table of pin sets that it keeps.
use s5_rs.Base.{
  ℕ, ◌+◌, ◌<◌, ◌^◌, ◌≡◌, refl, subst, Bytes, true, false, Option, none, some, [], ◌∷◌, ok,
  if◌then◌else◌, is_empty, arith, is_same, is_same_eq, bytes_ord, inl, inr, Bool-cases,
}
use s5_rs.BTreeMap
use s5_rs.BTreeMap.{BTreeMap, contains_key, keys, insert}
use s5_rs.BTreeMap.Sorted.{IsSorted, insert-IsSorted, remove-IsSorted}
use s5_rs.Stream.{StreamMessage, registry, IsArray, new}
use s5_rs.Stream.Keys.{table_key_cmp, stream_key_ord}
use s5_rs.Stream.Validation.{new_of_valid}
use s5_rs.Stream.Ranking.{should_store, message_cmp}
use s5_rs.Registry.{RegistryApi, MemoryRegistry, memory_set, memory_delete}
use s5_rs.Registry.Contract.{
  view_ok, Mirrors, IsRegistry, IsSound, kept, get-memory_set, get-memory_delete,
}
use s5_rs.Pins.{
  PinContext, pin_ord, Pinners, PinCodec, hash_to_key, get_internal, save_internal, pin_hash,
  unpin_hash, get_pinners, is_pinned,
}
use s5_rs.Pins.Entries.{IsPinCodec, IsPinEntry, pinners_of_entry}

-- The message that `save_internal` writes.
module _ (c : PinCodec) (codec : IsPinCodec c) where
  abbrev pin_message : Bytes → Pinners → ℕ → StreamMessage
  pin_message h P n = record {
    type_id = registry;
    key = hash_to_key h;
    revision = n;
    hash = c.hash (c.encode (keys P));
    signature = [];
    inline_data = some (c.encode (keys P));
  }

  pin_message-IsSound :
      (h : Bytes) (P : Pinners) (n : ℕ) → IsArray 32 h → n < 2 ^ 64 → IsSound (pin_message h P n)
  pin_message-IsSound h P n a b = record {
    typed = record {
      key_array = a;
      revision_u64 = omega (arith, b);
      hash_array = codec.hash_array (c.encode (keys P));
      signature_bytes = tt;
      payload_bytes = codec.bytes (keys P);
    };
    valid = record { signed = refl; fits = λ e. absurd (ground (arith, e)) };
  }

-- The table that a registry holds: for each hash its pinners and the revision of its entry.
abbrev pub PinTable : Type 0
PinTable = Bytes → Pinners × ℕ

module _ {S : Type 0} (c : PinCodec) (api : RegistryApi S) where
  pub record HoldsTable (s : S) (t : PinTable) : Type 0 where
    pub memory : MemoryRegistry
    pub mirrors : Mirrors api s memory
    pub entries :
        (h : Bytes)
        → IsArray 32 h
        → IsPinEntry c (BTreeMap.get memory (hash_to_key h)) (t h).0 (t h).1
    pub sorted : (h : Bytes) → IsSorted (t h).0

-- The table with one row replaced; an empty set of pinners has no entry and no revision.
abbrev pub put_row : PinTable → Bytes → Pinners → ℕ → PinTable
put_row t h P n k = if is_same h k then (P, if is_empty P then 0 else n) else t k

module _ {S : Type 0} (c : PinCodec) (api : RegistryApi S) (codec : IsPinCodec c)
    (backend : IsRegistry api) where
  pub get_internal_lem :
      (s : S) (t : PinTable) (h : Bytes)
      → HoldsTable c api s t
      → IsArray 32 h
      → get_internal c api s (hash_to_key h) ≡ ok (t h)
  unfolding get_internal
  get_internal_lem s t h H a =
      let (o, found, alike) =
        view_ok (api.get s (hash_to_key h)) (BTreeMap.get H.memory (hash_to_key h))
          (H.mirrors.at_key (hash_to_key h) a) in
      rw (found, get_internal)
        (pinners_of_entry c codec o _ (t h).0 (t h).1 alike (H.entries h a) (H.sorted h))

  row_entry :
      (t : PinTable) (h k : Bytes) (P : Pinners) (n : ℕ) (r : MemoryRegistry)
      (o : Option StreamMessage)
      → IsPinEntry c o P (if is_empty P then 0 else n)
      → IsPinEntry c (BTreeMap.get r (hash_to_key k)) (t k).0 (t k).1
      → IsPinEntry c
          (if is_same h k then o else BTreeMap.get r (hash_to_key k))
          (put_row t h P n k).0
          (put_row t h P n k).1
  row_entry t h k P n r o new old = elim (Bool-cases (is_same h k)) [
    | inl e ↦ rw e new
    | inr e ↦ rw e old
  ]

  row-IsSorted :
      (t : PinTable) (h k : Bytes) (P : Pinners) (n : ℕ)
      → IsSorted P
      → IsSorted (t k).0
      → IsSorted (put_row t h P n k).0
  row-IsSorted t h k P n new old = elim (Bool-cases (is_same h k)) [
    | inl e ↦ rw e new
    | inr e ↦ rw e old
  ]

  same_key : (h k : Bytes) → is_same (hash_to_key h) (hash_to_key k) ≡ is_same h k
  unfolding table_key_cmp
  same_key h k = refl

  -- The message with the next revision replaces the entry.
  stored :
      (t : PinTable) (h : Bytes) (P : Pinners) (o : Option StreamMessage)
      → IsPinEntry c o (t h).0 (t h).1
      → kept (pin_message c codec h P ((t h).1 + 1)) o
        ≡ some (pin_message c codec h P ((t h).1 + 1))
  unfolding should_store message_cmp
  stored t h P none e = refl
  stored t h P (some m) e = ground (arith, e.2)

  set_entry :
      (s : S) (t : PinTable) (h k : Bytes) (P : Pinners)
      → (H : HoldsTable c api s t) → IsArray 32 h
      → IsArray 32 k
      → is_empty P ≡ false
      → IsPinEntry c
          (BTreeMap.get
            (memory_set H.memory (pin_message c codec h P ((t h).1 + 1))).1
            (hash_to_key k))
          (put_row t h P ((t h).1 + 1) k).0
          (put_row t h P ((t h).1 + 1) k).1
  set_entry s t h k P H a i e =
      let m = pin_message c codec h P ((t h).1 + 1) in
      rw (get-memory_set H.memory m (hash_to_key k), same_key h k)
        (elim (Bool-cases (is_same h k)) [
          | inl y ↦
              let kept_here : kept m (BTreeMap.get H.memory (hash_to_key k)) ≡ some m =
                subst (λ x. kept m (BTreeMap.get H.memory (hash_to_key x)) ≡ some m)
                  (is_same_eq h k y) (stored t h P _ (H.entries h a)) in
              rw (y, kept_here) (refl, refl, rw e refl, e)
          | inr y ↦ rw y (H.entries k i)
        ])

  -- Saving with the next revision replaces the row.
  save_internal_lem :
      (s : S) (t : PinTable) (h : Bytes) (P : Pinners)
      → HoldsTable c api s t
      → IsArray 32 h
      → IsSorted P
      → (t h).1 + 1 < 2 ^ 64
      → ((save_internal c api s (hash_to_key h) P ((t h).1 + 1)).0 ≡ ok tt)
        × HoldsTable c api
            (save_internal c api s (hash_to_key h) P ((t h).1 + 1)).1
            (put_row t h P ((t h).1 + 1))
  unfolding save_internal
  save_internal_lem s t h [] H a o b =
      let (done, after) = backend.delete_mirrors s H.memory (hash_to_key h) a H.mirrors in
      (
        ground (arith, done),
        record {
          memory = (memory_delete H.memory (hash_to_key h)).1;
          mirrors = after;
          entries = λ k i.
              rw (get-memory_delete H.memory (hash_to_key h) (hash_to_key k), same_key h k)
                (row_entry t h k [] ((t h).1 + 1) H.memory none (refl, refl) (H.entries k i));
          sorted = λ k. row-IsSorted t h k [] ((t h).1 + 1) tt (H.sorted k);
        },
      )
  save_internal_lem s t h (p ∷ P) H a o b =
      let m = pin_message c codec h (p ∷ P) ((t h).1 + 1) in
      let sound = pin_message-IsSound c codec h (p ∷ P) ((t h).1 + 1) a b in
      let (done, after) = backend.set_mirrors s H.memory m sound H.mirrors in
      rw (new_of_valid m sound.valid) (
        ground (arith, done),
        record {
          memory = (memory_set H.memory m).1;
          mirrors = after;
          entries = λ k i. set_entry s t h k (p ∷ P) H a i refl;
          sorted = λ k. row-IsSorted t h k (p ∷ P) ((t h).1 + 1) o (H.sorted k);
        },
      )

  -- Where the registry holds such a table, get_pinners and is_pinned read it.
  pub get_pinners_lem :
      (s : S) (t : PinTable) (h : Bytes) (p : PinContext)
      → HoldsTable c api s t
      → IsArray 32 h
      → (get_pinners c api s h ≡ ok (t h).0) × (is_pinned c api s h p ≡ ok (contains_key (t h).0 p))
  unfolding get_pinners is_pinned
  get_pinners_lem s t h p H a = (
    rw (get_internal_lem s t h H a, get_pinners) refl,
    rw (get_internal_lem s t h H a, is_pinned) refl,
  )

  -- Where the registry under a pinner holds a table from hashes to sets of contexts, pin_hash of a
  -- 32-byte hash whose revision can be raised succeeds and adds the context to the pinners of that
  -- hash alone, over every registry that keeps the contract.
  pub pin_hash_lem :
      (s : S) (t : PinTable) (h : Bytes) (p : PinContext)
      → HoldsTable c api s t
      → IsArray 32 h
      → (t h).1 + 1 < 2 ^ 64
      → ((pin_hash c api s h p).0 ≡ ok tt)
        × HoldsTable c api
            (pin_hash c api s h p).1
            (put_row t h (BTreeMap.insert (t h).0 p tt) ((t h).1 + 1))
  unfolding pin_hash
  pin_hash_lem s t h p H a b =
      rw (get_internal_lem s t h H a, pin_hash)
        (save_internal_lem s t h (BTreeMap.insert (t h).0 p tt) H a
          (insert-IsSorted p tt (t h).0 (H.sorted h)) b)

  -- Where the registry holds such a table, unpin_hash of a context that pins the hash takes away
  -- that context alone and answers whether no context is left.
  pub unpin_hash_lem :
      (s : S) (t : PinTable) (h : Bytes) (p : PinContext)
      → HoldsTable c api s t
      → IsArray 32 h
      → (t h).1 + 1 < 2 ^ 64
      → contains_key (t h).0 p ≡ true
      → ((unpin_hash c api s h p).0 ≡ ok (is_empty (BTreeMap.remove (t h).0 p)))
        × HoldsTable c api
            (unpin_hash c api s h p).1
            (put_row t h (BTreeMap.remove (t h).0 p) ((t h).1 + 1))
  unfolding unpin_hash
  unpin_hash_lem s t h p H a b held =
      let (done, after) =
        save_internal_lem s t h (BTreeMap.remove (t h).0 p) H a
          (remove-IsSorted p (t h).0 (H.sorted h)) b in
      rw (get_internal_lem s t h H a, unpin_hash) (rw (held, done) (refl, after))
