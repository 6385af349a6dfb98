-- ===== src/Store/Memory/Laws.antt =====
-- `MemoryStore` (blob_stores/memory/src/lib.rs) and the contract of stores.
use s5_rs.Base.{
  List, map, concat, ℕ, ◌+◌, min, ◌≡◌, ◌≢◌, refl, sym, ap, ◌∙◌, ap₂, take-add, drop-add,
  drop_of_length-le, take-nil, length-drop, take-min, leb-cases, Option-cases, inl, inr, Bytes,
  none, some, [], ◌∷◌, ◌++◌, ok, length, take, drop, if◌then◌else◌, bytes_ord, is_same, is_same_ne,
  arith, take-all, to_option,
}
use s5_rs.BTreeMap
use s5_rs.BTreeMap.{get-insert, get-remove}
use s5_rs.Store.Contract.{IsStore, IsFullStore}
use s5_rs.Store.Memory.{
  size, put_stream, try_concat, MemoryStore, memory_store, slice, open_read_bytes, put_bytes,
  delete, rename, exists,
}

pub slice-all : (file : Bytes) → slice file 0 none ≡ file
unfolding slice
slice-all [] = refl
slice-all (x ∷ file) = ground (arith, take-all (x ∷ file))

slice-take : (file : Bytes) (offset n : ℕ) → slice file offset (some n) ≡ take n (drop offset file)
unfolding slice
slice-take file offset n = elim (leb-cases (length file) offset) [
  | inl h ↦ rw h.0 (rw (drop_of_length-le offset file h.1) (sym (take-nil n)))
  | inr h ↦ rw h (
      ap (λ k. take (min k n) (drop offset file)) (sym (length-drop offset file))
      ∙ take-min n (drop offset file))
]

-- A ranged read of a + b bytes gives what a read of a bytes and a read of the next b bytes give.
pub slice-add :
    (file : Bytes) (offset a b : ℕ)
    → slice file offset (some (a + b))
      ≡ slice file offset (some a) ++ slice file (offset + a) (some b)
slice-add file offset a b =
    slice-take file offset (a + b)
    ∙ take-add a b (drop offset file)
    ∙ ap₂ ◌++◌ (sym (slice-take file offset a))
        (ap (take b) (sym (drop-add offset a file)) ∙ sym (slice-take file (offset + a) b))

pub read_whole :
    (s : MemoryStore) (p : Bytes) → to_option (open_read_bytes s p 0 none) ≡ BTreeMap.get s p
unfolding open_read_bytes
read_whole s p = elim (Option-cases (BTreeMap.get s p)) [
  | inl e ↦ rw (e, open_read_bytes) refl
  | inr e ↦ rw (e.1, open_read_bytes) (ap some (slice-all e.0))
]

pub exists_lem : (s : MemoryStore) (p : Bytes) → exists s p ≡ ok (BTreeMap.contains_key s p)
unfolding exists
exists_lem s p = refl

pub put_bytes_lem :
    (s : MemoryStore) (p b : Bytes) → put_bytes s p b ≡ (ok tt, BTreeMap.insert s p b)
unfolding put_bytes
put_bytes_lem s p b = refl

pub delete_lem : (s : MemoryStore) (p : Bytes) → delete s p ≡ (ok tt, BTreeMap.remove s p)
unfolding delete
delete_lem s p = refl

abbrev pub memory_contract : IsStore memory_store
memory_contract = record {
  file = λ s p. BTreeMap.get s p;
  reads = read_whole;
  exists_lem = exists_lem;
  put_ok = λ s p b. rw (put_bytes_lem s p b) refl;
  file_put = λ s p b q. rw (put_bytes_lem s p b) (get-insert s p q b);
  delete_ok = λ s p. rw (delete_lem s p) refl;
  file_delete = λ s p q. rw (delete_lem s p) (get-remove s p q);
}

-- The in-memory store keeps the contract of stores: reads and exists tell which file stands at a
-- path, put_bytes and delete succeed and change that path alone.
pub memory_store-IsStore : IsStore memory_store
memory_store-IsStore = memory_contract

-- Renaming a file that is there to another path succeeds, takes it away at the old path, puts it
-- at the new one and leaves every other path alone.
pub get-rename :
    (s : MemoryStore) (old new q : Bytes) {v : Bytes}
    → old ≢ new
    → BTreeMap.get s old ≡ some v
    → ((rename s old new).0 ≡ ok tt)
      × (BTreeMap.get (rename s old new).1 q
          ≡ (if is_same new q then some v else if is_same old q then none else BTreeMap.get s q))
unfolding rename
get-rename s old new q {v} n h = (
  ground (arith, is_same_ne old new n),
  ground
      (arith, is_same_ne old new n, get-insert (BTreeMap.remove s old) new q v, get-remove s old q),
)

try_concat-map : (chunks : List Bytes) → try_concat (map ok chunks) ≡ ok (concat chunks)
unfolding try_concat
try_concat-map [] = refl
try_concat-map (b ∷ chunks) = rw (try_concat-map chunks) refl

pub memory_store_size :
    (s : MemoryStore) (p : Bytes) {b : Bytes} → BTreeMap.get s p ≡ some b → size s p ≡ ok (length b)
unfolding size
memory_store_size s p h = ground (arith, h)

pub read_slice :
    (s : MemoryStore) (p : Bytes) (offset n : ℕ) {b : Bytes}
    → BTreeMap.get s p ≡ some b
    → open_read_bytes s p offset (some n) ≡ ok (take n (drop offset b))
unfolding open_read_bytes
read_slice s p offset n {b} h = ground (arith, h, slice-take b offset n)

pub put_stream_lem :
    (s : MemoryStore) (p : Bytes) (chunks : List Bytes)
    → put_stream s p (map ok chunks) ≡ (ok tt, BTreeMap.insert s p (concat chunks))
unfolding put_stream
put_stream_lem s p chunks = rw (try_concat-map chunks, put_stream) refl

-- The in-memory store also keeps the contract of parts, streams and renaming.
abbrev pub memory_full_contract : IsFullStore memory_store
memory_full_contract = record {
  basic = memory_contract;
  size_lem = memory_store_size;
  read_part = read_slice;
  temp_default = λ uuid s stream. refl;
  stream_ok = λ s p chunks. rw (put_stream_lem s p chunks) refl;
  file_stream = λ s p chunks q. rw (put_stream_lem s p chunks) (get-insert s p q (concat chunks));
  rename_ok = λ s p q b n h. (get-rename s p q q n h).0;
  file_rename = λ s p q r b n h. (get-rename s p q r n h).1;
}
