-- ===== src/Registry/Backed/Refinement.antt =====
-- `StoreRegistry` (registries/store/src/lib.rs) and the contract of registries.
use mathlib.Core.List.{append_cancel_left}
use s5_rs.Base.{
  ◌≡◌, ap, Bytes, Option, some, ◌∷◌, ok, if◌then◌else◌, is_same, is_same_alike, arith, bytes_ord,
}
use s5_rs.BTreeMap
use s5_rs.Store.{Store}
use s5_rs.Store.Contract.{IsStore}
use s5_rs.Stream.{StreamKey, StreamMessage, to_bytes}
use s5_rs.Stream.Keys.{stream_key_ord, key_cmp-eq, to_bytes_injective}
use s5_rs.Stream.Ranking.{should_store}
use s5_rs.Stream.Wire.{serialize}
use s5_rs.Registry.{MemoryRegistry, memory_set, memory_delete}
use s5_rs.Registry.Contract.{
  read_back?, view, IsKey, IsSound, Mirrors, IsRegistry, view_ok, should_store_alike,
  read_back_idem, get-memory_set, get-memory_delete, sound-memory_set, sound-memory_delete,
}
use s5_rs.Registry.Redb.{decode_entry}
use s5_rs.Registry.Redb.Refinement.{decode_entry-serialize}
use s5_rs.Registry.Backed.{
  key_path, backed_get, backed_put, backed_set, backed_delete, backed_registry,
}

module _ {S : Type 0} (api : Store S) (hex : Bytes → Bytes) (prefix : Bytes) (store : IsStore api)
    (hex_injective : (a b : Bytes) → hex a ≡ hex b → a ≡ b) where
  key_path_injective :
      (j k : StreamKey) → key_path api hex prefix j ≡ key_path api hex prefix k → j ≡ k
  unfolding key_path
  key_path_injective j k h =
      let hexes : hex ((to_bytes j).0 ∷ (to_bytes j).1) ≡ hex ((to_bytes k).0 ∷ (to_bytes k).1) =
        cc (append_cancel_left prefix _ _ h) in
      to_bytes_injective j k (cc (hex_injective _ _ hexes))

  -- Two keys share a file only if they are the same key.
  same_path :
      (j k : StreamKey)
      → is_same (key_path api hex prefix j) (key_path api hex prefix k) ≡ is_same j k
  same_path j k =
      is_same_alike (key_path api hex prefix j) (key_path api hex prefix k) j k
        (key_path_injective j k) (ap (key_path api hex prefix))

  backed_get-file :
      (s : S) (k : StreamKey)
      → backed_get api hex prefix s k ≡ decode_entry (store.file s (key_path api hex prefix k))
  unfolding backed_get decode_entry
  backed_get-file s k = ground (arith, store.reads s (key_path api hex prefix k))

  get-put :
      (s : S) (m : StreamMessage) (k : StreamKey)
      → backed_get api hex prefix (backed_put api hex prefix s m).1 k ≡ (
          if is_same m.key k
          then decode_entry (some (serialize m))
          else backed_get api hex prefix s k)
  unfolding backed_put
  get-put s m k = simp (backed_get-file, store.file_put, same_path) (ground arith)

  reads_set :
      (s : S) (m : StreamMessage) (k : StreamKey) {o : Option StreamMessage}
      → backed_get api hex prefix s m.key ≡ ok o
      → backed_get api hex prefix (backed_set api hex prefix s m).1 k ≡ (
          if is_same m.key k
          then (if should_store m o then decode_entry (some (serialize m)) else ok o)
          else backed_get api hex prefix s k)
  unfolding backed_set
  reads_set s m k h = ground (arith, get-put s m k, key_cmp-eq m.key k)

  set_reads :
      (s : S) (r : MemoryRegistry) (m : StreamMessage)
      → IsSound m
      → Mirrors (backed_registry api hex prefix) s r
      → (k : StreamKey) → IsKey k
      → view (backed_get api hex prefix (backed_set api hex prefix s m).1 k)
        ≡ ok (read_back? (BTreeMap.get (memory_set r m).1 k))
  set_reads s r m sm h k typed =
      let (o, found, alike) =
        view_ok (backed_get api hex prefix s m.key) (BTreeMap.get r m.key)
          (h.at_key m.key sm.typed.key_array) in
      rw (reads_set s m k found) (
        rw (get-memory_set r m k) (
          ground (
            arith,
            decode_entry-serialize m sm,
            read_back_idem m,
            should_store_alike m o (BTreeMap.get r m.key) alike,
            key_cmp-eq m.key k,
            h.at_key k typed,
          )))

  delete_reads :
      (s : S) (r : MemoryRegistry) (j : StreamKey)
      → Mirrors (backed_registry api hex prefix) s r
      → (k : StreamKey) → IsKey k
      → view (backed_get api hex prefix (backed_delete api hex prefix s j).1 k)
        ≡ ok (read_back? (BTreeMap.get (memory_delete r j).1 k))
  unfolding backed_delete decode_entry
  delete_reads s r j h k typed = rw (get-memory_delete r j k) (
      simp (backed_get-file, store.file_delete, same_path)
        (ground (arith, h.at_key k typed, backed_get-file s k)))

  -- A registry kept in the files of a store implements the in-memory registry, for every store
  -- that keeps the contract of stores and every injective hex encoding.
  pub backed_registry-IsRegistry : IsRegistry (backed_registry api hex prefix)
  backed_registry-IsRegistry = record {
    set_mirrors = λ s r m sm h. (
      unfold backed_set backed_put in
          ground (
            arith,
            store.put_ok s (key_path api hex prefix m.key) (serialize m),
            view_ok (backed_get api hex prefix s m.key) (BTreeMap.get r m.key)
                (h.at_key m.key sm.typed.key_array),
          ),
      record { at_key = set_reads s r m sm h; sound = sound-memory_set r m sm h.sound },
    );
    delete_mirrors = λ s r k typed h. (
      unfold backed_delete in ground (arith, store.delete_ok s (key_path api hex prefix k)),
      record { at_key = delete_reads s r k h; sound = sound-memory_delete r k h.sound },
    );
  }
