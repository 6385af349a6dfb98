-- ===== src/Registry/Redb/Refinement.antt =====
-- `RedbRegistry` (registries/redb/src/lib.rs) and the contract of registries.
use s5_rs.Base.{◌≡◌, refl, Option, some, ok, if◌then◌else◌, is_same, arith}
use s5_rs.BTreeMap
use s5_rs.BTreeMap.{get-insert, get-remove}
use s5_rs.Stream.{StreamKey, StreamMessage, to_bytes}
use s5_rs.Stream.Keys.{table_key_ord, stream_key_ord, key_cmp-eq}
use s5_rs.Stream.Ranking.{should_store}
use s5_rs.Stream.Wire.{serialize}
use s5_rs.Stream.Wire.RoundTrip.{read_back, deserialize-serialize}
use s5_rs.Registry.{MemoryRegistry, memory_set, memory_delete}
use s5_rs.Registry.Contract.{
  read_back?, view, IsKey, IsSound, Mirrors, IsRegistry, view_ok, should_store_alike,
  read_back_idem, get-memory_set, get-memory_delete, sound-memory_set, sound-memory_delete,
}
use s5_rs.Registry.Redb.{RedbTable, decode_entry, redb_get, redb_set, redb_delete, redb_registry}

pub decode_entry-serialize :
    (m : StreamMessage) → IsSound m → decode_entry (some (serialize m)) ≡ ok (some (read_back m))
unfolding decode_entry
decode_entry-serialize m s = rw (deserialize-serialize m s.typed s.valid)

redb_get-redb_set :
    (t : RedbTable) (m : StreamMessage) (k : StreamKey) {o : Option StreamMessage}
    → redb_get t m.key ≡ ok o
    → redb_get (redb_set t m).1 k ≡ (
        if is_same m.key k
        then (if should_store m o then decode_entry (some (serialize m)) else ok o)
        else redb_get t k)
unfolding redb_set redb_get
redb_get-redb_set t m k h =
    ground (arith, get-insert t (to_bytes m.key) (to_bytes k) (serialize m), key_cmp-eq m.key k)

set_reads :
    (t : RedbTable) (r : MemoryRegistry) (m : StreamMessage)
    → IsSound m
    → Mirrors redb_registry t r
    → (k : StreamKey) → IsKey k
    → view (redb_get (redb_set t m).1 k) ≡ ok (read_back? (BTreeMap.get (memory_set r m).1 k))
set_reads t r m s h k typed =
    let (o, found, alike) =
      view_ok (redb_get t m.key) (BTreeMap.get r m.key) (h.at_key m.key s.typed.key_array) in
    rw (redb_get-redb_set t m k found) (
      rw (get-memory_set r m k) (
        ground (
          arith,
          decode_entry-serialize m s,
          read_back_idem m,
          should_store_alike m o (BTreeMap.get r m.key) alike,
          key_cmp-eq m.key k,
          h.at_key k typed,
        )))

delete_reads :
    (t : RedbTable) (r : MemoryRegistry) (j : StreamKey)
    → Mirrors redb_registry t r
    → (k : StreamKey) → IsKey k
    → view (redb_get (redb_delete t j).1 k) ≡ ok (read_back? (BTreeMap.get (memory_delete r j).1 k))
unfolding redb_delete redb_get decode_entry
delete_reads t r j h k typed =
    rw (get-memory_delete r j k)
      (ground (arith, h.at_key k typed, get-remove t (to_bytes j) (to_bytes k)))

-- The database registry implements the in-memory registry: where it reads as one, set of a
-- well-formed message and delete of a key succeed and leave it reading as the in-memory registry
-- after the same call, at every key.
pub redb_registry-IsRegistry : IsRegistry redb_registry
redb_registry-IsRegistry = record {
  set_mirrors = λ t r m s h. (
    unfold redb_set redb_get in
        ground (
          arith,
          view_ok (redb_get t m.key) (BTreeMap.get r m.key) (h.at_key m.key s.typed.key_array),
        ),
    record { at_key = set_reads t r m s h; sound = sound-memory_set r m s h.sound },
  );
  delete_mirrors = λ t r k typed h. (
    unfold redb_delete in refl,
    record { at_key = delete_reads t r k h; sound = sound-memory_delete r k h.sound },
  );
}
