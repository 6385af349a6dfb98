-- ===== src/Registry/Remote/Refinement.antt =====
-- The client and the server (s5_registry/src/lib.rs) in front of any registry.
use s5_rs.Base.{◌≡◌, refl, sym, ap, ◌∙◌, Bytes, Option, none, some, ok, arith}
use s5_rs.BTreeMap
use s5_rs.Stream.{StreamKey, StreamMessage}
use s5_rs.Stream.Keys.{stream_key_ord}
use s5_rs.Stream.Wire.{serialize}
use s5_rs.Stream.Wire.RoundTrip.{
  read_back, payload_read_back, fits_read_back, deserialize-serialize, from_bytes-to_bytes,
}
use s5_rs.Stream.Ranking.{should_store, message_cmp}
use s5_rs.Registry.{MemoryRegistry, memory_set, memory_delete, RegistryApi}
use s5_rs.Registry.Contract.{
  read_back?, view, IsKey, IsSound, Sound?, Mirrors, IsRegistry, view_ok, read_back_idem,
  get-memory_set, sound-memory_set,
}
use s5_rs.Registry.Remote.{client_get, client_set, client_delete}

serialize-read_back : (m : StreamMessage) → serialize (read_back m) ≡ serialize m
unfolding serialize
serialize-read_back m = ground arith

serialize_alike : (m n : StreamMessage) → read_back m ≡ read_back n → serialize m ≡ serialize n
serialize_alike m n h = sym (serialize-read_back m) ∙ ap serialize h ∙ serialize-read_back n

abbrev sent : Option StreamMessage → Option Bytes
sent none = none
sent (some m) = some (serialize m)

sent_alike : (o p : Option StreamMessage) → read_back? o ≡ read_back? p → sent o ≡ sent p
sent_alike none none h = refl
sent_alike none (some n) h = cc
sent_alike (some m) none h = cc
sent_alike (some m) (some n) h = ap some (serialize_alike m n (ground arith))

read_back-IsSound : (m : StreamMessage) → IsSound m → IsSound (read_back m)
read_back-IsSound m s = record {
  typed = record {
    key_array = s.typed.key_array;
    revision_u64 = s.typed.revision_u64;
    hash_array = s.typed.hash_array;
    signature_bytes = s.typed.signature_bytes;
    payload_bytes = payload_read_back m.inline_data s.typed.payload_bytes;
  };
  valid = record {
    signed = s.valid.signed;
    fits = fits_read_back m.key m.inline_data s.valid.fits;
  };
}

same_choice :
    (m : StreamMessage) (o : Option StreamMessage) → should_store (read_back m) o ≡ should_store m o
unfolding should_store message_cmp
same_choice m none = refl
same_choice m (some e) = refl

-- `set` of a message and of its form on the wire leave registries that read alike.
set-read_back :
    (r : MemoryRegistry) (m : StreamMessage) (k : StreamKey)
    → read_back? (BTreeMap.get (memory_set r (read_back m)).1 k)
      ≡ read_back? (BTreeMap.get (memory_set r m).1 k)
set-read_back r m k =
    simp get-memory_set (ground (arith, read_back_idem m, same_choice m (BTreeMap.get r k)))

module _ {S : Type 0} (api : RegistryApi S) (backend : IsRegistry api) where
  -- What the client reads, from what the registry of the server holds.
  client_reads :
      (s : S) (k : StreamKey) {o : Option StreamMessage} (p : Option StreamMessage)
      → IsKey k
      → Sound? p
      → api.get s k ≡ ok o
      → sent o ≡ sent p
      → view (client_get api s k) ≡ ok (read_back? p)
  unfolding client_get
  client_reads s k none typed sound found e = ground (arith, from_bytes-to_bytes k typed.len)
  client_reads s k (some q) typed sound found e = ground (
    arith,
    from_bytes-to_bytes k typed.len,
    deserialize-serialize q sound.typed sound.valid,
    read_back_idem q,
  )

  client_get-view :
      (s : S) (r : MemoryRegistry) (k : StreamKey)
      → IsKey k
      → Mirrors api s r
      → view (client_get api s k) ≡ ok (read_back? (BTreeMap.get r k))
  client_get-view s r k typed h =
      let (o, found, alike) = view_ok (api.get s k) (BTreeMap.get r k) (h.at_key k typed) in
      client_reads s k (BTreeMap.get r k) typed (h.sound k) found (sent_alike o _ alike)

  client_set-eq :
      (s : S) (m : StreamMessage) → IsSound m → client_set api s m ≡ api.set s (read_back m)
  unfolding client_set
  client_set-eq s m sm = ground (arith, deserialize-serialize m sm.typed sm.valid)

  client_delete-eq : (s : S) (k : StreamKey) → IsKey k → client_delete api s k ≡ api.delete s k
  unfolding client_delete
  client_delete-eq s k typed = ground (arith, from_bytes-to_bytes k typed.len)

  -- Over the protocol, a registry that implements the in-memory registry and reads as one is read
  -- as that, and set of a well-formed message and delete succeed and have their effect on it.
  pub remote_agrees :
      (s : S) (r : MemoryRegistry) (m : StreamMessage) (k : StreamKey)
      → IsSound m
      → IsKey k
      → Mirrors api s r
      → (view (client_get api s k) ≡ ok (read_back? (BTreeMap.get r k)))
        × ((client_set api s m).0 ≡ ok tt)
        × Mirrors api (client_set api s m).1 (memory_set r m).1
        × ((client_delete api s k).0 ≡ ok tt)
        × Mirrors api (client_delete api s k).1 (memory_delete r k).1
  remote_agrees s r m k sm typed h =
      let (set_ok, set_h) = backend.set_mirrors s r (read_back m) (read_back-IsSound m sm) h in
      let (delete_ok, delete_h) = backend.delete_mirrors s r k typed h in
      (
        client_get-view s r k typed h,
        rw (client_set-eq s m sm) set_ok,
        rw (client_set-eq s m sm) (record {
          at_key = λ j typed'. set_h.at_key j typed' ∙ ap ok (set-read_back r m j);
          sound = sound-memory_set r m sm h.sound;
        }),
        rw (client_delete-eq s k typed) delete_ok,
        rw (client_delete-eq s k typed) delete_h,
      )
