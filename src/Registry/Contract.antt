-- ===== src/Registry/Contract.antt =====
-- What a registry promises (the trait's documentation in s5_core/src/stream/mod.rs): it behaves as
-- the in-memory registry does, as far as the wire format can tell.
use s5_rs.Base.{
  ◌≡◌, refl, ap, Bool, true, false, Option, none, some, Result, ok, err, if◌then◌else◌, is_same,
  arith,
}
use s5_rs.BTreeMap
use s5_rs.BTreeMap.{get-insert, get-remove}
use s5_rs.Stream.{StreamKey, StreamMessage, key_bytes, key_size, IsTyped, IsValid, IsArray}
use s5_rs.Stream.Keys.{stream_key_ord, key_cmp-eq}
use s5_rs.Stream.Ranking.{should_store, message_cmp}
use s5_rs.Stream.Wire.RoundTrip.{read_back}
use s5_rs.Registry.{
  MemoryRegistry, memory_get, memory_set, memory_delete, memory_registry, RegistryApi,
  RegistryError,
}

abbrev pub read_back? : Option StreamMessage → Option StreamMessage
read_back? none = none
read_back? (some m) = some (read_back m)

abbrev pub view :
    Result RegistryError (Option StreamMessage) → Result RegistryError (Option StreamMessage)
view (ok o) = ok (read_back? o)
view (err e) = err e

abbrev pub IsKey : StreamKey → Type 0
IsKey k = IsArray key_size (key_bytes k)

pub record IsSound (m : StreamMessage) : Type 0 where
  pub typed : IsTyped m
  pub valid : IsValid m

abbrev pub Sound? : Option StreamMessage → Type 0
Sound? none = Unit
Sound? (some m) = IsSound m

-- The state `s` reads as the in-memory registry `r`, whose messages are all well formed.
pub record Mirrors {S : Type 0} (api : RegistryApi S) (s : S) (r : MemoryRegistry) : Type 0 where
  pub at_key : (k : StreamKey) → IsKey k → view (api.get s k) ≡ ok (read_back? (BTreeMap.get r k))
  pub sound : (k : StreamKey) → Sound? (BTreeMap.get r k)

pub record IsRegistry {S : Type 0} (api : RegistryApi S) : Type 0 where
  pub set_mirrors :
      (s : S) (r : MemoryRegistry) (m : StreamMessage)
      → IsSound m
      → Mirrors api s r
      → ((api.set s m).0 ≡ ok tt) × Mirrors api (api.set s m).1 (memory_set r m).1
  pub delete_mirrors :
      (s : S) (r : MemoryRegistry) (k : StreamKey)
      → IsKey k
      → Mirrors api s r
      → ((api.delete s k).0 ≡ ok tt) × Mirrors api (api.delete s k).1 (memory_delete r k).1

pub view_ok :
    (x : Result RegistryError (Option StreamMessage)) (p : Option StreamMessage)
    → view x ≡ ok (read_back? p)
    → (o : Option StreamMessage) × (x ≡ ok o) × (read_back? o ≡ read_back? p)
view_ok (ok o) p h = (o, refl, ground arith)
view_ok (err e) p h = cc

-- `should_store` does not look at the payload.
pub should_store_alike :
    (m : StreamMessage) (o p : Option StreamMessage)
    → read_back? o ≡ read_back? p
    → should_store m o ≡ should_store m p
unfolding should_store message_cmp
should_store_alike m none none h = refl
should_store_alike m none (some q) h = cc
should_store_alike m (some e) none h = cc
should_store_alike m (some e) (some q) h = ground arith

pub read_back_idem : (m : StreamMessage) → read_back (read_back m) ≡ read_back m
read_back_idem m = ground arith

-- What a key holds after `set`, from what it held.
abbrev pub kept : StreamMessage → Option StreamMessage → Option StreamMessage
kept m o = if should_store m o then some m else o

pub get-memory_set :
    (r : MemoryRegistry) (m : StreamMessage) (k : StreamKey)
    → BTreeMap.get (memory_set r m).1 k
      ≡ (if is_same m.key k then kept m (BTreeMap.get r k) else BTreeMap.get r k)
unfolding memory_set
get-memory_set r m k = ground (arith, get-insert r m.key k m, key_cmp-eq m.key k)

pub get-memory_delete :
    (r : MemoryRegistry) (j k : StreamKey)
    → BTreeMap.get (memory_delete r j).1 k ≡ (if is_same j k then none else BTreeMap.get r k)
unfolding memory_delete
get-memory_delete r j k = get-remove r j k

pub kept_alike :
    (m : StreamMessage) (o p : Option StreamMessage)
    → read_back? o ≡ read_back? p
    → read_back? (kept m o) ≡ read_back? (kept m p)
kept_alike m o p h = ground (arith, should_store_alike m o p h)

sound-kept :
    (m : StreamMessage) (o : Option StreamMessage) → IsSound m → Sound? o → Sound? (kept m o)
sound-kept m o s h = choose (should_store m o)
  where
    choose : (b : Bool) → Sound? (if b then some m else o)
    choose true = s
    choose false = h

Sound-if :
    (b : Bool) (o p : Option StreamMessage) → Sound? o → Sound? p → Sound? (if b then o else p)
Sound-if true o p h k = h
Sound-if false o p h k = k

pub sound-memory_set :
    (r : MemoryRegistry) (m : StreamMessage)
    → IsSound m
    → ((k : StreamKey) → Sound? (BTreeMap.get r k))
    → (k : StreamKey) → Sound? (BTreeMap.get (memory_set r m).1 k)
sound-memory_set r m s h k =
    rw (get-memory_set r m k) (Sound-if (is_same m.key k) _ _ (sound-kept m _ s (h k)) (h k))

pub sound-memory_delete :
    (r : MemoryRegistry) (j : StreamKey)
    → ((k : StreamKey) → Sound? (BTreeMap.get r k))
    → (k : StreamKey) → Sound? (BTreeMap.get (memory_delete r j).1 k)
sound-memory_delete r j h k = rw (get-memory_delete r j k) (Sound-if (is_same j k) none _ tt (h k))

ok_injective :
    {o p : Option StreamMessage}
    → ◌≡◌ {A = Result RegistryError (Option StreamMessage)} (ok o) (ok p)
    → o ≡ p
ok_injective h = cc

-- The in-memory registry keeps the contract of registries: one that reads as another, up to empty
-- payloads, does so after set of a well-formed message and delete, which succeed.
pub memory_registry-IsRegistry : IsRegistry memory_registry
unfolding memory_get
memory_registry-IsRegistry = record {
  set_mirrors = λ s r m sm h. (
    unfold memory_set in ground arith,
    record {
      at_key = λ k typed. ap ok (
          simp get-memory_set
            (ground (arith, kept_alike m (BTreeMap.get s k) (BTreeMap.get r k), h.at_key k typed)));
      sound = sound-memory_set r m sm h.sound;
    },
  );
  delete_mirrors = λ s r k typed h. (
    unfold memory_delete in refl,
    record {
      at_key = λ j typed'. ap ok (simp get-memory_delete (ground (arith, h.at_key j typed')));
      sound = sound-memory_delete r k h.sound;
    },
  );
}
