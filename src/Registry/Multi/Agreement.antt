-- ===== src/Registry/Multi/Agreement.antt =====
-- `MultiRegistry` (s5_registry/src/lib.rs) over backends that agree.
use s5_rs.Base.{
  ◌≤◌, ◌≡◌, refl, none, List, [], ◌∷◌, map, All, ok, arith, length, Option-cases, inl, inr,
}
use s5_rs.BTreeMap
use s5_rs.Stream.{StreamKey, StreamMessage}
use s5_rs.Stream.Keys.{stream_key_ord}
use s5_rs.Registry.{RegistryApi, MemoryRegistry, memory_set, memory_delete}
use s5_rs.Registry.Contract.{view, view_ok, read_back?, Mirrors, IsRegistry, IsSound, IsKey}
use s5_rs.Registry.Multi.{WritePolicy, multi_get, multi_set, multi_delete, success_count}
use s5_rs.Registry.Multi.Policy.{required, multi_set_iff, multi_delete_iff}

module _ {S : Type 0} (api : RegistryApi S) (p : WritePolicy) (backend : IsRegistry api) where
  abbrev pub AllMirror : List S → MemoryRegistry → Type 0
  AllMirror ss r = All (λ s. Mirrors api s r) ss

  none_found :
      (ss : List S) (r : MemoryRegistry) (k : StreamKey)
      → IsKey k
      → AllMirror ss r
      → BTreeMap.get r k ≡ none
      → multi_get api p ss k ≡ ok none
  unfolding multi_get
  none_found [] r k t h e = refl
  none_found (s ∷ ss) r k t h e =
      let (o, found, alike) = view_ok (api.get s k) (BTreeMap.get r k) (h.0.at_key k t) in
      ground (arith, found, alike, e, none_found ss r k t h.1 e)

  multi_get-view :
      (s : S) (ss : List S) (r : MemoryRegistry) (k : StreamKey)
      → IsKey k
      → AllMirror (s ∷ ss) r
      → view (multi_get api p (s ∷ ss) k) ≡ ok (read_back? (BTreeMap.get r k))
  unfolding multi_get
  multi_get-view s ss r k t h =
      let (o, found, alike) = view_ok (api.get s k) (BTreeMap.get r k) (h.0.at_key k t) in
      elim (Option-cases (BTreeMap.get r k)) [
        | inl e ↦ ground (arith, found, alike, e, none_found ss r k t h.1 e)
        | inr e ↦ ground (arith, found, alike, e.1)
      ]

  set_all :
      (ss : List S) (r : MemoryRegistry) (m : StreamMessage)
      → IsSound m
      → AllMirror ss r
      → (success_count (map (λ b. (api.set b m).0) ss) ≡ length ss)
        × AllMirror (map (λ b. (api.set b m).1) ss) (memory_set r m).1
  unfolding success_count
  set_all [] r m i h = (refl, tt)
  set_all (s ∷ ss) r m i h =
      let (done, after) = backend.set_mirrors s r m i h.0 in
      let (rest, others) = set_all ss r m i h.1 in (ground (arith, done, rest), (after, others))

  delete_all :
      (ss : List S) (r : MemoryRegistry) (k : StreamKey)
      → IsKey k
      → AllMirror ss r
      → (success_count (map (λ b. (api.delete b k).0) ss) ≡ length ss)
        × AllMirror (map (λ b. (api.delete b k).1) ss) (memory_delete r k).1
  unfolding success_count
  delete_all [] r k t h = (refl, tt)
  delete_all (s ∷ ss) r k t h =
      let (done, after) = backend.delete_mirrors s r k t h.0 in
      let (rest, others) = delete_all ss r k t h.1 in (ground (arith, done, rest), (after, others))

  -- Where at least one backend is given, all of them read as one in-memory registry and the policy
  -- requires no more than there are, get of MultiRegistry reads as that registry, and set of a
  -- well-formed message and delete succeed and have their effect on every backend.
  pub multi_agrees :
      (s : S) (ss : List S) (r : MemoryRegistry) (m : StreamMessage) (k : StreamKey)
      → IsSound m
      → IsKey k
      → AllMirror (s ∷ ss) r
      → required p (length (s ∷ ss)) ≤ length (s ∷ ss)
      → (view (multi_get api p (s ∷ ss) k) ≡ ok (read_back? (BTreeMap.get r k)))
        × ((multi_set api p (s ∷ ss) m).0 ≡ ok tt)
        × AllMirror (multi_set api p (s ∷ ss) m).1 (memory_set r m).1
        × ((multi_delete api p (s ∷ ss) k).0 ≡ ok tt)
        × AllMirror (multi_delete api p (s ∷ ss) k).1 (memory_delete r k).1
  multi_agrees s ss r m k i t h q =
      let (count, after) = set_all (s ∷ ss) r m i h in
      let (count', after') = delete_all (s ∷ ss) r k t h in
      let (written, decided) = multi_set_iff api p s ss m in
      let (written', decided') = multi_delete_iff api p s ss k in
      (
        multi_get-view s ss r k t h,
        decided.1 (rw count q),
        rw written after,
        decided'.1 (rw count' q),
        rw written' after',
      )
