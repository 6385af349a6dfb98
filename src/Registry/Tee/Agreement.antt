-- ===== src/Registry/Tee/Agreement.antt =====
-- `TeeRegistry` (s5_registry/src/lib.rs) over two registries that agree.
use s5_rs.Base.{◌≡◌, Option, none, some, ok, arith}
use s5_rs.BTreeMap
use s5_rs.Stream.{StreamKey, StreamMessage}
use s5_rs.Stream.Keys.{stream_key_ord}
use s5_rs.Registry.{MemoryRegistry, memory_set, memory_delete, RegistryApi}
use s5_rs.Registry.Contract.{read_back?, view, IsKey, IsSound, Mirrors, IsRegistry, view_ok}
use s5_rs.Registry.Tee.{tee_get, tee_set, tee_delete}

module _ {S T : Type 0} (local : RegistryApi S) (remote : RegistryApi T)
    (local_ok : IsRegistry local) (remote_ok : IsRegistry remote) where
  tee_reads :
      (st : S × T) (r : MemoryRegistry) (k : StreamKey) {o : Option StreamMessage}
      → local.get st.0 k ≡ ok o
      → read_back? o ≡ read_back? (BTreeMap.get r k)
      → view (remote.get st.1 k) ≡ ok (read_back? (BTreeMap.get r k))
      → view (tee_get local remote st k) ≡ ok (read_back? (BTreeMap.get r k))
  unfolding tee_get
  tee_reads st r k {o = none} found alike h = ground arith
  tee_reads st r k {o = some m} found alike h = ground arith

  -- Where the two registries of a tee read as one in-memory registry, the tee reads as that too;
  -- set of a well-formed message and delete succeed, and both registries have the effect.
  pub tee_agrees :
      (st : S × T) (r : MemoryRegistry) (m : StreamMessage) (k : StreamKey)
      → IsSound m
      → IsKey k
      → Mirrors local st.0 r
      → Mirrors remote st.1 r
      → (view (tee_get local remote st k) ≡ ok (read_back? (BTreeMap.get r k)))
        × ((tee_set local remote st m).0 ≡ ok tt)
        × Mirrors local (tee_set local remote st m).1.0 (memory_set r m).1
        × Mirrors remote (tee_set local remote st m).1.1 (memory_set r m).1
        × ((tee_delete local remote st k).0 ≡ ok tt)
        × Mirrors local (tee_delete local remote st k).1.0 (memory_delete r k).1
        × Mirrors remote (tee_delete local remote st k).1.1 (memory_delete r k).1
  unfolding tee_set tee_delete
  tee_agrees st r m k sm typed hl hr =
      let (a, a') = local_ok.set_mirrors st.0 r m sm hl in
      let (b, b') = remote_ok.set_mirrors st.1 r m sm hr in
      let (c, c') = local_ok.delete_mirrors st.0 r k typed hl in
      let (d, d') = remote_ok.delete_mirrors st.1 r k typed hr in
      let (o, found, alike) = view_ok (local.get st.0 k) (BTreeMap.get r k) (hl.at_key k typed) in
      (
        tee_reads st r k found alike (hr.at_key k typed),
        ground arith,
        ground arith,
        rw a b',
        ground arith,
        rw c c',
        rw c d',
      )
