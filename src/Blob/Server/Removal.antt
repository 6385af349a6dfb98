-- ===== src/Blob/Server/Removal.antt =====
-- Deleting blobs (s5_blobs/src/net_protocol.rs, handle_delete) on a server whose pins lie in a
-- registry.
use s5_rs.Base.{
  ◌+◌, ◌<◌, ◌^◌, ◌≡◌, refl, Bytes, Bool, ◌&&◌, Option, some, none, [], ◌∷◌, ok, if◌then◌else◌,
  is_empty, is_same, arith, bytes_ord, Bool-cases, inl, inr,
}
use s5_rs.BTreeMap
use s5_rs.BTreeMap.{BTreeMap, contains_key}
use s5_rs.Store.{Store}
use s5_rs.Store.Contract.{IsStore}
use s5_rs.Stream.{IsArray}
use s5_rs.Registry.{RegistryApi}
use s5_rs.Registry.Contract.{IsRegistry}
use s5_rs.Pins.{PinCodec, pin_ord, node_id, registry_pinner}
use s5_rs.Pins.Entries.{IsPinCodec}
use s5_rs.Pins.Laws.{PinTable, HoldsTable}
use s5_rs.Pins.Unpin.{Unpinned, unpin_hash_any}
use s5_rs.Blob.Paths.{HashCodec}
use s5_rs.Blob.Paths.RoundTrip.{IsHashCodec}
use s5_rs.Blob.Store.Laws.{blob_file, blob_file-delete}
use s5_rs.Blob.Rpc.{DeleteBlob, PeerConfigBlobs}
use s5_rs.Blob.Server.{State, delete_everywhere, unpin_and_delete, handle_delete}

module _ {S : Type 0} (c : HashCodec) (api : Store S) (outboard : Bool) (codec : IsHashCodec c)
    (store : IsStore api) where
  -- The blob of a hash in a named store.
  abbrev pub blob_at : BTreeMap Bytes S → Bytes → Bytes → Option Bytes
  blob_at stores name h = elim (BTreeMap.get stores name) [
    | none ↦ none
    | some s ↦ blob_file c api outboard codec store s h
  ]

  blob_at-delete_everywhere :
      (stores : BTreeMap Bytes S) (h name k : Bytes)
      → IsArray 32 h
      → IsArray 32 k
      → blob_at (delete_everywhere c api outboard stores h) name k
        ≡ (if is_same h k then none else blob_at stores name k)
  unfolding BTreeMap.get
  blob_at-delete_everywhere [] h name k a b = ground arith
  blob_at-delete_everywhere ((j, s) ∷ stores) h name k a b = ground (
    arith,
    blob_at-delete_everywhere stores h name k a b,
    blob_file-delete c api outboard codec store s h k a b,
  )

module _ {S P : Type 0} (c : HashCodec) (api : Store S) (outboard : Bool) (codec : IsHashCodec c)
    (store : IsStore api) (pin_codec : PinCodec) (registry : RegistryApi P)
    (pin_codec-ok : IsPinCodec pin_codec) (backend : IsRegistry registry) where
  -- handle_delete of a peer that may upload, whether it pins the hash or not, takes away its pin
  -- alone and answers whether no pin of the hash is left; in that case the blob of that hash is
  -- deleted from all stores, and every other blob stays. It holds where the pins are a table in a
  -- registry and the revision of the entry can be raised.
  pub handle_delete_lem :
      (state : State S P) (t : PinTable) (node : Bytes) (cfg : PeerConfigBlobs) (req : DeleteBlob)
      {up : Bytes} (name k : Bytes)
      → cfg.store_uploads_in ≡ some up
      → HoldsTable pin_codec registry state.pins t
      → IsArray 32 req.hash
      → IsArray 32 k
      → (t req.hash).1 + 1 < 2 ^ 64
      → let left = BTreeMap.remove (t req.hash).0 (node_id node) in
        let r =
          handle_delete c api outboard
            (some (registry_pinner pin_codec registry))
            state
            node
            (some cfg)
            req in
        (r.0 ≡ ok (is_empty left))
        × Unpinned pin_codec registry t req.hash (node_id node) r.1.pins
        × (blob_at c api outboard codec store r.1.stores name k ≡ (
            if is_empty left && is_same req.hash k
            then none
            else blob_at c api outboard codec store state.stores name k))
  unfolding handle_delete unpin_and_delete
  handle_delete_lem state t node cfg req name k may H a b bound =
      let (answered, after) =
        unpin_hash_any pin_codec registry pin_codec-ok backend state.pins t req.hash (node_id node)
          H a bound in
      elim (Bool-cases (is_empty (BTreeMap.remove (t req.hash).0 (node_id node)))) [
        | inl e ↦
            rw (may, unpin_and_delete, answered, e)
              (
                refl,
                after,
                blob_at-delete_everywhere c api outboard codec store state.stores req.hash name k a
                    b,
              )
        | inr e ↦ rw (may, unpin_and_delete, answered, e) (refl, after, refl)
      ]
