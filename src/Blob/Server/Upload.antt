-- ===== src/Blob/Server/Upload.antt =====
-- Uploads (s5_blobs/src/net_protocol.rs, handle_upload) to a server whose pins lie in a registry.
use s5_rs.Base.{
  ◌+◌, ◌<◌, ◌^◌, ◌≡◌, refl, sym, ap, ◌∙◌, Bytes, Bool, true, false, ◌&&◌, ◌==◌, Option, some, none,
  List, ok, err, map, concat, length, unwrap_or, if◌then◌else◌, is_same, is_same_eq, arith,
  bytes_ord,
}
use s5_rs.BTreeMap
use s5_rs.BTreeMap.{BTreeMap, get-insert}
use s5_rs.Store.{Store}
use s5_rs.Store.Contract.{IsStore, IsFullStore}
use s5_rs.Stream.{IsArray}
use s5_rs.Registry.{RegistryApi}
use s5_rs.Registry.Contract.{IsRegistry}
use s5_rs.Pins.{PinsApi, PinCodec, pin_ord, node_id, registry_pinner}
use s5_rs.Pins.Entries.{IsPinCodec}
use s5_rs.Pins.Laws.{PinTable, HoldsTable, put_row, pin_hash_lem}
use s5_rs.Blob.Paths.{HashCodec}
use s5_rs.Blob.Paths.RoundTrip.{IsHashCodec}
use s5_rs.Blob.Identifier.{BlobId}
use s5_rs.Blob.Store.{delete}
use s5_rs.Blob.Store.Laws.{blob_file, blob_file-delete}
use s5_rs.Blob.Import.{Hashing, import_stream}
use s5_rs.Blob.Import.Laws.{IsHashing, import_stream_lem}
use s5_rs.Blob.Rpc.{UploadBlob, PeerConfigBlobs}
use s5_rs.Blob.Server.{State, hash_size_mismatch, pin_for, check_upload, handle_upload}
use s5_rs.Blob.Server.Removal.{blob_at}

module _ {S : Type 0} (c : HashCodec) (api : Store S) (outboard : Bool) (codec : IsHashCodec c)
    (store : IsStore api) where
  blob_at-insert :
      (stores : BTreeMap Bytes S) (up : Bytes) (s : S) (name k : Bytes)
      → blob_at c api outboard codec store (BTreeMap.insert stores up s) name k ≡ (
          if is_same up name
          then blob_file c api outboard codec store s k
          else blob_at c api outboard codec store stores name k)
  blob_at-insert stores up s name k = ground (arith, get-insert stores up name s)

  blob_at-same :
      (stores : BTreeMap Bytes S) (up : Bytes) (name k : Bytes) {s : S}
      → BTreeMap.get stores up ≡ some s
      → is_same up name ≡ true
      → blob_at c api outboard codec store stores name k ≡ blob_file c api outboard codec store s k
  blob_at-same stores up name k h e =
      ap (λ x. blob_at c api outboard codec store stores x k) (sym (is_same_eq up name e))
      ∙ rw (h, blob_at) refl

-- Whether an upload is what its request announced.
abbrev pub is_announced : UploadBlob → BlobId → Bool
is_announced req blob = is_same blob.hash req.expected_hash && (blob.size == req.size)

module _ {S P E : Type 0} (c : HashCodec) (api : Store S) (outboard : Bool)
    (pinner : Option (PinsApi P E)) where
  -- The outcome of an upload that is not what it announced.
  check_upload_refused :
      (state : State S P) (node up : Bytes) (s : S) (req : UploadBlob) (blob : BlobId)
      → is_announced req blob ≡ false
      → check_upload c api outboard pinner state node up s req blob ≡ (
        err hash_size_mismatch,
        record state {
          stores = BTreeMap.insert state.stores up (delete c api outboard s blob.hash).1;
        },
      )
  unfolding check_upload
  check_upload_refused state node up s req blob e = ground (arith, e)

  check_upload_pinned :
      (state : State S P) (node up : Bytes) (s : S) (req : UploadBlob) (blob : BlobId)
      → is_announced req blob ≡ true
      → (pin_for pinner state.pins blob.hash node).0 ≡ ok tt
      → check_upload c api outboard pinner state node up s req blob ≡ (
        ok tt,
        record {
          stores = BTreeMap.insert state.stores up s;
          pins = (pin_for pinner state.pins blob.hash node).1;
        },
      )
  unfolding check_upload
  check_upload_pinned state node up s req blob e p = ground (arith, e, p)

module _ {S : Type 0} (c : HashCodec) (api : Store S) (outboard : Bool) (crates : Hashing)
    (uuid : Bytes) (codec : IsHashCodec c) (full : IsFullStore api)
    (hashing : IsHashing crates) where
  -- The blob of the chunks.
  abbrev pub blob_of : List Bytes → BlobId
  blob_of chunks = record { hash = crates.blake3 (concat chunks); size = length (concat chunks) }

  module _ {P E : Type 0} (pinner : Option (PinsApi P E)) where
    handle_upload_imported :
        (state : State S P) (node : Bytes) (cfg : PeerConfigBlobs) (req : UploadBlob)
        (chunks : List Bytes) {up : Bytes} {s : S}
        → cfg.store_uploads_in ≡ some up
        → BTreeMap.get state.stores up ≡ some s
        → handle_upload c api outboard crates uuid pinner state node (some cfg) req chunks
          ≡ check_upload c api outboard pinner state node up
              (import_stream c api outboard crates uuid s (map ok chunks)).1
              req
              (blob_of chunks)
    unfolding handle_upload
    handle_upload_imported state node cfg req chunks {up} {s} may found =
        let (imported, stored, gone) =
          import_stream_lem c api outboard crates uuid codec full hashing s chunks
            (crates.blake3 (concat chunks)) (hashing.hash_array (concat chunks)) in
        rw (may, found, imported) refl

    -- An upload whose hash or size is not the one announced is refused: the pins stay, the store
    -- of the peer has no blob of the received hash afterwards, also if it had one before, and
    -- every other blob stays.
    pub handle_upload_mismatch :
        (state : State S P) (node : Bytes) (cfg : PeerConfigBlobs) (req : UploadBlob)
        (chunks : List Bytes) {up : Bytes} {s : S} (name k : Bytes)
        → cfg.store_uploads_in ≡ some up
        → BTreeMap.get state.stores up ≡ some s
        → is_announced req (blob_of chunks) ≡ false
        → IsArray 32 k
        → let h = crates.blake3 (concat chunks) in
          let r =
            handle_upload c api outboard crates uuid pinner state node (some cfg) req chunks in
          (r.0 ≡ err hash_size_mismatch)
          × (r.1.pins ≡ state.pins)
          × (blob_at c api outboard codec full.basic r.1.stores name k ≡ (
              if is_same up name && is_same h k
              then none
              else blob_at c api outboard codec full.basic state.stores name k))
    handle_upload_mismatch state node cfg req chunks {up} {s} name k may found e a =
        let h = crates.blake3 (concat chunks) in
        let i = hashing.hash_array (concat chunks) in
        let s' = (import_stream c api outboard crates uuid s (map ok chunks)).1 in
        rw (handle_upload_imported state node cfg req chunks may found) (
          rw (check_upload_refused c api outboard pinner state node up s' req (blob_of chunks) e) (
            refl,
            refl,
            ground (
              arith,
              blob_at-insert c api outboard codec full.basic state.stores up
                  (delete c api outboard s' h).1 name k,
              blob_file-delete c api outboard codec full.basic s' h k i a,
              (import_stream_lem c api outboard crates uuid codec full hashing s chunks k a).1,
              blob_at-same c api outboard codec full.basic state.stores up name k {s = s} found,
            ),
          ))

    -- An upload that is what it announced, and whose pin succeeds, is stored.
    handle_upload_stored :
        (state : State S P) (node : Bytes) (cfg : PeerConfigBlobs) (req : UploadBlob)
        (chunks : List Bytes) {up : Bytes} {s : S} (name k : Bytes)
        → cfg.store_uploads_in ≡ some up
        → BTreeMap.get state.stores up ≡ some s
        → is_announced req (blob_of chunks) ≡ true
        → (pin_for pinner state.pins (blob_of chunks).hash node).0 ≡ ok tt
        → IsArray 32 k
        → let h = crates.blake3 (concat chunks) in
          let r =
            handle_upload c api outboard crates uuid pinner state node (some cfg) req chunks in
          (r.0 ≡ ok tt)
          × (r.1.pins ≡ (pin_for pinner state.pins h node).1)
          × (blob_at c api outboard codec full.basic r.1.stores name k ≡ (
              if is_same up name && is_same h k
              then some (
                  unwrap_or
                    (blob_at c api outboard codec full.basic state.stores up h)
                    (concat chunks))
              else blob_at c api outboard codec full.basic state.stores name k))
    handle_upload_stored state node cfg req chunks {up} {s} name k may found e p a =
        let s' = (import_stream c api outboard crates uuid s (map ok chunks)).1 in
        rw (handle_upload_imported state node cfg req chunks may found) (
          rw (check_upload_pinned c api outboard pinner state node up s' req (blob_of chunks) e p) (
            refl,
            refl,
            ground (
              arith,
              blob_at-insert c api outboard codec full.basic state.stores up s' name k,
              (import_stream_lem c api outboard crates uuid codec full hashing s chunks k a).1,
              blob_at-same c api outboard codec full.basic state.stores up name k {s = s} found,
              found,
            ),
          ))

  module _ {P : Type 0} (pin_codec : PinCodec) (registry : RegistryApi P)
      (pin_codec-ok : IsPinCodec pin_codec) (backend : IsRegistry registry) where
    -- An upload that is what it announced succeeds, puts its bytes into the store of the peer
    -- unless the hash was there, pins the hash for the peer, and leaves all other blobs and pins;
    -- the revision of the pin entry can be raised.
    pub handle_upload_ok :
        (state : State S P) (t : PinTable) (node : Bytes) (cfg : PeerConfigBlobs) (req : UploadBlob)
        (chunks : List Bytes) {up : Bytes} {s : S} (name k : Bytes)
        → cfg.store_uploads_in ≡ some up
        → BTreeMap.get state.stores up ≡ some s
        → is_announced req (blob_of chunks) ≡ true
        → HoldsTable pin_codec registry state.pins t
        → (t (blob_of chunks).hash).1 + 1 < 2 ^ 64
        → IsArray 32 k
        → let h = crates.blake3 (concat chunks) in
          let r =
            handle_upload c api outboard crates uuid
              (some (registry_pinner pin_codec registry))
              state
              node
              (some cfg)
              req
              chunks in
          (r.0 ≡ ok tt)
          × HoldsTable pin_codec registry r.1.pins
              (put_row t h (BTreeMap.insert (t h).0 (node_id node) tt) ((t h).1 + 1))
          × (blob_at c api outboard codec full.basic r.1.stores name k ≡ (
              if is_same up name && is_same h k
              then some (
                  unwrap_or
                    (blob_at c api outboard codec full.basic state.stores up h)
                    (concat chunks))
              else blob_at c api outboard codec full.basic state.stores name k))
    unfolding pin_for
    handle_upload_ok state t node cfg req chunks {up} {s} name k may found same H bound a =
        let h = crates.blake3 (concat chunks) in
        let (pinned, after) =
          pin_hash_lem pin_codec registry pin_codec-ok backend state.pins t h (node_id node) H
            (hashing.hash_array (concat chunks)) bound in
        let (done, pins, blobs) =
          handle_upload_stored (some (registry_pinner pin_codec registry)) state node cfg req chunks
            name k may found same (rw (pinned, pin_for) refl) a in
        (done, rw pins after, blobs)
