-- ===== src/Blob/Remote/Session.antt =====
-- Writing a blob through the remote store and reading it back (s5_blobs/src/store_remote.rs).
use s5_rs.Base.{
  ℕ, ◌+◌, ◌<◌, ◌^◌, ◌≡◌, refl, sym, ap, ◌∙◌, Bytes, Bool, true, false, Option, some, none, List, [],
  ◌∷◌, ok, map, concat, length, drop, arith, is_same_refl, bytes_ord,
}
use s5_rs.BTreeMap
use s5_rs.BTreeMap.{BTreeMap}
use s5_rs.Store.{Store}
use s5_rs.Store.Contract.{IsFullStore}
use s5_rs.Stream.{IsArray}
use s5_rs.Registry.{RegistryApi}
use s5_rs.Registry.Contract.{IsRegistry}
use s5_rs.Pins.{PinCodec, PinsApi, registry_pinner}
use s5_rs.Pins.Entries.{IsPinCodec}
use s5_rs.Pins.Laws.{PinTable, HoldsTable}
use s5_rs.Blob.Paths.{HashCodec, blob_path_for_hash}
use s5_rs.Blob.Paths.RoundTrip.{IsHashCodec}
use s5_rs.Blob.Store.{blob_path, contains}
use s5_rs.Blob.Import.{Hashing}
use s5_rs.Blob.Import.Laws.{IsHashing}
use s5_rs.Blob.Rpc.{UploadBlob, DownloadBlob, PeerConfigBlobs}
use s5_rs.Blob.Download.Range.{part}
use s5_rs.Blob.Server.{State, Peer, cfg_for, handle_upload, handle_pin}
use s5_rs.Blob.Server.Reading.{handle_download_all}
use s5_rs.Blob.Server.Removal.{blob_at}
use s5_rs.Blob.Server.Upload.{is_announced, blob_of, handle_upload_ok}
use s5_rs.Blob.Server.Session.{upload_then_download}
use s5_rs.Blob.Client.{gather, pin_blob, upload_chunks, direct}
use s5_rs.Blob.Remote.{features, put_stream, upload_stream, upload, remote_store}
use s5_rs.Blob.Remote.Laws.{hash_from_path-blob_path_for_hash, remote_reads}

gather-map : (chunks : List Bytes) → gather (map ok chunks) ≡ ok chunks
unfolding gather
gather-map [] = refl
gather-map (b ∷ chunks) = rw (gather-map chunks) refl

module _ {S P E : Type 0} (c : HashCodec) (api : Store S) (outboard : Bool) (codec : IsHashCodec c)
    (full : IsFullStore api) (pinner : Option (PinsApi P E)) where
  -- Asking to pin a blob that the store of the peer lacks changes nothing.
  pin_missing :
      (state : State S P) (node : Bytes) (cfg : PeerConfigBlobs) (h : Bytes) {name : Bytes} {s : S}
      → cfg.store_uploads_in ≡ some name
      → BTreeMap.get state.stores name ≡ some s
      → blob_at c api outboard codec full.basic state.stores name h ≡ none
      → handle_pin c api pinner state node (some cfg) (record { hash = h }) ≡ (ok false, state)
  unfolding handle_pin contains
  pin_missing state node cfg h {name} {s} may found fresh =
      let there : full.basic.file s (blob_path c api h) ≡ none = ground (arith, found, fresh) in
      rw (may, found, full.basic.exists_lem s (blob_path c api h), there) refl

module _ {S P E : Type 0} (c : HashCodec) (api : Store S) (outboard : Bool) (crates : Hashing)
    (uuid : Bytes) (pinner : Option (PinsApi P E)) (peer_cfg : BTreeMap Bytes PeerConfigBlobs)
    (peer : Peer) where
  abbrev pub remote : Store (State S P)
  remote = remote_store c (direct c api outboard crates uuid pinner peer_cfg peer) crates.blake3

module _ {S P E : Type 0} (c : HashCodec) (api : Store S) (outboard : Bool) (crates : Hashing)
    (uuid : Bytes) (pinner : Option (PinsApi P E)) (peer_cfg : BTreeMap Bytes PeerConfigBlobs)
    (peer : Peer) (codec : IsHashCodec c) where
  -- A stream for a blob that cannot be pinned yet is uploaded.
  put_stream-handle_upload :
      (state : State S P) (cfg : PeerConfigBlobs) (chunks : List Bytes)
      → IsArray 32 (crates.blake3 (concat chunks))
      → cfg_for peer_cfg peer.node_key ≡ some cfg
      → handle_pin c api pinner state peer.node_id_bytes
          (some cfg)
          (record { hash = crates.blake3 (concat chunks) })
        ≡ (ok false, state)
      → let announcement : UploadBlob = record {
        expected_hash = crates.blake3 (concat chunks);
        size = length (concat chunks);
      } in
        let r =
          handle_upload c api outboard crates uuid pinner state peer.node_id_bytes
            (some cfg)
            announcement
            chunks in
        r.0 ≡ ok tt
        → (remote c api outboard crates uuid pinner peer_cfg peer).put_stream state
            (blob_path_for_hash c (crates.blake3 (concat chunks)) features)
            (map ok chunks)
          ≡ (ok tt, r.1)
  unfolding put_stream upload_stream upload upload_chunks pin_blob
  put_stream-handle_upload state cfg chunks i named missing done =
      let h = crates.blake3 (concat chunks) in
      rw
        (
          put_stream,
          hash_from_path-blob_path_for_hash c codec h i,
          pin_blob,
          named,
          missing,
          upload_stream,
          gather-map chunks,
          is_same_refl h,
          named,
          missing,
          upload,
          upload_chunks,
          done,
        )
        refl

module _ {S P : Type 0} (c : HashCodec) (api : Store S) (outboard : Bool) (crates : Hashing)
    (uuid : Bytes) (peer_cfg : BTreeMap Bytes PeerConfigBlobs) (peer : Peer) (codec : IsHashCodec c)
    (full : IsFullStore api) (hashing : IsHashing crates) (pin_codec : PinCodec)
    (registry : RegistryApi P) (pin_codec-ok : IsPinCodec pin_codec)
    (backend : IsRegistry registry) where
  -- A stream written to the path of its blob in the remote store of a client, where the server
  -- names a store for the peer, lacks the blob there and lets the peer read that store first, is
  -- stored and read back from the same path, in whole or in part: client, protocol, server, import
  -- and pins together.
  pub remote_write_then_read :
      (state : State S P) (t : PinTable) (cfg : PeerConfigBlobs) (chunks : List Bytes) (offset : ℕ)
      (max_len : Option ℕ) {name : Bytes} {s : S} {names : List Bytes}
      → cfg_for peer_cfg peer.node_key ≡ some cfg
      → cfg.store_uploads_in ≡ some name
      → cfg.readable_stores ≡ name ∷ names
      → BTreeMap.get state.stores name ≡ some s
      → HoldsTable pin_codec registry state.pins t
      → (t (crates.blake3 (concat chunks))).1 + 1 < 2 ^ 64
      → blob_at c api outboard codec full.basic state.stores name (crates.blake3 (concat chunks))
        ≡ none
      → let store =
          remote c api outboard crates uuid
            (some (registry_pinner pin_codec registry))
            peer_cfg
            peer in
        let path = blob_path_for_hash c (crates.blake3 (concat chunks)) features in
        let put = store.put_stream state path (map ok chunks) in
        (put.0 ≡ ok tt)
        × (store.open_read_bytes put.1 path offset max_len
            ≡ ok (part max_len (drop offset (concat chunks))))
  remote_write_then_read state t cfg chunks offset max_len {name} {s} {names} named may reads found
        H bound fresh =
      let h = crates.blake3 (concat chunks) in
      let i = hashing.hash_array (concat chunks) in
      let pinner = some (registry_pinner pin_codec registry) in
      let node = peer.node_id_bytes in
      let announcement : UploadBlob = record { expected_hash = h; size = length (concat chunks) } in
      let same : is_announced announcement
            (blob_of c api outboard crates uuid codec full hashing chunks)
          ≡ true =
        ground (arith, is_same_refl h) in
      let done =
        (handle_upload_ok c api outboard crates uuid codec full hashing pin_codec registry
          pin_codec-ok backend state t node cfg announcement chunks {up = name} {s = s} name h may
          found same H bound i).0 in
      let missing =
        pin_missing c api outboard codec full pinner state node cfg h {s = s} may found fresh in
      let down : DownloadBlob = record { hash = h; offset = offset; max_len = max_len } in
      let after =
        (handle_upload c api outboard crates uuid pinner state node (some cfg) announcement
          chunks).1 in
      let put =
        put_stream-handle_upload c api outboard crates uuid pinner peer_cfg peer codec state cfg
          chunks i named missing done in
      let read =
        remote_reads c api outboard crates uuid pinner peer_cfg peer codec full after h offset
          max_len i in
      let all =
        handle_download_all c api full pinner after node (some cfg) down (λ n. true) (λ n. refl) in
      let bytes =
        upload_then_download c api outboard crates uuid codec full hashing pin_codec registry
          pin_codec-ok backend state t node cfg announcement chunks offset max_len (λ n. true)
          {s = s} may reads found same H bound fresh (λ n. refl) in
      rw put (refl, read ∙ ap ok (rw named (sym all ∙ bytes)))
