-- ===== src/Blob/Remote/Laws.antt =====
-- A server behind the store of its client (s5_blobs/src/store_remote.rs, net_protocol.rs).
use s5_rs.Base.{
  keep, cmp_bytes, ℕ, ◌≡◌, refl, ap, ◌∙◌, Bytes, Bool, true, Option, List, [], ◌∷◌, ok, map, concat,
}
use s5_rs.BTreeMap.{BTreeMap}
use s5_rs.Stream.{IsArray}
use s5_rs.Store.{Store}
use s5_rs.Store.Contract.{IsFullStore}
use s5_rs.Pins.{PinsApi}
use s5_rs.Blob.Paths.{HashCodec, blob_path_for_hash, path_for_hash}
use s5_rs.Blob.Paths.RoundTrip.{IsHashCodec, keep-plain, no_slash}
use s5_rs.Blob.Import.{Hashing}
use s5_rs.Blob.Rpc.{DownloadBlob, PeerConfigBlobs}
use s5_rs.Blob.Server.{State, Peer, cfg_for, handle_download}
use s5_rs.Blob.Server.Reading.{granted, handle_download_all}
use s5_rs.Blob.Client.{receive, download, download_bytes, direct}
use s5_rs.Blob.Remote.{
  decode_hash, features, split_once, relevant, hash_from_path, open_read_bytes, remote_store,
}

module _ (c : HashCodec) (codec : IsHashCodec c) where
  relevant-blob_path_for_hash :
      (h : Bytes) → relevant (blob_path_for_hash c h features) ≡ c.base64_encode h
  unfolding relevant split_once blob_path_for_hash path_for_hash features cmp_bytes
  relevant-blob_path_for_hash h = refl

  -- The remote store finds the hash in the path of a blob.
  pub hash_from_path-blob_path_for_hash :
      (h : Bytes) → IsArray 32 h → hash_from_path c (blob_path_for_hash c h features) ≡ ok h
  unfolding hash_from_path
  hash_from_path-blob_path_for_hash h a =
      let text : keep no_slash (relevant (blob_path_for_hash c h features)) ≡ c.base64_encode h =
        ap (keep no_slash) (relevant-blob_path_for_hash h)
        ∙ keep-plain (c.base64_encode h) (codec.base64_plain h a) in
      ap (decode_hash c (blob_path_for_hash c h features)) text
      ∙ rw (decode_hash, codec.base64_round h a, a.len) refl

receive-map : (chunks : List Bytes) → receive (map ok chunks) ≡ ok (concat chunks)
unfolding receive
receive-map [] = refl
receive-map (b ∷ chunks) = rw (receive-map chunks) refl

module _ {S P E : Type 0} (c : HashCodec) (api : Store S) (outboard : Bool) (crates : Hashing)
    (uuid : Bytes) (pinner : Option (PinsApi P E)) (peer_cfg : BTreeMap Bytes PeerConfigBlobs)
    (peer : Peer) (codec : IsHashCodec c) (full : IsFullStore api) where
  -- Reading the path of a blob in the remote store gives exactly the bytes that the server grants
  -- to the peer, for a connection that does not fail.
  pub remote_reads :
      (state : State S P) (h : Bytes) (offset : ℕ) (max_len : Option ℕ)
      → IsArray 32 h
      → (remote_store c
            (direct c api outboard crates uuid pinner peer_cfg peer)
            crates.blake3).open_read_bytes
          state
          (blob_path_for_hash c h features)
          offset
          max_len
        ≡ ok (
            granted c api full pinner state peer.node_id_bytes
              (cfg_for peer_cfg peer.node_key)
              (record { hash = h; offset = offset; max_len = max_len }))
  unfolding open_read_bytes download_bytes download
  remote_reads state h offset max_len a =
      let req : DownloadBlob = record { hash = h; offset = offset; max_len = max_len } in
      let cfg = cfg_for peer_cfg peer.node_key in
      rw
        (
          hash_from_path-blob_path_for_hash c codec h a,
          receive-map (handle_download c api pinner state peer.node_id_bytes cfg req (λ n. true)),
          handle_download_all c api full pinner state peer.node_id_bytes cfg req (λ n. true)
              (λ n. refl),
        )
        refl
