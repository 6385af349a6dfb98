-- ===== src/Blob/Client.antt =====
-- `Client` of the blob protocol (s5_blobs/src/client.rs) over a connection, which the `irpc` crate
-- provides: it delivers a request and its typed answer, or fails.
use s5_rs.Base.{
  ℕ, Bytes, Bool, true, false, Option, none, some, List, [], ◌∷◌, ◌++◌, Result, ok, err, map, ◌>>=◌,
  map_err, length, concat,
}
use s5_rs.BTreeMap.{BTreeMap}
use s5_rs.Store.{Store, StoreError}
use s5_rs.Pins.{PinsApi}
use s5_rs.Blob.Paths.{HashCodec}
use s5_rs.Blob.Identifier.{BlobId}
use s5_rs.Blob.Import.{Hashing}
use s5_rs.Blob.Rpc.{
  PinBlob, DeleteBlob, UploadBlob, DownloadBlob, QueryResponse, Query, PeerConfigBlobs,
}
use s5_rs.Blob.Query.{handle_query}
use s5_rs.Blob.Server.{
  State, Refusal, Peer, cfg_for, handle_upload, handle_download, handle_delete, handle_pin,
}

-- `irpc::Error`.
pub data RpcError : Type 0 where
  disconnected : RpcError

-- `IrpcClient<RpcProto>`: the requests that a client can send, over the state `T` of the other end.
pub record Connection (T E : Type 0) : Type 0 where
  pub send_query : T → Query → Result RpcError QueryResponse
  pub send_upload :
      T → UploadBlob → List Bytes → Result RpcError (Result (Refusal E) (Unit {0})) × T
  pub send_download : T → DownloadBlob → Result RpcError (List (Result RpcError Bytes))
  pub send_delete : T → DeleteBlob → Result RpcError (Result (Refusal E) Bool) × T
  pub send_pin : T → PinBlob → Result RpcError (Result (Refusal E) Bool) × T

-- The errors that the methods of `Client` return.
pub data ClientError (E : Type 0) : Type 0 where
  rpc_failed : RpcError → ClientError E
  refused : Refusal E → ClientError E
  size_unavailable size_mismatch stream_failed : ClientError E

-- The loop of `download_bytes` over the receiver.
unfoldable pub receive : List (Result RpcError Bytes) → Result RpcError Bytes
receive [] = ok []
receive (ok chunk ∷ rest) = do bytes ← receive rest; ok (chunk ++ bytes)
receive (err e ∷ rest) = err e

-- The chunks of a stream, or its first error.
unfoldable pub gather : List (Result StoreError Bytes) → Result StoreError (List Bytes)
gather [] = ok []
gather (ok chunk ∷ rest) = do chunks ← gather rest; ok (chunk ∷ chunks)
gather (err e ∷ rest) = err e

module _ {T E : Type 0} (conn : Connection T E) where
  unfoldable pub delete_blob : T → Bytes → Result RpcError (Result (Refusal E) Bool) × T
  delete_blob t hash = conn.send_delete t (record { hash = hash })

  unfoldable pub pin_blob : T → Bytes → Result RpcError (Result (Refusal E) Bool) × T
  pin_blob t hash = conn.send_pin t (record { hash = hash })

  unfoldable pub query : T → Bytes → BTreeMap ℕ (Unit {0}) → Result RpcError QueryResponse
  query t hash types =
      conn.send_query t (record { hash = hash; location_types = types; blinded = false })

  unfoldable pub query_blinded : T → Bytes → BTreeMap ℕ (Unit {0}) → Result RpcError QueryResponse
  query_blinded t blinded_hash types =
      conn.send_query t (record { hash = blinded_hash; location_types = types; blinded = true })

  unfoldable pub download :
      T → Bytes → ℕ → Option ℕ → Result RpcError (List (Result RpcError Bytes))
  download t hash offset max_len =
      conn.send_download t (record { hash = hash; offset = offset; max_len = max_len })

  unfoldable pub download_bytes : T → Bytes → ℕ → Option ℕ → Result RpcError Bytes
  download_bytes t hash offset max_len = do
    receiver ← download t hash offset max_len
    receive receiver

  -- The answer to an upload, where the hash and the size are those announced.
  unfoldable pub upload_chunks : T → Bytes → ℕ → List Bytes → Result (ClientError E) (Unit {0}) × T
  upload_chunks t hash size chunks =
      let r = conn.send_upload t (record { expected_hash = hash; size = size }) chunks in
      (
        elim r.0 [ err e ↦ err (rpc_failed e) | ok (err e) ↦ err (refused e) | ok (ok _) ↦ ok tt ],
        r.1,
      )

  unfoldable pub upload_bytes : (Bytes → Bytes) → T → Bytes → Result (ClientError E) (Bytes × ℕ) × T
  upload_bytes blake3 t bytes =
      let r = upload_chunks t (blake3 bytes) (length bytes) (bytes ∷ []) in
      (elim r.0 [ err e ↦ err e | ok _ ↦ ok (blake3 bytes, length bytes) ], r.1)

  -- `impl BlobsRead for Client`.
  unfoldable pub blob_contains : T → Bytes → Result (ClientError E) Bool
  blob_contains t hash = do resp ← map_err rpc_failed (query t hash []); ok resp.exists

  unfoldable pub blob_get_size : T → Bytes → Result (ClientError E) ℕ
  blob_get_size t hash = do
    resp ← map_err rpc_failed (query t hash [])
    elim resp.size [ some n ↦ ok n | none ↦ err size_unavailable ]

  unfoldable pub blob_download_slice : T → Bytes → ℕ → Option ℕ → Result (ClientError E) Bytes
  blob_download_slice t hash offset max_len =
      map_err rpc_failed (download_bytes t hash offset max_len)

  unfoldable pub blob_download : T → Bytes → Result (ClientError E) Bytes
  blob_download t hash = blob_download_slice t hash 0 none

  -- `impl BlobsWrite for Client`.
  unfoldable pub blob_upload_bytes : (Bytes → Bytes) → T → Bytes → Result (ClientError E) BlobId × T
  blob_upload_bytes blake3 t bytes =
      let r = upload_chunks t (blake3 bytes) (length bytes) (bytes ∷ []) in
      (
        elim r.0 [
          | err e ↦ err e
          | ok _ ↦ ok (record { hash = blake3 bytes; size = length bytes })
        ],
        r.1,
      )

  -- A stream is read to its end before the upload; its first error ends that.
  unfoldable pub blob_upload_stream :
      (Bytes → Bytes) → T → List (Result StoreError Bytes) → Result (ClientError E) BlobId × T
  blob_upload_stream blake3 t stream = elim (gather stream) [
    | err e ↦ (err stream_failed, t)
    | ok chunks ↦
        let id : BlobId = record { hash = blake3 (concat chunks); size = length (concat chunks) } in
        let r = upload_chunks t id.hash id.size chunks in
        (elim r.0 [ err e ↦ err e | ok _ ↦ ok id ], r.1)
  ]

-- A connection that does not fail, to a `BlobsServer` (the loop of `accept`), for a client that
-- takes every chunk.
module _ {S P E : Type 0} (c : HashCodec) (api : Store S) (outboard : Bool) (crates : Hashing)
    (uuid : Bytes) (pinner : Option (PinsApi P E)) (peer_cfg : BTreeMap Bytes PeerConfigBlobs)
    (peer : Peer) where
  abbrev rules : Option PeerConfigBlobs
  rules = cfg_for peer_cfg peer.node_key

  abbrev pub direct : Connection (State S P) E
  direct = record {
    send_query = λ t q. ok (handle_query c api crates.blake3 t.stores rules q);
    send_upload = λ t req chunks.
        let r =
          handle_upload c api outboard crates uuid pinner t peer.node_id_bytes rules req chunks in
        (ok r.0, r.1);
    send_download = λ t req.
        ok (map ok (handle_download c api pinner t peer.node_id_bytes rules req (λ n. true)));
    send_delete = λ t req.
        let r = handle_delete c api outboard pinner t peer.node_id_bytes rules req in (ok r.0, r.1);
    send_pin =
        λ t req. let r = handle_pin c api pinner t peer.node_id_bytes rules req in (ok r.0, r.1);
  }
