-- ===== src/Blob/Rpc.antt =====
-- The messages of the blob protocol (s5_blobs/src/rpc.rs) and its access rules (config.rs).
use s5_rs.Base.{ℕ, Bytes, Bool, false, Option, none, List, []}
use s5_rs.BTreeMap.{BTreeMap}
use s5_rs.Blob.Location.{BlobLocation}

pub record PinBlob : Type 0 where
  pub hash : Bytes

pub record DeleteBlob : Type 0 where
  pub hash : Bytes

pub record UploadBlob : Type 0 where
  pub expected_hash : Bytes
  pub size : ℕ

pub record DownloadBlob : Type 0 where
  pub hash : Bytes
  pub offset : ℕ
  pub max_len : Option ℕ

pub record QueryResponse : Type 0 where
  pub exists : Bool
  pub size : Option ℕ
  pub locations : List BlobLocation
  pub actual_hash : Option Bytes

-- `QueryResponse::default`.
abbrev pub no_response : QueryResponse
no_response = record { exists = false; size = none; locations = []; actual_hash = none }

pub record Query : Type 0 where
  pub hash : Bytes
  pub location_types : BTreeMap ℕ (Unit {0})
  pub blinded : Bool

pub record PeerConfigBlobs : Type 0 where
  pub readable_stores : List Bytes
  pub store_uploads_in : Option Bytes

-- `RpcProto`. An upload comes with the chunks that the client streams.
pub data RpcProto : Type 0 where
  query : Query → RpcProto
  upload_blob : UploadBlob → List Bytes → RpcProto
  download_blob : DownloadBlob → RpcProto
  delete_blob : DeleteBlob → RpcProto
  pin_blob : PinBlob → RpcProto
