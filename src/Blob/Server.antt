-- ===== src/Blob/Server.antt =====
-- `BlobsServer` (s5_blobs/src/net_protocol.rs). Every named store is a `BlobStore` over one kind of
-- store. An answer is a value; its sending is not modelled, but that the receiver of a download
-- may hang up. The handlers of one connection run one after another.
pub mod Reading
pub mod Access
pub mod Removal
pub mod Upload
pub mod Session
use s5_rs.Base.{
  ℕ, Bytes, Bool, true, false, not, ◌||◌, Option, none, some, List, [], ◌∷◌, Result, ok, err,
  if◌then◌else◌, ◌==◌, is_none, map, bytes_ord, is_same,
}
use s5_rs.BTreeMap
use s5_rs.BTreeMap.{BTreeMap}
use s5_rs.Store.{Store, StoreError}
use s5_rs.Pins.{PinsApi, node_id}
use s5_rs.Blob.Paths.{HashCodec}
use s5_rs.Blob.Identifier.{BlobId}
use s5_rs.Blob.Import.{Hashing, import_stream}
use s5_rs.Blob.Rpc.{
  PinBlob, DeleteBlob, UploadBlob, DownloadBlob, QueryResponse, PeerConfigBlobs, RpcProto, query,
  upload_blob, download_blob, delete_blob, pin_blob,
}
use s5_rs.Blob.Query.{handle_query}
use s5_rs.Blob.Download.{find_store, send_range}
use s5_rs.Blob.Store as BlobStore

-- The stores and the pins of a server.
pub record State (S P : Type 0) : Type 0 where
  pub stores : BTreeMap Bytes S
  pub pins : P

-- The texts of the errors that the server answers, with the error that they quote.
pub data Refusal (E : Type 0) : Type 0 where
  permission_denied uploads_not_allowed pinning_not_allowed invalid_upload_store : Refusal E
  delete_not_allowed pinning_not_enabled hash_size_mismatch : Refusal E
  store_failed upload_failed : StoreError → Refusal E
  pinning_failed unpin_failed : E → Refusal E

-- What the server sends back for each kind of request.
pub data Answer (E : Type 0) : Type 0 where
  queried : QueryResponse → Answer E
  uploaded : Result (Refusal E) (Unit {0}) → Answer E
  downloaded : List Bytes → Answer E
  deleted pinned : Result (Refusal E) Bool → Answer E

-- "*".
abbrev pub wildcard : Bytes
wildcard = 42 ∷ []

-- `cfg_for`.
unfoldable pub cfg_for : BTreeMap Bytes PeerConfigBlobs → Bytes → Option PeerConfigBlobs
cfg_for peer_cfg node_key = elim (BTreeMap.get peer_cfg node_key) [
  | some cfg ↦ some cfg
  | none ↦ BTreeMap.get peer_cfg wildcard
]

module _ {E : Type 0} where
  -- `r.unwrap_or(false)` and `let Ok(true) = r`.
  abbrev pub says_true : Result E Bool → Bool
  says_true (ok b) = b
  says_true (err e) = false

-- What a connection knows of its peer: the key for the rules, and the bytes of the key.
pub record Peer : Type 0 where
  pub node_key : Bytes
  pub node_id_bytes : Bytes

module _ {P E : Type 0} (pinner : Option (PinsApi P E)) where
  -- `pinner.is_pinned(..).await.unwrap_or(false)`, true without a pinner.
  unfoldable pub may_download : P → Bytes → Bytes → Bool
  may_download pins hash node = elim pinner [
    | none ↦ true
    | some p ↦ says_true (p.pinned pins hash (node_id node))
  ]

  unfoldable pub pin_for : P → Bytes → Bytes → Result (Refusal E) (Unit {0}) × P
  pin_for pins hash node = elim pinner [
    | none ↦ (ok tt, pins)
    | some p ↦
        let r = p.pin pins hash (node_id node) in
        (elim r.0 [ ok _ ↦ ok tt | err e ↦ err (pinning_failed e) ], r.1)
  ]

module _ {S P E : Type 0} (c : HashCodec) (api : Store S) (pinner : Option (PinsApi P E)) where
  unfoldable pub handle_download :
      State S P → Bytes → Option PeerConfigBlobs → DownloadBlob → (ℕ → Bool) → List Bytes
  handle_download state node none req listens = []
  handle_download state node (some cfg) req listens =
      if not (may_download pinner state.pins req.hash node)
      then []
      else elim (find_store c api state.stores req.hash cfg.readable_stores) [
        | none ↦ []
        | some (s, none) ↦ []
        | some (s, some size) ↦ send_range c api s req listens size
      ]

  unfoldable pub handle_pin :
      State S P → Bytes → Option PeerConfigBlobs → PinBlob → Result (Refusal E) Bool × State S P
  handle_pin state node none req = (err permission_denied, state)
  handle_pin state node (some cfg) req = elim cfg.store_uploads_in [
    | none ↦ (err pinning_not_allowed, state)
    | some name ↦ elim (BTreeMap.get state.stores name) [
      | none ↦ (err invalid_upload_store, state)
      | some s ↦ elim (BlobStore.contains c api s req.hash) [
        | err e ↦ (err (store_failed e), state)
        | ok false ↦ (ok false, state)
        | ok true ↦
            let r = pin_for pinner state.pins req.hash node in
            (elim r.0 [ ok _ ↦ ok true | err e ↦ err e ], record state { pins = r.1 })
      ]
    ]
  ]

-- The handlers that import or delete blobs.
module _ {S : Type 0} (c : HashCodec) (api : Store S) (outboard : Bool) where
  -- The loop over all stores in `handle_delete`; errors are passed over.
  abbrev pub delete_everywhere : BTreeMap Bytes S → Bytes → BTreeMap Bytes S
  delete_everywhere [] hash = []
  delete_everywhere ((name, s) ∷ stores) hash =
      (name, (BlobStore.delete c api outboard s hash).1) ∷ delete_everywhere stores hash

module _ {S P E : Type 0} (c : HashCodec) (api : Store S) (outboard : Bool) where
  -- `handle_delete` with a pinner.
  unfoldable pub unpin_and_delete :
      PinsApi P E → State S P → Bytes → Bytes → Result (Refusal E) Bool × State S P
  unpin_and_delete p state node hash =
      let r = p.unpin state.pins hash (node_id node) in
      elim r.0 [
        | err e ↦ (err (unpin_failed e), record state { pins = r.1 })
        | ok true ↦ (
          ok true,
          record { stores = delete_everywhere c api outboard state.stores hash; pins = r.1 },
        )
        | ok false ↦ (ok false, record state { pins = r.1 })
      ]

module _ {S P E : Type 0} (c : HashCodec) (api : Store S) (outboard : Bool)
    (pinner : Option (PinsApi P E)) where
  -- `handle_upload` once the blob is in the store `name`, which is now `s`.
  unfoldable pub check_upload :
      State S P
      → Bytes
      → Bytes
      → S
      → UploadBlob
      → BlobId
      → Result (Refusal E) (Unit {0}) × State S P
  check_upload state node name s req blob =
      let without =
        BTreeMap.insert state.stores name (BlobStore.delete c api outboard s blob.hash).1 in
      if not (is_same blob.hash req.expected_hash) || not (blob.size == req.size)
      then (err hash_size_mismatch, record state { stores = without })
      else let r = pin_for pinner state.pins blob.hash node in
        elim r.0 [
          | err e ↦ (err e, record { stores = without; pins = r.1 })
          | ok _ ↦ (ok tt, record { stores = BTreeMap.insert state.stores name s; pins = r.1 })
        ]

  unfoldable pub handle_delete :
      State S P → Bytes → Option PeerConfigBlobs → DeleteBlob → Result (Refusal E) Bool × State S P
  handle_delete state node none req = (err permission_denied, state)
  handle_delete state node (some cfg) req =
      if is_none cfg.store_uploads_in then (err delete_not_allowed, state) else elim pinner [
        | none ↦ (err pinning_not_enabled, state)
        | some p ↦ unpin_and_delete c api outboard p state node req.hash
      ]

module _ {S P E : Type 0} (c : HashCodec) (api : Store S) (outboard : Bool) (crates : Hashing)
    (uuid : Bytes) (pinner : Option (PinsApi P E)) where
  unfoldable pub handle_upload :
      State S P
      → Bytes
      → Option PeerConfigBlobs
      → UploadBlob
      → List Bytes
      → Result (Refusal E) (Unit {0}) × State S P
  handle_upload state node none req chunks = (err permission_denied, state)
  handle_upload state node (some cfg) req chunks = elim cfg.store_uploads_in [
    | none ↦ (err uploads_not_allowed, state)
    | some name ↦ elim (BTreeMap.get state.stores name) [
      | none ↦ (err invalid_upload_store, state)
      | some s ↦
          let imported = import_stream c api outboard crates uuid s (map ok chunks) in
          elim imported.0 [
            | err e ↦ (
              err (upload_failed e),
              record state { stores = BTreeMap.insert state.stores name imported.1 },
            )
            | ok blob ↦ check_upload c api outboard pinner state node name imported.1 req blob
          ]
    ]
  ]

  -- One turn of the loop of `accept`, with the answer.
  unfoldable pub accept :
      BTreeMap Bytes PeerConfigBlobs
      → Peer
      → (ℕ → Bool)
      → State S P
      → RpcProto
      → Answer E × State S P
  accept peer_cfg peer listens state (query q) = (
    queried (handle_query c api crates.blake3 state.stores (cfg_for peer_cfg peer.node_key) q),
    state,
  )
  accept peer_cfg peer listens state (upload_blob req chunks) =
      let r = handle_upload state peer.node_id_bytes (cfg_for peer_cfg peer.node_key) req chunks in
      (uploaded r.0, r.1)
  accept peer_cfg peer listens state (download_blob req) = (
    downloaded (
        handle_download c api pinner state peer.node_id_bytes (cfg_for peer_cfg peer.node_key) req
          listens),
    state,
  )
  accept peer_cfg peer listens state (delete_blob req) =
      let r =
        handle_delete c api outboard pinner state peer.node_id_bytes
          (cfg_for peer_cfg peer.node_key) req in
      (deleted r.0, r.1)
  accept peer_cfg peer listens state (pin_blob req) =
      let r =
        handle_pin c api pinner state peer.node_id_bytes (cfg_for peer_cfg peer.node_key) req in
      (pinned r.0, r.1)
