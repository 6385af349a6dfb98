-- ===== src/Blob/Query.antt =====
-- Answers to queries (s5_blobs/src/net_protocol.rs: handle_query, find_blob_by_blinded_hash).
use s5_rs.Base.{
  Bytes, true, false, Option, none, some, List, [], ◌∷◌, ◌++◌, ok, err, if◌then◌else◌, bytes_ord,
  is_same,
}
use s5_rs.BTreeMap
use s5_rs.BTreeMap.{BTreeMap}
use s5_rs.Store.{Store}
use s5_rs.Blob.Paths.{HashCodec}
use s5_rs.Blob.Rpc.{QueryResponse, no_response, Query, PeerConfigBlobs}
use s5_rs.Blob.Store as BlobStore

module _ {S : Type 0} (c : HashCodec) (api : Store S) where
  -- The first of the hashes whose own hash is the blinded one.
  unfoldable pub find_blinded : (Bytes → Bytes) → List Bytes → Bytes → Option Bytes
  find_blinded blake3 [] blinded = none
  find_blinded blake3 (hash ∷ hashes) blinded =
      let rest = find_blinded blake3 hashes blinded in
      if is_same (blake3 hash) blinded then some hash else rest

  unfoldable pub find_blob_by_blinded_hash : (Bytes → Bytes) → S → Bytes → Option Bytes
  find_blob_by_blinded_hash blake3 s blinded = elim (BlobStore.list_hashes c api s) [
    | err e ↦ none
    | ok hashes ↦ find_blinded blake3 hashes blinded
  ]

  -- What a store that holds the blob adds to the response.
  unfoldable pub describe : QueryResponse → S → Bytes → QueryResponse
  describe resp s hash = record resp {
    exists = true;
    size = elim resp.size [
      | some n ↦ some n
      | none ↦ elim (BlobStore.size c api s hash) [ ok n ↦ some n | err e ↦ none ]
    ];
    locations = elim (BlobStore.provide c api s hash) [
      | ok locs ↦ resp.locations ++ locs
      | err e ↦ resp.locations
    ];
  }

  -- The loop of a normal query: every readable store that holds the blob.
  unfoldable pub query_stores :
      BTreeMap Bytes S → Bytes → List Bytes → QueryResponse → QueryResponse
  query_stores stores hash [] resp = resp
  query_stores stores hash (name ∷ names) resp = elim (BTreeMap.get stores name) [
    | none ↦ query_stores stores hash names resp
    | some s ↦ elim (BlobStore.contains c api s hash) [
      | ok true ↦ query_stores stores hash names (describe resp s hash)
      | ok false ↦ query_stores stores hash names resp
      | err e ↦ query_stores stores hash names resp
    ]
  ]

  -- The loop of a blinded query: the first readable store that holds a blob of that kind.
  unfoldable pub query_blinded :
      (Bytes → Bytes) → BTreeMap Bytes S → Bytes → List Bytes → QueryResponse → QueryResponse
  query_blinded blake3 stores blinded [] resp = resp
  query_blinded blake3 stores blinded (name ∷ names) resp = elim (BTreeMap.get stores name) [
    | none ↦ query_blinded blake3 stores blinded names resp
    | some s ↦ elim (find_blob_by_blinded_hash blake3 s blinded) [
      | none ↦ query_blinded blake3 stores blinded names resp
      | some hash ↦ record (describe resp s hash) { actual_hash = some hash }
    ]
  ]

  unfoldable pub handle_query :
      (Bytes → Bytes) → BTreeMap Bytes S → Option PeerConfigBlobs → Query → QueryResponse
  handle_query blake3 stores none q = no_response
  handle_query blake3 stores (some cfg) q =
      if q.blinded
      then query_blinded blake3 stores q.hash cfg.readable_stores no_response
      else query_stores stores q.hash cfg.readable_stores no_response
