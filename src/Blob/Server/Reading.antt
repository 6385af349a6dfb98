-- ===== src/Blob/Server/Reading.antt =====
-- What a peer reads from a server (s5_blobs/src/net_protocol.rs, handle_download).
use s5_rs.Base.{
  false, ok, err, ℕ, ◌≡◌, refl, Bytes, Bool, true, Option, some, none, List, [], ◌∷◌, ◌++◌, length,
  concat, if◌then◌else◌, arith, bytes_ord, Bool-cases, Option-cases, inl, inr,
}
use s5_rs.BTreeMap
use s5_rs.BTreeMap.{BTreeMap}
use s5_rs.Store.{Store}
use s5_rs.Store.Contract.{IsFullStore}
use s5_rs.Pins.{PinsApi, node_id}
use s5_rs.Blob.Paths.{HashCodec}
use s5_rs.Blob.Store.{blob_path, contains, size}
use s5_rs.Blob.Rpc.{DownloadBlob, PeerConfigBlobs}
use s5_rs.Blob.Download.{find_store}
use s5_rs.Blob.Download.Range.{asked, send_range_all, send_range_prefix}
use s5_rs.Blob.Server.{State, may_download, handle_download}

module _ {S : Type 0} (c : HashCodec) (api : Store S) (full : IsFullStore api) where
  -- The first of the named stores that holds a blob of a hash, with the blob.
  unfoldable pub first_holder : BTreeMap Bytes S → Bytes → List Bytes → Option (S × Bytes)
  first_holder stores hash [] = none
  first_holder stores hash (name ∷ names) =
      let rest = first_holder stores hash names in
      elim (BTreeMap.get stores name) [
        | none ↦ rest
        | some s ↦ elim (full.basic.file s (blob_path c api hash)) [
          | some b ↦ some (s, b)
          | none ↦ rest
        ]
      ]

  first_holder-file :
      (stores : BTreeMap Bytes S) (hash : Bytes) (names : List Bytes) {s : S} {b : Bytes}
      → first_holder stores hash names ≡ some (s, b)
      → full.basic.file s (blob_path c api hash) ≡ some b
  unfolding first_holder
  first_holder-file stores hash [] h = absurd (ground (arith, h))
  first_holder-file stores hash (name ∷ names) {s} {b} h =
      ground (arith, h, first_holder-file stores hash names {s = s} {b = b})

  abbrev sized : Option (S × Bytes) → Option (S × Option ℕ)
  sized none = none
  sized (some (s, b)) = some (s, some (length b))

  find_store-first_holder :
      (stores : BTreeMap Bytes S) (hash : Bytes) (names : List Bytes)
      → find_store c api stores hash names ≡ sized (first_holder stores hash names)
  unfolding find_store first_holder contains size
  find_store-first_holder stores hash [] = refl
  find_store-first_holder stores hash (name ∷ names) =
      let ih = find_store-first_holder stores hash names in
      elim (Option-cases (BTreeMap.get stores name)) [
        | inl e ↦ rw (e, find_store, first_holder) ih
        | inr (s, e) ↦ elim (Option-cases (full.basic.file s (blob_path c api hash))) [
          | inl f ↦ ground (arith, e, full.basic.exists_lem s (blob_path c api hash), f, ih)
          | inr (b, f) ↦ ground (
            arith,
            e,
            full.basic.exists_lem s (blob_path c api hash),
            f,
            full.size_lem s (blob_path c api hash) f,
          )
        ]
      ]

module _ {P E : Type 0} (pinner : Option (PinsApi P E)) where
  -- Without a pinner every peer, else those of which the pinner knows that they pin the blob.
  unfoldable pub is_entitled : P → Bytes → Bytes → Bool
  is_entitled pins hash node = elim pinner [
    | none ↦ true
    | some p ↦ elim (p.pinned pins hash (node_id node)) [ ok b ↦ b | err e ↦ false ]
  ]

  may_download-is_entitled :
      (pins : P) (hash node : Bytes)
      → may_download pinner pins hash node ≡ is_entitled pins hash node
  unfolding may_download is_entitled
  may_download-is_entitled pins hash node = ground arith

module _ {S P E : Type 0} (c : HashCodec) (api : Store S) (full : IsFullStore api)
    (pinner : Option (PinsApi P E)) where
  -- The bytes that a peer is to get: those asked for of the blob in the first of its readable
  -- stores that holds it, if the peer pins the blob or the server has no pinner.
  unfoldable pub granted : State S P → Bytes → Option PeerConfigBlobs → DownloadBlob → Bytes
  granted state node none req = []
  granted state node (some cfg) req =
      if is_entitled pinner state.pins req.hash node
      then elim (first_holder c api full state.stores req.hash cfg.readable_stores) [
        | none ↦ []
        | some (s, b) ↦ asked req b
      ]
      else []

  pub granted_lem :
      (state : State S P) (node : Bytes) (cfg : PeerConfigBlobs) (req : DownloadBlob) {s : S}
      {b : Bytes}
      → is_entitled pinner state.pins req.hash node ≡ true
      → first_holder c api full state.stores req.hash cfg.readable_stores ≡ some (s, b)
      → granted state node (some cfg) req ≡ asked req b
  unfolding granted
  granted_lem state node cfg req may found = rw (may, found) refl

  -- A receiver that listens to the end gets all the bytes granted to it: the loop over chunks
  -- ends, having sent the whole range.
  pub handle_download_all :
      (state : State S P) (node : Bytes) (cfg : Option PeerConfigBlobs) (req : DownloadBlob)
      (listens : ℕ → Bool)
      → ((n : ℕ) → listens n ≡ true)
      → concat (handle_download c api pinner state node cfg req listens)
        ≡ granted state node cfg req
  unfolding handle_download granted
  handle_download_all state node none req listens on = refl
  handle_download_all state node (some cfg) req listens on =
      let names = cfg.readable_stores in
      let found = find_store-first_holder c api full state.stores req.hash names in
      let entitled = may_download-is_entitled pinner state.pins req.hash node in
      elim (Bool-cases (is_entitled pinner state.pins req.hash node)) [
        | inr n ↦ rw (entitled, n) refl
        | inl p ↦ elim (Option-cases (first_holder c api full state.stores req.hash names)) [
          | inl e ↦ rw (entitled, p, found, e) refl
          | inr ((s, b), e) ↦
              rw (entitled, p, found, e)
                (send_range_all c api full s req listens b
                  (first_holder-file c api full state.stores req.hash names e) on)
        ]
      ]

  -- Whatever the receiver of a download does, it gets a first part of the bytes granted to it and
  -- no others: the range asked for of the blob in the first of its readable stores that holds it,
  -- if it has an entry in the rules and pins the blob, or the server has no pinner; otherwise
  -- nothing.
  pub handle_download_prefix :
      (state : State S P) (node : Bytes) (cfg : Option PeerConfigBlobs) (req : DownloadBlob)
      (listens : ℕ → Bool)
      → (after : Bytes) × (concat (handle_download c api pinner state node cfg req listens) ++ after
          ≡ granted state node cfg req)
  unfolding handle_download granted
  handle_download_prefix state node none req listens = ([], refl)
  handle_download_prefix state node (some cfg) req listens =
      let names = cfg.readable_stores in
      let found = find_store-first_holder c api full state.stores req.hash names in
      let entitled = may_download-is_entitled pinner state.pins req.hash node in
      elim (Bool-cases (is_entitled pinner state.pins req.hash node)) [
        | inr n ↦ ([], rw (entitled, n) refl)
        | inl p ↦ elim (Option-cases (first_holder c api full state.stores req.hash names)) [
          | inl e ↦ ([], rw (entitled, p, found, e) refl)
          | inr ((s, b), e) ↦
              let (after, same) =
                send_range_prefix c api full s req listens b
                  (first_holder-file c api full state.stores req.hash names e) in
              (after, rw (entitled, p, found, e) same)
        ]
      ]
