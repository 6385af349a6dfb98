-- ===== src/Blob/Server/Session.antt =====
-- An upload and a later download by the same peer (s5_blobs/src/net_protocol.rs).
use s5_rs.Base.{
  ℕ, ◌+◌, ◌<◌, ◌^◌, ◌≡◌, refl, ap, ◌∙◌, Bytes, Bool, true, Option, some, none, List, ◌∷◌, concat,
  is_same_refl, arith, bytes_ord, Option-cases, inl, inr, drop,
}
use s5_rs.BTreeMap
use s5_rs.BTreeMap.{BTreeMap, contains_key, get-insert_self}
use s5_rs.Store.{Store}
use s5_rs.Store.Contract.{IsFullStore}
use s5_rs.Stream.{IsArray}
use s5_rs.Registry.{RegistryApi}
use s5_rs.Registry.Contract.{IsRegistry}
use s5_rs.Pins.{PinCodec, pin_ord, node_id, registry_pinner}
use s5_rs.Pins.Entries.{IsPinCodec}
use s5_rs.Pins.Laws.{PinTable, HoldsTable, put_row, get_pinners_lem}
use s5_rs.Blob.Paths.{HashCodec}
use s5_rs.Blob.Paths.RoundTrip.{IsHashCodec}
use s5_rs.Blob.Store.{blob_path}
use s5_rs.Blob.Import.{Hashing}
use s5_rs.Blob.Import.Laws.{IsHashing}
use s5_rs.Blob.Rpc.{UploadBlob, DownloadBlob, PeerConfigBlobs}
use s5_rs.Blob.Download.Range.{part}
use s5_rs.Blob.Server.{State, handle_upload, handle_download}
use s5_rs.Blob.Server.Reading.{first_holder, granted_lem, is_entitled, handle_download_all}
use s5_rs.Blob.Server.Removal.{blob_at}
use s5_rs.Blob.Server.Upload.{is_announced, blob_of, handle_upload_ok}

module _ {S : Type 0} (c : HashCodec) (api : Store S) (outboard : Bool) (codec : IsHashCodec c)
    (full : IsFullStore api) where
  first_holder-blob_at :
      (stores : BTreeMap Bytes S) (hash name : Bytes) (names : List Bytes) {b : Bytes}
      → blob_at c api outboard codec full.basic stores name hash ≡ some b
      → (s : S) × (first_holder c api full stores hash (name ∷ names) ≡ some (s, b))
  unfolding first_holder
  first_holder-blob_at stores hash name names {b} h =
      elim (Option-cases (BTreeMap.get stores name)) [
        | inl e ↦ absurd (ground (arith, h, e))
        | inr (s, e) ↦
            let there : full.basic.file s (blob_path c api hash) ≡ some b = ground (arith, h, e) in
            (s, rw (first_holder, e, there) refl)
      ]

module _ {P : Type 0} (pin_codec : PinCodec) (registry : RegistryApi P)
    (pin_codec-ok : IsPinCodec pin_codec) (backend : IsRegistry registry) where
  -- A pin that has been put into the table lets its node download.
  pinned_row :
      (pins : P) (t : PinTable) (h node : Bytes)
      → HoldsTable pin_codec registry pins
          (put_row t h (BTreeMap.insert (t h).0 (node_id node) tt) ((t h).1 + 1))
      → IsArray 32 h
      → is_entitled (some (registry_pinner pin_codec registry)) pins h node ≡ true
  unfolding is_entitled
  pinned_row pins t h node held i =
      let row = put_row t h (BTreeMap.insert (t h).0 (node_id node) tt) ((t h).1 + 1) in
      let pin =
        (get_pinners_lem pin_codec registry pin_codec-ok backend pins row h (node_id node) held
          i).1 in
      rw (is_entitled, pin, is_same_refl h, get-insert_self (t h).0 (node_id node) tt) refl

module _ {S P : Type 0} (c : HashCodec) (api : Store S) (outboard : Bool) (crates : Hashing)
    (uuid : Bytes) (codec : IsHashCodec c) (full : IsFullStore api) (hashing : IsHashing crates)
    (pin_codec : PinCodec) (registry : RegistryApi P) (pin_codec-ok : IsPinCodec pin_codec)
    (backend : IsRegistry registry) where
  -- A peer that uploads a blob which its store does not hold, and whose first readable store is
  -- that one, gets from a later download exactly the range of the uploaded bytes that it asks for,
  -- while it listens: over every store, registry and codec that keep their contracts.
  pub upload_then_download :
      (state : State S P) (t : PinTable) (node : Bytes) (cfg : PeerConfigBlobs) (up : UploadBlob)
      (chunks : List Bytes) (offset : ℕ) (max_len : Option ℕ) (listens : ℕ → Bool) {name : Bytes}
      {s : S} {names : List Bytes}
      → cfg.store_uploads_in ≡ some name
      → cfg.readable_stores ≡ name ∷ names
      → BTreeMap.get state.stores name ≡ some s
      → is_announced up (blob_of c api outboard crates uuid codec full hashing chunks) ≡ true
      → HoldsTable pin_codec registry state.pins t
      → (t (crates.blake3 (concat chunks))).1 + 1 < 2 ^ 64
      → blob_at c api outboard codec full.basic state.stores name (crates.blake3 (concat chunks))
        ≡ none
      → ((n : ℕ) → listens n ≡ true)
      → let pinner = some (registry_pinner pin_codec registry) in
        let after =
          (handle_upload c api outboard crates uuid pinner state node (some cfg) up chunks).1 in
        let down : DownloadBlob = record {
          hash = crates.blake3 (concat chunks);
          offset = offset;
          max_len = max_len;
        } in
        concat (handle_download c api pinner after node (some cfg) down listens)
        ≡ part max_len (drop offset (concat chunks))
  unfolding is_entitled
  upload_then_download state t node cfg up chunks offset max_len listens {name} {s} {names} may
        reads found same H bound fresh on =
      let h = crates.blake3 (concat chunks) in
      let i = hashing.hash_array (concat chunks) in
      let pinner = some (registry_pinner pin_codec registry) in
      let r = handle_upload c api outboard crates uuid pinner state node (some cfg) up chunks in
      let down : DownloadBlob = record { hash = h; offset = offset; max_len = max_len } in
      let (done, held, blob) =
        handle_upload_ok c api outboard crates uuid codec full hashing pin_codec registry
          pin_codec-ok backend state t node cfg up chunks {up = name} {s = s} name h may found same
          H bound i in
      let there : blob_at c api outboard codec full.basic r.1.stores name h ≡ some (concat chunks) =
        ground (arith, blob, fresh, is_same_refl name, is_same_refl h) in
      let (s', holder) =
        first_holder-blob_at c api outboard codec full r.1.stores h name names there in
      handle_download_all c api full pinner r.1 node (some cfg) down listens on
      ∙ granted_lem c api full pinner r.1 node cfg down
          (pinned_row pin_codec registry pin_codec-ok backend r.1.pins t h node held i)
          (ap (first_holder c api full r.1.stores h) reads ∙ holder)
