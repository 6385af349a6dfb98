-- ===== src/Examples/Serving.antt =====
-- A server with one in-memory store, to which one peer uploads a blob. The hash of some bytes is 32
-- times their number, and there is no outboard data.
use s5_rs.Base.{
  cmp_bytes, ℕ, zero, suc, ◌%◌, ◌≡◌, refl, Bytes, IsBytes, true, false, Option, some, none, List,
  [], ◌∷◌, ◌++◌, ok, err, map, concat, length, replicate, arith, length-replicate, if◌then◌else◌,
  is_same, ◌&&◌, bytes_ord, is_empty, unwrap_or, ◌⊎◌, is_some,
}
use s5_rs.BTreeMap
use s5_rs.BTreeMap.{BTreeMap}
use s5_rs.Stream.{IsArray}
use s5_rs.Store.{temp_path}
use s5_rs.Store.Memory.{MemoryStore, memory_store}
use s5_rs.Store.Memory.Laws.{memory_full_contract}
use s5_rs.Registry.{MemoryRegistry, memory_registry}
use s5_rs.Registry.Contract.{memory_registry-IsRegistry}
use s5_rs.Pins.{node_id, registry_pinner, PinsApi, PinError, pin_ord}
use s5_rs.Pins.Unpin.{Unpinned}
use s5_rs.Stream.Keys.{table_key_cmp}
use s5_rs.Blob.Store.{blob_path}
use s5_rs.Blob.Store.Laws.{blob_file}
use s5_rs.Blob.Import.{Hashing, import_stream}
use s5_rs.Blob.Import.Laws.{IsHashing, import_stream_lem}
use s5_rs.Blob.Rpc.{PeerConfigBlobs, UploadBlob, delete_blob}
use s5_rs.Blob.Download.Range.{part}
use s5_rs.Blob.Server.{
  wildcard, State, Peer, handle_upload, handle_download, handle_delete, cfg_for, hash_size_mismatch,
  accept,
}
use s5_rs.Blob.Server.Reading.{granted, handle_download_all, handle_download_prefix}
use s5_rs.Blob.Server.Access.{denial, changes, may_write, RuleFor, of_all, only_rule, accept-access}
use s5_rs.Blob.Server.Removal.{blob_at, handle_delete_lem}
use s5_rs.Blob.Server.Upload.{handle_upload_mismatch}
use s5_rs.Blob.Server.Session.{upload_then_download}
use s5_rs.Blob.Paths.{blob_path_for_hash}
use s5_rs.Blob.Client.{Connection, direct}
use s5_rs.Blob.Remote.{features}
use s5_rs.Blob.Remote.Session.{remote, remote_write_then_read}
use s5_rs.Blob.Fetcher.{BlobSource, local, fetch}
use s5_rs.Blob.Fetcher.Outcome.{Outcome, fetch_lem}
use s5_rs.Examples.Sweeps.{codec, codec-IsHashCodec, a_hash, a_hash-IsArray}
use s5_rs.Examples.Pinning.{
  pin_codec, pin_codec-IsPinCodec, no_pins, empty-HoldsTable, pinned, after_pin, one_pin,
  one_pin-HoldsTable, pinned-IsArray,
}

abbrev hash_of : Bytes → Bytes
hash_of b = replicate 32 (length b % 256)

abbrev crates : Hashing
crates = record { blake3 = hash_of; create_sized = λ b n. ok (hash_of b, []) }

replicate-IsBytes : (k n : ℕ) → IsBytes (replicate k (n % 256))
replicate-IsBytes zero n = tt
replicate-IsBytes (suc k) n = (omega arith, replicate-IsBytes k n)

crates-IsHashing : IsHashing crates
crates-IsHashing = record {
  hash_array = λ b. record {
    len = length-replicate 32 (length b % 256);
    bytes = replicate-IsBytes 32 (length b);
  };
  sized = λ b. ([], refl);
}

abbrev name : Bytes
name = 109 ∷ []

abbrev rules : PeerConfigBlobs
rules = record { readable_stores = name ∷ []; store_uploads_in = some name }

abbrev fresh : State MemoryStore MemoryRegistry
fresh = record { stores = (name, []) ∷ []; pins = [] }

abbrev chunks : List Bytes
chunks = (1 ∷ 2 ∷ []) ∷ (3 ∷ []) ∷ []

abbrev announcement : UploadBlob
announcement = record { expected_hash = replicate 32 3; size = 3 }

abbrev pinner : Option (PinsApi MemoryRegistry PinError)
pinner = some (registry_pinner pin_codec memory_registry)

upload_then_download_example :
    concat (
      handle_download codec memory_store pinner
        (handle_upload codec memory_store true crates [] pinner fresh pinned
          (some rules)
          announcement
          chunks).1
        pinned
        (some rules)
        (record { hash = replicate 32 3; offset = 1; max_len = some 5 })
        (λ n. true))
    ≡ part (some 5) (2 ∷ 3 ∷ [])
upload_then_download_example =
    upload_then_download codec memory_store true crates [] codec-IsHashCodec memory_full_contract
      crates-IsHashing pin_codec memory_registry pin_codec-IsPinCodec memory_registry-IsRegistry
      fresh no_pins pinned rules announcement chunks 1 (some 5) (λ n. true) {s = []} refl refl
      (unfold BTreeMap.get cmp_bytes in refl) (unfold cmp_bytes in refl) empty-HoldsTable
      (omega arith) (unfold BTreeMap.get cmp_bytes in refl) (λ n. refl)

-- The contents of the hash of three bytes in the store of the server.
abbrev three : BTreeMap Bytes MemoryStore → Option Bytes
three stores =
    blob_at codec memory_store true codec-IsHashCodec memory_full_contract.basic stores name
      (replicate 32 3)

three-IsArray : IsArray 32 (replicate 32 3)
three-IsArray = record { len = refl; bytes = ground arith }

-- An upload of other bytes than announced.
abbrev wrong : UploadBlob
wrong = record { expected_hash = replicate 32 9; size = 3 }

handle_upload_mismatch_example :
    let r =
      handle_upload codec memory_store true crates [] pinner fresh pinned
        (some rules)
        wrong
        chunks in
    (r.0 ≡ err hash_size_mismatch)
    × (r.1.pins ≡ [])
    × (three r.1.stores ≡ (
        if is_same {K = Bytes} name name && is_same {K = Bytes} (replicate 32 3) (replicate 32 3)
        then none
        else three fresh.stores))
handle_upload_mismatch_example =
    handle_upload_mismatch codec memory_store true crates [] codec-IsHashCodec memory_full_contract
      crates-IsHashing pinner fresh pinned rules wrong chunks {s = []} name (replicate 32 3) refl
      (unfold BTreeMap.get cmp_bytes in refl) (unfold cmp_bytes in refl) three-IsArray

-- A server that holds a blob which its own file system pins, and a peer that asks to delete it.
abbrev held : State MemoryStore MemoryRegistry
held = record {
  stores = (name, (blob_path codec memory_store (replicate 32 5), 7 ∷ []) ∷ []) ∷ [];
  pins = after_pin;
}

handle_delete_example :
    let left = BTreeMap.remove (one_pin pinned).0 (node_id pinned) in
    let r =
      handle_delete codec memory_store true pinner held pinned
        (some rules)
        (record { hash = pinned }) in
    let at = λ (stores : BTreeMap Bytes MemoryStore).
      blob_at codec memory_store true codec-IsHashCodec memory_full_contract.basic stores name
        pinned in
    (r.0 ≡ ok (is_empty left))
    × Unpinned pin_codec memory_registry one_pin pinned (node_id pinned) r.1.pins
    × (at r.1.stores
        ≡ (if is_empty left && is_same {K = Bytes} pinned pinned then none else at held.stores))
handle_delete_example =
    handle_delete_lem codec memory_store true codec-IsHashCodec memory_full_contract.basic pin_codec
      memory_registry pin_codec-IsPinCodec memory_registry-IsRegistry held one_pin pinned rules
      (record { hash = pinned }) name pinned refl one_pin-HoldsTable pinned-IsArray pinned-IsArray
      (unfold BTreeMap.get BTreeMap.insert cmp_bytes table_key_cmp in omega arith)

abbrev no_pinner : Option (PinsApi MemoryRegistry PinError)
no_pinner = none

handle_download_all_example :
    concat (
      handle_download codec memory_store no_pinner held pinned
        (some rules)
        (record { hash = pinned; offset = 0; max_len = none })
        (λ n. true))
    ≡ granted codec memory_store memory_full_contract no_pinner held pinned
        (some rules)
        (record { hash = pinned; offset = 0; max_len = none })
handle_download_all_example =
    handle_download_all codec memory_store memory_full_contract no_pinner held pinned (some rules)
      (record { hash = pinned; offset = 0; max_len = none }) (λ n. true) (λ n. refl)

handle_download_prefix_example :
    (after : Bytes) × (concat (
          handle_download codec memory_store pinner held pinned
            (some rules)
            (record { hash = pinned; offset = 0; max_len = none })
            (λ n. false))
        ++ after
      ≡ granted codec memory_store memory_full_contract pinner held pinned
          (some rules)
          (record { hash = pinned; offset = 0; max_len = none }))
handle_download_prefix_example =
    handle_download_prefix codec memory_store memory_full_contract pinner held pinned (some rules)
      (record { hash = pinned; offset = 0; max_len = none }) (λ n. false)

abbrev stranger : Peer
stranger = record { node_key = 1 ∷ []; node_id_bytes = pinned }

-- The rule of everyone names no store for uploads.
abbrev all_rules : BTreeMap Bytes PeerConfigBlobs
all_rules = (wildcard, record rules { store_uploads_in = none }) ∷ []

stranger-RuleFor :
    RuleFor all_rules stranger.node_key (some (record rules { store_uploads_in = none }))
unfolding BTreeMap.get cmp_bytes
stranger-RuleFor = of_all _ refl refl

accept-access_example :
    let r =
      accept codec memory_store true crates [] pinner all_rules stranger
        (λ n. true)
        held
        (delete_blob (record { hash = pinned })) in
    let rule = some (record rules { store_uploads_in = none }) in
    (r
      ≡ accept codec memory_store true crates [] pinner
          (only_rule stranger.node_key rule)
          stranger
          (λ n. true)
          held
          (delete_blob (record { hash = pinned })))
    × ((r.1 ≡ held)
        ⊎ ((changes (delete_blob (record { hash = pinned })) ≡ true) × (may_write rule ≡ true)))
    × ((r ≡ (denial (delete_blob (record { hash = pinned })), held)) ⊎ (is_some rule ≡ true))
accept-access_example =
    accept-access codec memory_store true crates [] pinner all_rules stranger (λ n. true) held
      (delete_blob (record { hash = pinned })) (some (record rules { store_uploads_in = none }))
      stranger-RuleFor

import_stream_example :
    let r = import_stream codec memory_store true crates [] [] (map ok chunks) in
    let file = blob_file codec memory_store true codec-IsHashCodec memory_full_contract.basic in
    (r.0 ≡ ok (record { hash = replicate 32 3; size = 3 }))
    × (file r.1 a_hash ≡ (
        if is_same {K = Bytes} (replicate 32 3) a_hash
        then some (unwrap_or (file [] (replicate 32 3)) (1 ∷ 2 ∷ 3 ∷ []))
        else file [] a_hash))
    × (memory_full_contract.basic.file r.1 (temp_path []) ≡ none)
import_stream_example =
    import_stream_lem codec memory_store true crates [] codec-IsHashCodec memory_full_contract
      crates-IsHashing [] chunks a_hash a_hash-IsArray

-- A client of the server, the store that it makes of it, and a fetcher that tries both.
abbrev me : Peer
me = record { node_key = 1 ∷ []; node_id_bytes = pinned }

abbrev peers : BTreeMap Bytes PeerConfigBlobs
peers = (wildcard, rules) ∷ []

abbrev link : Connection (State MemoryStore MemoryRegistry) PinError
link = direct codec memory_store true crates [] pinner peers me

remote_write_then_read_example :
    let store = remote codec memory_store true crates [] pinner peers me in
    let path = blob_path_for_hash codec (replicate 32 3) features in
    let put = store.put_stream fresh path (map ok chunks) in
    (put.0 ≡ ok tt)
    × (store.open_read_bytes put.1 path 1 (some 1) ≡ ok (part (some 1) (2 ∷ 3 ∷ [])))
remote_write_then_read_example =
    remote_write_then_read codec memory_store true crates [] peers me codec-IsHashCodec
      memory_full_contract crates-IsHashing pin_codec memory_registry pin_codec-IsPinCodec
      memory_registry-IsRegistry fresh no_pins rules chunks 1 (some 1) {s = []}
      (unfold cfg_for BTreeMap.get cmp_bytes in refl) refl refl
      (unfold BTreeMap.get cmp_bytes in refl) empty-HoldsTable (omega arith)
      (unfold BTreeMap.get cmp_bytes in refl)

abbrev sources : List (BlobSource MemoryStore (State MemoryStore MemoryRegistry))
sources = local (1 ∷ []) [] ∷ BlobSource.remote (2 ∷ []) held ∷ []

fetch_example :
    Outcome codec memory_store link pinned sources (fetch codec memory_store link sources pinned)
fetch_example = fetch_lem codec memory_store link pinned sources
