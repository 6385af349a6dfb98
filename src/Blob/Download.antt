-- ===== src/Blob/Download.antt =====
-- What `handle_download` (s5_blobs/src/net_protocol.rs) sends: the choice of a store, and the loop
-- that sends a range in chunks.
pub mod Range
use s5_rs.Base.{
  ℕ, zero, suc, ◌+◌, ◌-◌, min, Bytes, Bool, true, false, Option, none, some, List, [], ◌∷◌, ok, err,
  if◌then◌else◌, ltb, is_empty, length, bytes_ord,
}
use s5_rs.BTreeMap
use s5_rs.BTreeMap.{BTreeMap}
use s5_rs.Store.{Store}
use s5_rs.Blob.Paths.{HashCodec}
use s5_rs.Blob.Rpc.{DownloadBlob}
use s5_rs.Blob.Store as BlobStore

abbrev pub chunk_size : ℕ
chunk_size = 65536

-- `to_send`, from the bytes that follow the offset.
abbrev pub bytes_to_send : Option ℕ → ℕ → ℕ
bytes_to_send (some m) rest = min m rest
bytes_to_send none rest = rest

module _ {S : Type 0} (c : HashCodec) (api : Store S) where
  -- The first readable store that holds the blob, and its size of it.
  unfoldable pub find_store : BTreeMap Bytes S → Bytes → List Bytes → Option (S × Option ℕ)
  find_store stores hash [] = none
  find_store stores hash (name ∷ names) =
      let rest = find_store stores hash names in
      elim (BTreeMap.get stores name) [
        | none ↦ rest
        | some s ↦ elim (BlobStore.contains c api s hash) [
          | ok true ↦ some (s, elim (BlobStore.size c api s hash) [ ok n ↦ some n | err e ↦ none ])
          | ok false ↦ rest
          | err e ↦ rest
        ]
      ]

  -- The loop of `handle_download`: `listens n` tells whether the receiver still takes a chunk after
  -- `n` bytes. Each turn sends a byte or more, so `to_send` turns are enough.
  unfoldable pub send_chunks : S → Bytes → (ℕ → Bool) → ℕ → ℕ → ℕ → ℕ → List Bytes
  send_chunks s hash listens offset to_send zero sent = []
  send_chunks s hash listens offset to_send (suc fuel) sent =
      if ltb sent to_send
      then elim (BlobStore.read_as_bytes c api s hash (offset + sent)
          (some (min chunk_size (to_send - sent)))) [
            | err e ↦ []
            | ok bytes ↦
                if is_empty bytes
                then []
                else if listens sent
                then bytes ∷ send_chunks s hash listens offset to_send fuel (sent + length bytes)
                else []
          ]
      else []

  -- `handle_download` after the checks.
  unfoldable pub send_range : S → DownloadBlob → (ℕ → Bool) → ℕ → List Bytes
  send_range s req listens size =
      if ltb size req.offset
      then []
      else let n = bytes_to_send req.max_len (size - req.offset) in
        send_chunks s req.hash listens req.offset n n 0
