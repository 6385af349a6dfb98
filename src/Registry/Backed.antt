-- ===== src/Registry/Backed.antt =====
-- `StoreRegistry` (registries/store/src/lib.rs): one file for each key, over any store. `hex` is
-- `hex::encode` of the `hex` crate.
pub mod Refinement
use s5_rs.Base.{
  ℕ, Bytes, Option, none, some, [], ◌∷◌, ◌++◌, Result, ok, err, map_err, ◌>>=◌, if◌then◌else◌,
}
use s5_rs.Store.{Store, StoreError}
use s5_rs.Stream.{StreamKey, StreamMessage, to_bytes}
use s5_rs.Stream.Ranking.{should_store}
use s5_rs.Stream.Wire.{serialize, deserialize}
use s5_rs.Registry.{RegistryError, RegistryApi, Outcome, undecodable, store_failed}

module _ {S : Type 0} (api : Store S) (hex : Bytes → Bytes) (prefix : Bytes) where
  -- `key_path`: the prefix, a slash, and the hex form of the key's type and bytes.
  unfoldable pub key_path : StreamKey → Bytes
  key_path key = prefix ++ b'/' ∷ hex ((to_bytes key).0 ∷ (to_bytes key).1)

  -- Any failure to read counts as a missing entry.
  unfoldable pub backed_get : S → StreamKey → Result RegistryError (Option StreamMessage)
  backed_get s key = elim (api.open_read_bytes s (key_path key) 0 none) [
    | ok bytes ↦ do message ← map_err undecodable (deserialize bytes); ok (some message)
    | err _ ↦ ok none
  ]

  unfoldable pub backed_put : S → StreamMessage → Outcome S
  backed_put s message =
      let (result, s') = api.put_bytes s (key_path message.key) (serialize message) in
      (map_err store_failed result, s')

  unfoldable pub backed_set : S → StreamMessage → Outcome S
  backed_set s message = elim (backed_get s message.key) [
    | err e ↦ (err e, s)
    | ok existing ↦ if should_store message existing then backed_put s message else (ok tt, s)
  ]

  unfoldable pub backed_delete : S → StreamKey → Outcome S
  backed_delete s key =
      let (result, s') = api.delete s (key_path key) in (map_err store_failed result, s')

  abbrev pub backed_registry : RegistryApi S
  backed_registry = record { get = backed_get; set = backed_set; delete = backed_delete }
