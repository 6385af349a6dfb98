-- ===== src/Registry/Redb.antt =====
-- `RedbRegistry` (registries/redb/src/lib.rs): messages in their wire format, in one table. A
-- transaction is one call here: what it reads is the table as it was, and an error leaves that as
-- it is. Failures of the database itself are not modelled.
pub mod Refinement
use s5_rs.Base.{ℕ, Bytes, Option, none, some, Result, ok, err, map_err, ◌>>=◌, if◌then◌else◌}
use s5_rs.BTreeMap
use s5_rs.BTreeMap.{BTreeMap}
use s5_rs.Stream.{StreamKey, StreamMessage, to_bytes}
use s5_rs.Stream.Keys.{table_key_ord}
use s5_rs.Stream.Ranking.{should_store}
use s5_rs.Stream.Wire.{serialize, deserialize}
use s5_rs.Registry.{RegistryError, RegistryApi, Outcome, undecodable}

abbrev pub RedbTable : Type 0
RedbTable = BTreeMap (ℕ × Bytes) Bytes

-- `.map(|guard| StreamMessage::deserialize(..)).transpose()`.
unfoldable pub decode_entry : Option Bytes → Result RegistryError (Option StreamMessage)
decode_entry none = ok none
decode_entry (some b) = do m ← map_err undecodable (deserialize b); ok (some m)

unfoldable pub redb_get : RedbTable → StreamKey → Result RegistryError (Option StreamMessage)
redb_get t key = decode_entry (BTreeMap.get t (to_bytes key))

unfoldable pub redb_set : RedbTable → StreamMessage → Outcome RedbTable
redb_set t message = elim (decode_entry (BTreeMap.get t (to_bytes message.key))) [
  | err e ↦ (err e, t)
  | ok existing ↦
      if should_store message existing
      then (ok tt, BTreeMap.insert t (to_bytes message.key) (serialize message))
      else (ok tt, t)
]

unfoldable pub redb_delete : RedbTable → StreamKey → Outcome RedbTable
redb_delete t key = (ok tt, BTreeMap.remove t (to_bytes key))

abbrev pub redb_registry : RegistryApi RedbTable
redb_registry = record { get = redb_get; set = redb_set; delete = redb_delete }
