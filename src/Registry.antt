-- ===== src/Registry.antt =====
-- Registries: the trait `RegistryApi` (s5_core/src/stream/mod.rs) as a record of operations that
-- pass the state of the registry along, and its in-memory implementation
-- (s5_registry/src/lib.rs).
pub mod Contract
pub mod Convergence
pub mod Redb
pub mod Backed
pub mod Tee
pub mod Multi
pub mod Remote
use s5_rs.Base.{ℕ, Bytes, Option, none, some, Result, ok, err, if◌then◌else◌}
use s5_rs.BTreeMap
use s5_rs.BTreeMap.{BTreeMap}
use s5_rs.Store.{StoreError}
use s5_rs.Stream.{StreamKey, StreamMessage, StreamMessageError}
use s5_rs.Stream.Keys.{stream_key_ord}
use s5_rs.Stream.Ranking.{should_store}

-- `anyhow::Error`, by where it comes from.
pub data RegistryError : Type 0 where
  undecodable : StreamMessageError → RegistryError
  store_failed : StoreError → RegistryError
  backend : ℕ → RegistryError
  quorum_not_met : ℕ → ℕ → RegistryError

abbrev pub Outcome : Type 0 → Type 0
Outcome S = Result RegistryError (Unit {0}) × S

-- `trait RegistryApi`. A call that changes the registry returns the registry after it, with the
-- result, also where the result is an error.
pub record RegistryApi (S : Type 0) : Type 0 where
  pub get : S → StreamKey → Result RegistryError (Option StreamMessage)
  pub set : S → StreamMessage → Outcome S
  pub delete : S → StreamKey → Outcome S

-- `MemoryRegistry`.
abbrev pub MemoryRegistry : Type 0
MemoryRegistry = BTreeMap StreamKey StreamMessage

unfoldable pub memory_get : MemoryRegistry → StreamKey → Result RegistryError (Option StreamMessage)
memory_get r key = ok (BTreeMap.get r key)

unfoldable pub memory_set : MemoryRegistry → StreamMessage → Outcome MemoryRegistry
memory_set r message =
    if should_store message (BTreeMap.get r message.key)
    then (ok tt, BTreeMap.insert r message.key message)
    else (ok tt, r)

unfoldable pub memory_delete : MemoryRegistry → StreamKey → Outcome MemoryRegistry
memory_delete r key = (ok tt, BTreeMap.remove r key)

abbrev pub memory_registry : RegistryApi MemoryRegistry
memory_registry = record { get = memory_get; set = memory_set; delete = memory_delete }
