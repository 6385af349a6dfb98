-- ===== src/Fs/SnapshotIndex.antt =====
-- The index of snapshots (s5_fs/src/snapshots.rs). The current time, its text and the formatting of
-- numbered names are parameters; the file that holds the index is not modelled.
pub mod Names
use s5_rs.Base.{
  ℕ, zero, suc, ◌+◌, Bytes, Option, none, some, List, map, length, if◌then◌else◌, bytes_ord,
}
use s5_rs.BTreeMap
use s5_rs.BTreeMap.{BTreeMap, contains_key}
use s5_rs.Fs.Dir.{DirV1, DirRef, saturating_add32}

pub record SnapshotIndex : Type 0 where
  pub path : Bytes
  pub dir : DirV1

-- `Utc::now()`: its text, seconds and nanoseconds.
pub record Time : Type 0 where
  pub to_rfc3339 : Bytes
  pub timestamp : ℕ
  pub timestamp_subsec_nanos : ℕ

abbrev pub list : SnapshotIndex → List (Bytes × Bytes)
list index = map (λ e. (e.0, e.1.hash)) index.dir.dirs

abbrev pub snapshot_ref : Bytes → Time → DirRef
snapshot_ref hash now = record {
  ref_type = none;
  hash = hash;
  ts_seconds = some now.timestamp;
  ts_nanos = some now.timestamp_subsec_nanos;
  keys = none;
  encryption_type = none;
  extra = none;
}

-- `numbered base n` is `format!("{}-{}", base, n)`.
module _ (numbered : Bytes → ℕ → Bytes) where
  -- The loop of `insert_snapshot`, on fuel: the first name that is free.
  unfoldable pub free_name : ℕ → BTreeMap Bytes DirRef → Bytes → Bytes → ℕ → Option Bytes
  free_name zero dirs base_name name counter = none
  free_name (suc fuel) dirs base_name name counter =
      let next =
        free_name fuel dirs base_name (numbered base_name counter) (saturating_add32 counter 1) in
      if contains_key dirs name then next else some name

  abbrev pub with_snapshot : SnapshotIndex → Bytes → DirRef → SnapshotIndex
  with_snapshot index name dir_ref = record index {
    dir = record index.dir { dirs = BTreeMap.insert index.dir.dirs name dir_ref };
  }

  -- None if the fuel, one more than the number of snapshots, runs out.
  unfoldable pub insert_snapshot :
      SnapshotIndex → Bytes → Time → Option (SnapshotIndex × (Bytes × Bytes))
  insert_snapshot index hash now =
      let base_name = now.to_rfc3339 in
      let dirs = index.dir.dirs in
      elim (free_name (suc (length dirs)) dirs base_name base_name 1) [
        | none ↦ none
        | some name ↦ some (with_snapshot index name (snapshot_ref hash now), (name, hash))
      ]

abbrev pub hash_of : Option DirRef → Option Bytes
hash_of none = none
hash_of (some d) = some d.hash

unfoldable pub remove_snapshot : SnapshotIndex → Bytes → SnapshotIndex × Option Bytes
remove_snapshot index name = (
  record index { dir = record index.dir { dirs = BTreeMap.remove index.dir.dirs name } },
  hash_of (BTreeMap.get index.dir.dirs name),
)
