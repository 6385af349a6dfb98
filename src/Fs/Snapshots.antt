-- ===== src/Fs/Snapshots.antt =====
-- The flat view of a directory with shards (s5_fs/src/actor/snapshots.rs). What the actor of a shard
-- answers, or none where it fails, is a parameter: it is the export of that shard.
pub mod Joins
pub mod Merged
use s5_rs.Base.{ℕ, Option, none, some, [], ◌∷◌, bytes_ord, Ord, ◌>>=◌}
use s5_rs.BTreeMap
use s5_rs.BTreeMap.{BTreeMap}
use s5_rs.Fs.Dir.{DirV1, DirRef}

-- The loops that insert all entries of a map into another.
module _ {ℓ κ} {K : Type ℓ} {V : Type κ} ⦃o : Ord K⦄ where
  unfoldable pub insert_all : BTreeMap K V → BTreeMap K V → BTreeMap K V
  insert_all m [] = m
  insert_all m ((k, v) ∷ entries) = insert_all (BTreeMap.insert m k v) entries

-- The entries of a shard put into those merged so far.
abbrev pub joined : DirV1 → DirV1 → DirV1
joined merged shard_snapshot = record merged {
  dirs = insert_all merged.dirs shard_snapshot.dirs;
  files = insert_all merged.files shard_snapshot.files;
}

module _ (answer : ℕ → Option DirV1) where
  -- The loop over `header.shards`.
  unfoldable pub merge_shards : BTreeMap ℕ DirRef → DirV1 → Option DirV1
  merge_shards [] merged = some merged
  merge_shards ((index, dir_ref) ∷ shards) merged = elim (answer index) [
    | none ↦ none
    | some shard_snapshot ↦ merge_shards shards (joined merged shard_snapshot)
  ]

  abbrev pub merge_children : Option (BTreeMap ℕ DirRef) → DirV1 → Option DirV1
  merge_children none merged = some merged
  merge_children (some shards) merged = merge_shards shards merged

  -- The merged view without what the header tells of shards.
  abbrev pub flat : DirV1 → DirV1
  flat merged = record merged {
    header = record merged.header { shard_level = none; shards = none };
  }

  unfoldable pub export_merged_snapshot : DirV1 → Option DirV1
  export_merged_snapshot state = elim (merge_children state.header.shards state) [
    | none ↦ none
    | some merged ↦ some (flat merged)
  ]
