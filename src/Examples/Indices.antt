-- ===== src/Examples/Indices.antt =====
-- A snapshot taken at a time whose text is already a name.
use s5_rs.Base.{
  ℕ, zero, suc, ◌≡◌, refl, Bytes, false, some, [], ◌∷◌, ◌++◌, replicate, is_same, if◌then◌else◌,
  bytes_ord, cmp_bytes, arith,
}
use s5_rs.BTreeMap
use s5_rs.BTreeMap.{contains_key}
use s5_rs.Fs.Dir.{new_dir}
use s5_rs.Fs.SnapshotIndex.{SnapshotIndex, Time, snapshot_ref, insert_snapshot, remove_snapshot}
use s5_rs.Fs.SnapshotIndex.Names.{Distinct, insert_snapshot_lem}

abbrev numbered : Bytes → ℕ → Bytes
numbered base n = base ++ (45 ∷ n ∷ [])

abbrev second : Time
second = record { to_rfc3339 = 50 ∷ []; timestamp = 2; timestamp_subsec_nanos = 0 }

abbrev one_snapshot : SnapshotIndex
one_snapshot = record {
  path = [];
  dir = record new_dir { dirs = (50 ∷ [], snapshot_ref (replicate 32 1) second) ∷ [] };
}

names-Distinct : Distinct numbered (50 ∷ [])
unfolding cmp_bytes
names-Distinct zero zero h = refl
names-Distinct zero (suc j) h = absurd (ground (arith, h))
names-Distinct (suc i) zero h = absurd (ground (arith, h))
names-Distinct (suc i) (suc j) h = ground (arith, h)

insert_snapshot_example :
    (after : SnapshotIndex) × (name : Bytes) × (insert_snapshot numbered one_snapshot
        (replicate 32 2)
        second
      ≡ some (after, (name, replicate 32 2)))
    × (contains_key one_snapshot.dir.dirs name ≡ false)
    × ((k : Bytes)
        → BTreeMap.get after.dir.dirs k ≡ (
            if is_same name k
            then some (snapshot_ref (replicate 32 2) second)
            else BTreeMap.get one_snapshot.dir.dirs k))
    × (remove_snapshot after name ≡ (one_snapshot, some (replicate 32 2)))
insert_snapshot_example =
    insert_snapshot_lem numbered one_snapshot (replicate 32 2) second names-Distinct (omega arith)
