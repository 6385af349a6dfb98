-- ===== src/Examples/Splits.antt =====
-- A directory with two files, which is split into one shard and then exported.
use s5_rs.Base.{
  ℕ, ◌≡◌, refl, Bytes, true, some, none, [], ◌∷◌, replicate, arith, subst, ap, sym, ◌∙◌, cmp_bytes,
  bytes_ord, nat_ord,
}
use s5_rs.BTreeMap
use s5_rs.BTreeMap.Sorted.{IsSorted}
use s5_rs.Fs.Dir.{DirV1, new_dir, DirRef, new_file}
use s5_rs.Fs.Sharding.{
  shard, bucket, shard_states_of, spread_files, spread_dirs, modify, stored_shards,
}
use s5_rs.Fs.Sharding.Split.{shard_state}
use s5_rs.Fs.Snapshots.{export_merged_snapshot}
use s5_rs.Fs.Snapshots.Joins.{Shows}
use s5_rs.Fs.Snapshots.Merged.{Answers, export-shard_state}

abbrev two_files : DirV1
two_files = record new_dir {
  files = (97 ∷ [], new_file (replicate 32 1) 1) ∷ (98 ∷ [], new_file (replicate 32 2) 2) ∷ [];
}

-- Every name falls into bucket 0.
abbrev first_bucket : Bytes → ℕ
first_bucket name = 512

abbrev shard_ref : DirRef
shard_ref = record {
  ref_type = none;
  hash = replicate 32 7;
  ts_seconds = none;
  ts_nanos = none;
  keys = none;
  encryption_type = none;
  extra = none;
}

-- The stored shard holds all of them.
two_files-shard : shard first_bucket 0 two_files ≡ (0, two_files) ∷ []
unfolding shard shard_states_of spread_files spread_dirs modify stored_shards bucket BTreeMap.insert
    cmp_bytes
two_files-shard = refl

two_files-IsSorted : IsSorted two_files.files
unfolding cmp_bytes
two_files-IsSorted = ((refl, tt), (tt, tt))

get_only : (x s : DirV1) (i : ℕ) → BTreeMap.get ((0, x) ∷ []) i ≡ some s → x ≡ s
unfolding BTreeMap.get
get_only x s i h = ground (arith, h)

two_files-Shows : Shows two_files two_files
two_files-Shows = record {
  dirs_IsSorted = tt;
  files_IsSorted = two_files-IsSorted;
  same_dirs = λ k. refl;
  same_files = λ k. refl;
}

two_files-Answers : Answers first_bucket 0 two_files (λ i. some two_files)
two_files-Answers i s h =
    let same = get_only two_files s i (ap (λ m. BTreeMap.get m i) (sym two_files-shard) ∙ h) in
    (two_files, refl, subst (λ x. Shows two_files x) same two_files-Shows)

export-shard_state_example :
    let r = shard_state (λ i s. some shard_ref) first_bucket 0 two_files in
    (r.1 ≡ true)
    × ((m : DirV1) × (export_merged_snapshot (λ i. some two_files) r.0 ≡ some m)
        × Shows m two_files
        × (m.header.shards ≡ none))
export-shard_state_example =
    export-shard_state first_bucket 0 two_files (λ i. some two_files) (λ i s. some shard_ref) tt
      two_files-IsSorted refl refl (λ i s. (shard_ref, refl)) two_files-Answers
