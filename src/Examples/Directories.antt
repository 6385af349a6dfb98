-- ===== src/Examples/Directories.antt =====
-- Two replicas of a directory that hold the name "a", a file on one and a directory on the other; and
-- a directory that is split.
use s5_rs.Base.{
  ℕ, ◌≡◌, refl, inl, inr, Bytes, none, some, [], ◌∷◌, replicate, arith, nat_ord, bytes_ord,
  cmp_bytes,
}
use s5_rs.BTreeMap
use s5_rs.Fs.Dir.{DirRef, FileRef, new_file, from_deleted}
use s5_rs.Fs.Merge.{Entries, file_ts, dir_ts, merge_entries_local}
use s5_rs.Fs.Merge.Entry.{
  entry_at, option_dir, option_file, last_write, IsExclusive, merge_entries_local_lem,
}
use s5_rs.Fs.Merge.Convergence.{IsReplica, merge_replica, merge_replica_comm, merge_replica_tie}
use s5_rs.Fs.Merge.Handles.{HandlesOpen, KeepsHandles, merge_entries_local-Handles}

abbrev a : Bytes
a = 97 ∷ []

-- The file, deleted at second `s`.
abbrev gone_at : ℕ → FileRef
gone_at s = from_deleted (new_file (replicate 32 5) 10) s 0

-- The directory, written at second `s`.
abbrev dir_at : ℕ → DirRef
dir_at s = record {
  ref_type = none;
  hash = replicate 32 6;
  ts_seconds = some s;
  ts_nanos = none;
  keys = none;
  encryption_type = none;
  extra = none;
}

abbrev with_file : ℕ → Entries
with_file s = record { dirs = []; files = (a, gone_at s) ∷ []; dir_handles = [] }

abbrev with_dir : ℕ → Entries
with_dir s = record { dirs = (a, dir_at s) ∷ []; files = []; dir_handles = [] }

with_file-IsReplica : (s : ℕ) → IsReplica (with_file s)
unfolding BTreeMap.get
with_file-IsReplica s = record {
  exclusive = λ k. inl refl;
  sorted_dirs = tt;
  sorted_files = (tt, tt);
}

with_dir-IsReplica : (s : ℕ) → IsReplica (with_dir s)
unfolding BTreeMap.get
with_dir-IsReplica s = record {
  exclusive = λ k. inr refl;
  sorted_dirs = (tt, tt);
  sorted_files = tt;
}

merge_entries_local_example :
    IsExclusive (merge_entries_local (with_file 3) (with_dir 5).dirs [])
    × ((k : Bytes)
        → entry_at (merge_entries_local (with_file 3) (with_dir 5).dirs []) k
          ≡ last_write
              (last_write
                (entry_at (with_file 3) k)
                (option_dir (BTreeMap.get (with_dir 5).dirs k)))
              (option_file (BTreeMap.get {K = Bytes} [] k)))
merge_entries_local_example =
    merge_entries_local_lem (with_file 3) (with_dir 5).dirs [] (with_file-IsReplica 3).exclusive
      (with_dir-IsReplica 5).sorted_dirs tt

merge_replica_comm_example :
    entry_at (merge_replica (with_file 3) (with_dir 5)) a
    ≡ entry_at (merge_replica (with_dir 5) (with_file 3)) a
merge_replica_comm_example =
    merge_replica_comm (with_file 3) (with_dir 5) a (with_file-IsReplica 3) (with_dir-IsReplica 5)
      (unfold BTreeMap.get cmp_bytes file_ts dir_ts from_deleted new_file in λ h k e. ground arith)

merge_replica_tie_example :
    (entry_at (merge_replica (with_file 5) (with_dir 5)) a ≡ entry_at (with_file 5) a)
    × (entry_at (merge_replica (with_dir 5) (with_file 5)) a ≡ entry_at (with_dir 5) a)
merge_replica_tie_example =
    merge_replica_tie (with_file 5) (with_dir 5) a (with_file-IsReplica 5) (with_dir-IsReplica 5)
      (unfold BTreeMap.get cmp_bytes in λ h. ground arith)
      (unfold BTreeMap.get cmp_bytes in λ h. ground arith)
      (unfold BTreeMap.get cmp_bytes file_ts dir_ts from_deleted new_file in refl)

merge_entries_local-Handles_example :
    HandlesOpen (merge_entries_local (with_dir 5) (with_dir 7).dirs [])
    × KeepsHandles (with_dir 5) (merge_entries_local (with_dir 5) (with_dir 7).dirs [])
merge_entries_local-Handles_example =
    merge_entries_local-Handles (with_dir 5) (with_dir 7).dirs []
      (unfold BTreeMap.get in λ k h. refl)
