-- ===== src/Fs/Merge/Entry.antt =====
-- Merging (s5_fs/src/actor/merge.rs), name by name.
use s5_rs.Base.{
  ℕ, ◌≡◌, ◌⊎◌, ap, ◌∙◌, Bytes, Option, none, some, [], ◌∷◌, ltb, if◌then◌else◌, bytes_ord, is_same,
  arith, cmp_bytes-eq,
}
use s5_rs.BTreeMap
use s5_rs.BTreeMap.{BTreeMap, get-insert, get-remove}
use s5_rs.BTreeMap.Sorted.{IsSorted, get-Above}
use s5_rs.Fs.Dir.{DirRef, FileRef}
use s5_rs.Fs.Merge.{
  dir_ts, file_ts, Entries, merge_dir, merge_file, merge_dirs, merge_files, merge_entries_local,
}

-- What stands at a name.
pub data Entry : Type 0 where
  missing : Entry
  dir : DirRef → Entry
  file : FileRef → Entry

abbrev pub as_entry : Option DirRef → Option FileRef → Entry
as_entry none none = missing
as_entry none (some f) = file f
as_entry (some d) o = dir d

abbrev pub entry_at : Entries → Bytes → Entry
entry_at s k = as_entry (BTreeMap.get s.dirs k) (BTreeMap.get s.files k)

abbrev pub option_dir : Option DirRef → Entry
option_dir none = missing
option_dir (some d) = dir d

abbrev pub option_file : Option FileRef → Entry
option_file none = missing
option_file (some f) = file f

-- The timestamp of an entry.
abbrev pub entry_ts : Entry → ℕ
entry_ts missing = 0
entry_ts (dir d) = dir_ts d
entry_ts (file f) = file_ts f

-- Last write wins: the remote entry replaces the local one if its timestamp is later.
unfoldable pub last_write : Entry → Entry → Entry
last_write l missing = l
last_write missing r = r
last_write l r = if ltb (entry_ts l) (entry_ts r) then r else l

-- A name is a directory or a file, not both.
abbrev pub IsExclusive : Entries → Type 0
IsExclusive s = (k : Bytes) → (BTreeMap.get s.dirs k ≡ none) ⊎ (BTreeMap.get s.files k ≡ none)

merge_dir-Entry :
    (s : Entries) (n : Bytes) (d : DirRef) (k : Bytes)
    → IsExclusive s
    → entry_at (merge_dir s n d) k
      ≡ (if is_same n k then last_write (entry_at s k) (dir d) else entry_at s k)
unfolding merge_dir last_write
merge_dir-Entry s n d k x =
    ground (arith, x n, x k, get-insert s.dirs n k d, get-remove s.files n k, cmp_bytes-eq n k)

merge_dir-IsExclusive :
    (s : Entries) (n : Bytes) (d : DirRef) → IsExclusive s → IsExclusive (merge_dir s n d)
unfolding merge_dir
merge_dir-IsExclusive s n d x k =
    ground (arith, x n, x k, get-insert s.dirs n k d, get-remove s.files n k, cmp_bytes-eq n k)

merge_file-Entry :
    (s : Entries) (n : Bytes) (f : FileRef) (k : Bytes)
    → IsExclusive s
    → entry_at (merge_file s n f) k
      ≡ (if is_same n k then last_write (entry_at s k) (file f) else entry_at s k)
unfolding merge_file last_write
merge_file-Entry s n f k x =
    ground (arith, x n, x k, get-insert s.files n k f, get-remove s.dirs n k, cmp_bytes-eq n k)

merge_file-IsExclusive :
    (s : Entries) (n : Bytes) (f : FileRef) → IsExclusive s → IsExclusive (merge_file s n f)
unfolding merge_file
merge_file-IsExclusive s n f x k =
    ground (arith, x n, x k, get-insert s.files n k f, get-remove s.dirs n k, cmp_bytes-eq n k)

merge_dirs-Entry :
    (s : Entries) (ds : BTreeMap Bytes DirRef) (k : Bytes)
    → IsExclusive s
    → IsSorted ds
    → entry_at (merge_dirs s ds) k ≡ last_write (entry_at s k) (option_dir (BTreeMap.get ds k))
unfolding merge_dirs last_write BTreeMap.get
merge_dirs-Entry s [] k x o = ground arith
merge_dirs-Entry s ((n, d) ∷ ds) k x o = ground (
  arith,
  merge_dirs-Entry (merge_dir s n d) ds k (merge_dir-IsExclusive s n d x) o.1,
  merge_dir-Entry s n d k x,
  get-Above n ds o.0,
  cmp_bytes-eq n k,
)

merge_dirs-IsExclusive :
    (s : Entries) (ds : BTreeMap Bytes DirRef) → IsExclusive s → IsExclusive (merge_dirs s ds)
unfolding merge_dirs
merge_dirs-IsExclusive s [] x = x
merge_dirs-IsExclusive s ((n, d) ∷ ds) x =
    merge_dirs-IsExclusive (merge_dir s n d) ds (merge_dir-IsExclusive s n d x)

merge_files-Entry :
    (s : Entries) (fs : BTreeMap Bytes FileRef) (k : Bytes)
    → IsExclusive s
    → IsSorted fs
    → entry_at (merge_files s fs) k ≡ last_write (entry_at s k) (option_file (BTreeMap.get fs k))
unfolding merge_files last_write BTreeMap.get
merge_files-Entry s [] k x o = ground arith
merge_files-Entry s ((n, f) ∷ fs) k x o = ground (
  arith,
  merge_files-Entry (merge_file s n f) fs k (merge_file-IsExclusive s n f x) o.1,
  merge_file-Entry s n f k x,
  get-Above n fs o.0,
  cmp_bytes-eq n k,
)

merge_files-IsExclusive :
    (s : Entries) (fs : BTreeMap Bytes FileRef) → IsExclusive s → IsExclusive (merge_files s fs)
unfolding merge_files
merge_files-IsExclusive s [] x = x
merge_files-IsExclusive s ((n, f) ∷ fs) x =
    merge_files-IsExclusive (merge_file s n f) fs (merge_file-IsExclusive s n f x)

-- For sorted remote maps and a directory that holds no name as both a directory and a file, a
-- merge keeps that so, and leaves at each name the last write among the local entry, the remote
-- directory and the remote file.
pub merge_entries_local_lem :
    (s : Entries) (ds : BTreeMap Bytes DirRef) (fs : BTreeMap Bytes FileRef)
    → IsExclusive s
    → IsSorted ds
    → IsSorted fs
    → IsExclusive (merge_entries_local s ds fs)
      × ((k : Bytes)
          → entry_at (merge_entries_local s ds fs) k
            ≡ last_write
                (last_write (entry_at s k) (option_dir (BTreeMap.get ds k)))
                (option_file (BTreeMap.get fs k)))
unfolding merge_entries_local
merge_entries_local_lem s ds fs x od of =
    let x' = merge_dirs-IsExclusive s ds x in
    (
      merge_files-IsExclusive (merge_dirs s ds) fs x',
      λ k.
          merge_files-Entry (merge_dirs s ds) fs k x' of
          ∙ ap (λ e. last_write e (option_file (BTreeMap.get fs k))) (merge_dirs-Entry s ds k x od),
    )
