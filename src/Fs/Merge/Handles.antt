-- ===== src/Fs/Merge/Handles.antt =====
-- The handles of open children in a merge (s5_fs/src/actor/merge.rs).
use s5_rs.Base.{ℕ, ◌≡◌, refl, ◌∙◌, Bytes, none, some, [], ◌∷◌, bytes_ord, arith, cmp_bytes-eq}
use s5_rs.BTreeMap
use s5_rs.BTreeMap.{BTreeMap, get-insert, get-remove}
use s5_rs.Fs.Dir.{DirRef, FileRef}
use s5_rs.Fs.Merge.{Entries, merge_dir, merge_file, merge_dirs, merge_files, merge_entries_local}

-- A handle is open only for a directory that is there.
abbrev pub HandlesOpen : Entries → Type 0
HandlesOpen s = (k : Bytes) → BTreeMap.get s.dirs k ≡ none → BTreeMap.get s.dir_handles k ≡ none

-- From `s` to `t`, a handle that is still there is the handle of the same directory.
abbrev pub KeepsHandles : Entries → Entries → Type 0
KeepsHandles s t =
    (k : Bytes) (h : ℕ)
    → BTreeMap.get t.dir_handles k ≡ some h
    → (BTreeMap.get s.dir_handles k ≡ some h) × (BTreeMap.get t.dirs k ≡ BTreeMap.get s.dirs k)

merge_dir-HandlesOpen :
    (s : Entries) (n : Bytes) (d : DirRef) → HandlesOpen s → HandlesOpen (merge_dir s n d)
unfolding merge_dir
merge_dir-HandlesOpen s n d o k h =
    ground (arith, o k, get-insert s.dirs n k d, get-remove s.dir_handles n k)

merge_dir-KeepsHandles :
    (s : Entries) (n : Bytes) (d : DirRef) → HandlesOpen s → KeepsHandles s (merge_dir s n d)
unfolding merge_dir
merge_dir-KeepsHandles s n d o k h e =
    ground (arith, o k, get-insert s.dirs n k d, get-remove s.dir_handles n k, cmp_bytes-eq n k)

merge_file-HandlesOpen :
    (s : Entries) (n : Bytes) (f : FileRef) → HandlesOpen s → HandlesOpen (merge_file s n f)
unfolding merge_file
merge_file-HandlesOpen s n f o k h =
    ground (arith, o k, get-remove s.dirs n k, get-remove s.dir_handles n k)

merge_file-KeepsHandles :
    (s : Entries) (n : Bytes) (f : FileRef) → HandlesOpen s → KeepsHandles s (merge_file s n f)
unfolding merge_file
merge_file-KeepsHandles s n f o k h e =
    ground (arith, o k, get-remove s.dirs n k, get-remove s.dir_handles n k, cmp_bytes-eq n k)

KeepsHandles-trans : (s t u : Entries) → KeepsHandles s t → KeepsHandles t u → KeepsHandles s u
KeepsHandles-trans s t u f g k h e =
    let (e', d') = g k h e in let (e'', d'') = f k h e' in (e'', d' ∙ d'')

merge_dirs-Handles :
    (s : Entries) (ds : BTreeMap Bytes DirRef)
    → HandlesOpen s
    → HandlesOpen (merge_dirs s ds) × KeepsHandles s (merge_dirs s ds)
unfolding merge_dirs
merge_dirs-Handles s [] o = (o, λ k h e. (e, refl))
merge_dirs-Handles s ((n, d) ∷ ds) o =
    let (o', keeps) = merge_dirs-Handles (merge_dir s n d) ds (merge_dir-HandlesOpen s n d o) in
    (
      o',
      KeepsHandles-trans s (merge_dir s n d) (merge_dirs (merge_dir s n d) ds)
          (merge_dir-KeepsHandles s n d o) keeps,
    )

merge_files-Handles :
    (s : Entries) (fs : BTreeMap Bytes FileRef)
    → HandlesOpen s
    → HandlesOpen (merge_files s fs) × KeepsHandles s (merge_files s fs)
unfolding merge_files
merge_files-Handles s [] o = (o, λ k h e. (e, refl))
merge_files-Handles s ((n, f) ∷ fs) o =
    let (o', keeps) = merge_files-Handles (merge_file s n f) fs (merge_file-HandlesOpen s n f o) in
    (
      o',
      KeepsHandles-trans s (merge_file s n f) (merge_files (merge_file s n f) fs)
          (merge_file-KeepsHandles s n f o) keeps,
    )

-- Where every open child handle is that of a directory that is there, a merge keeps that so, and
-- each handle that it keeps belongs to a directory it has not replaced.
pub merge_entries_local-Handles :
    (s : Entries) (ds : BTreeMap Bytes DirRef) (fs : BTreeMap Bytes FileRef)
    → HandlesOpen s
    → HandlesOpen (merge_entries_local s ds fs) × KeepsHandles s (merge_entries_local s ds fs)
unfolding merge_entries_local
merge_entries_local-Handles s ds fs o =
    let (o', first) = merge_dirs-Handles s ds o in
    let (o'', second) = merge_files-Handles (merge_dirs s ds) fs o' in
    (o'', KeepsHandles-trans s (merge_dirs s ds) (merge_files (merge_dirs s ds) fs) first second)
