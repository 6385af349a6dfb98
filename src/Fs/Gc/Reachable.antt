-- ===== src/Fs/Gc/Reachable.antt =====
-- `collect_hashes_from_dir` (s5_fs/src/gc.rs) against the version chains of files.
use s5_rs.Base.{
  ℕ, zero, suc, ◌+◌, ◌≤◌, ◌≡◌, refl, ◌∙◌, Bytes, Bool, false, ◌||◌, List, [], ◌∷◌, if◌then◌else◌,
  arith, bytes_ord, is_same,
}
use s5_rs.BTreeMap
use s5_rs.BTreeMap.{BTreeMap, contains_key, values, get-insert}
use s5_rs.Fs.Dir.{
  FileRef, Version, file_ref, absent, version, prev, first_version, is_tombstone, DirV1,
}
use s5_rs.Fs.Gc.{
  HashSet, push_version, walk, turns, version_turns, add_versions_iterative, add_version,
  collect_file, collect_files, collect_hashes_from_dir,
}

-- `h` is the hash of a version of the file.
abbrev mutual
  pub in_history : Bytes → FileRef → Bool
  in_history h (file_ref f p first) = is_same f.hash h || (in_version h p || in_version h first)

  pub in_version : Bytes → Version → Bool
  in_version h absent = false
  in_version h (version f) = in_history h f

-- What a file of a directory keeps alive: a tombstone only its history.
abbrev pub keeps_alive : Bytes → FileRef → Bool
keeps_alive h f =
    if is_tombstone f
    then in_version h (prev f) || in_version h (first_version f)
    else in_history h f

abbrev pub any_keeps_alive : Bytes → List FileRef → Bool
any_keeps_alive h [] = false
any_keeps_alive h (f ∷ fs) = keeps_alive h f || any_keeps_alive h fs

stack_turns : List FileRef → ℕ
stack_turns [] = 0
stack_turns (f ∷ fs) = turns f + stack_turns fs

on_stack : Bytes → List FileRef → Bool
on_stack h [] = false
on_stack h (f ∷ fs) = in_history h f || on_stack h fs

push-turns :
    (v : Version) (st : List FileRef)
    → stack_turns (push_version v st) ≡ version_turns v + stack_turns st
unfolding stack_turns
push-turns absent st = omega arith
push-turns (version f) st = refl

push-on :
    (h : Bytes) (v : Version) (st : List FileRef)
    → on_stack h (push_version v st) ≡ (in_version h v || on_stack h st)
unfolding on_stack
push-on h absent st = refl
push-on h (version f) st = refl

-- With as many turns as there are files below the stack, the walk adds the hashes of all of them.
walk_lem :
    (n : ℕ) (st : List FileRef) (acc : HashSet) (h : Bytes)
    → stack_turns st ≤ n
    → contains_key (walk n st acc) h ≡ (contains_key acc h || on_stack h st)
unfolding walk stack_turns on_stack
walk_lem zero [] acc h e = ground arith
walk_lem zero (file_ref f p q ∷ st) acc h e = absurd (omega (arith, e))
walk_lem (suc n) [] acc h e = ground arith
walk_lem (suc n) (file_ref f p q ∷ st) acc h e =
    let next = push_version q (push_version p st) in
    let small : stack_turns next ≤ n =
      omega (arith, e, push-turns q (push_version p st), push-turns p st) in
    walk_lem n next (BTreeMap.insert acc f.hash tt) h small
    ∙ ground (arith, get-insert acc f.hash h tt, push-on h q (push_version p st), push-on h p st)

add_versions_iterative_lem :
    (f : FileRef) (acc : HashSet) (h : Bytes)
    → contains_key (add_versions_iterative f acc) h ≡ (contains_key acc h || in_history h f)
unfolding add_versions_iterative stack_turns on_stack
add_versions_iterative_lem f acc h = walk_lem (turns f) (f ∷ []) acc h (omega arith) ∙ ground arith

add_version_lem :
    (v : Version) (acc : HashSet) (h : Bytes)
    → contains_key (add_version v acc) h ≡ (contains_key acc h || in_version h v)
add_version_lem absent acc h = ground arith
add_version_lem (version f) acc h = add_versions_iterative_lem f acc h

collect_file_lem :
    (f : FileRef) (acc : HashSet) (h : Bytes)
    → contains_key (collect_file f acc) h ≡ (contains_key acc h || keeps_alive h f)
unfolding collect_file
collect_file_lem f acc h = ground (
  arith,
  add_versions_iterative_lem f acc h,
  add_version_lem (prev f) acc h,
  add_version_lem (first_version f) (add_version (prev f) acc) h,
)

collect_files_lem :
    (fs : List FileRef) (acc : HashSet) (h : Bytes)
    → contains_key (collect_files fs acc) h ≡ (contains_key acc h || any_keeps_alive h fs)
unfolding collect_files
collect_files_lem [] acc h = ground arith
collect_files_lem (f ∷ fs) acc h =
    collect_files_lem fs (collect_file f acc) h ∙ ground (arith, collect_file_lem f acc h)

-- Collecting a directory adds the hashes of all versions of its files and of the histories of its
-- tombstones, and nothing else; the loop over a version chain ends after as many turns as it has
-- versions.
pub collect_hashes_from_dir_lem :
    (dir : DirV1) (reachable : HashSet) (h : Bytes)
    → contains_key (collect_hashes_from_dir dir reachable) h
      ≡ (contains_key reachable h || any_keeps_alive h (values dir.files))
unfolding collect_hashes_from_dir
collect_hashes_from_dir_lem dir reachable h = collect_files_lem (values dir.files) reachable h
