-- ===== src/Fs/Gc.antt =====
-- Garbage collection (s5_fs/src/gc.rs): the hashes that a directory keeps alive, and the sweep over
-- a blob store. A `HashSet` is a map to the unit type.
pub mod Reachable
pub mod Sweep
pub mod Accounting
pub mod Walk
use s5_rs.Base.{
  ℕ, zero, suc, ◌+◌, Bytes, Bool, true, false, Option, none, some, List, [], ◌∷◌, ◌++◌, Result, ok,
  err, if◌then◌else◌, is_empty, bytes_ord,
}
use s5_rs.BTreeMap
use s5_rs.BTreeMap.{BTreeMap, contains_key, values}
use s5_rs.Store.{Store, StoreError}
use s5_rs.Registry.{RegistryError}
use s5_rs.Blob.Paths.{HashCodec}
use s5_rs.Blob.Store as BlobStore
use s5_rs.Blob.Store.{list_hashes}
use s5_rs.Fs.Dir.{
  FileRef, Version, file_ref, absent, version, fields, prev, first_version, is_tombstone, DirV1,
}

abbrev pub HashSet : Type 0
HashSet = BTreeMap Bytes (Unit {0})

-- `if let Some(v) = v { stack.push(v) }`; the top of the stack is the head of the list.
abbrev pub push_version : Version → List FileRef → List FileRef
push_version absent stack = stack
push_version (version f) stack = f ∷ stack

-- The loop of `add_versions_iterative`, on fuel.
unfoldable pub walk : ℕ → List FileRef → HashSet → HashSet
walk zero stack acc = acc
walk (suc n) [] acc = acc
walk (suc n) (fr ∷ stack) acc =
    walk n (push_version (first_version fr) (push_version (prev fr) stack))
      (BTreeMap.insert acc (fields fr).hash tt)

-- The number of files in a version chain: the turns that the loop takes for it.
abbrev mutual
  pub turns : FileRef → ℕ
  turns (file_ref f p first) = suc (version_turns p + version_turns first)

  pub version_turns : Version → ℕ
  version_turns absent = 0
  version_turns (version f) = turns f

unfoldable pub add_versions_iterative : FileRef → HashSet → HashSet
add_versions_iterative root acc = walk (turns root) (root ∷ []) acc

abbrev pub add_version : Version → HashSet → HashSet
add_version absent acc = acc
add_version (version f) acc = add_versions_iterative f acc

-- One turn of the loop of `collect_hashes_from_dir`.
unfoldable pub collect_file : FileRef → HashSet → HashSet
collect_file f acc =
    if is_tombstone f
    then add_version (first_version f) (add_version (prev f) acc)
    else add_versions_iterative f acc

unfoldable pub collect_files : List FileRef → HashSet → HashSet
collect_files [] acc = acc
collect_files (f ∷ fs) acc = collect_files fs (collect_file f acc)

-- `collect_hashes_from_dir`.
unfoldable pub collect_hashes_from_dir : DirV1 → HashSet → HashSet
collect_hashes_from_dir dir reachable = collect_files (values dir.files) reachable

pub record GcReport : Type 0 where
  pub total : ℕ
  pub kept_by_pins : ℕ
  pub kept_by_reachability : ℕ
  pub deleted : ℕ
  pub candidates : List Bytes
  pub delete_errors : List (Bytes × StoreError)

-- `GcReport::default`.
abbrev pub empty_report : GcReport
empty_report = record {
  total = 0;
  kept_by_pins = 0;
  kept_by_reachability = 0;
  deleted = 0;
  candidates = [];
  delete_errors = [];
}

pub data GcError : Type 0 where
  store_failed : StoreError → GcError
  pins_failed : RegistryError → GcError

-- `pins` is `Pins::get_pinners`, which the sweep only reads.
module _ {S P : Type 0} (c : HashCodec) (api : Store S) (outboard : Bool) (reachable : HashSet)
    (pins : Bytes → Result RegistryError (List P)) (dry_run : Bool) where
  -- What becomes of a candidate.
  unfoldable pub sweep_candidate : GcReport → S → Bytes → GcReport × S
  sweep_candidate report s h =
      let report' = record report { candidates = report.candidates ++ (h ∷ []) } in
      if dry_run
      then (report', s)
      else let r = BlobStore.delete c api outboard s h in
        (
          elim r.0 [
            | ok _ ↦ record report' { deleted = report.deleted + 1 }
            | err e ↦ record report' { delete_errors = report.delete_errors ++ ((h, e) ∷ []) }
          ],
          r.1,
        )

  -- One turn of the loop of `gc_store`.
  unfoldable pub sweep_one : GcReport → S → Bytes → Result GcError GcReport × S
  sweep_one report s h =
      let report' = record report { total = report.total + 1 } in
      elim (pins h) [
        | err e ↦ (err (pins_failed e), s)
        | ok (p ∷ ps) ↦ (ok (record report' { kept_by_pins = report.kept_by_pins + 1 }), s)
        | ok [] ↦
            if contains_key reachable h
            then (ok (record report' { kept_by_reachability = report.kept_by_reachability + 1 }), s)
            else let r = sweep_candidate report' s h in (ok r.0, r.1)
      ]

  unfoldable pub sweep : List Bytes → GcReport → S → Result GcError GcReport × S
  sweep [] report s = (ok report, s)
  sweep (h ∷ hs) report s = elim (sweep_one report s h).0 [
    | err e ↦ (err e, (sweep_one report s h).1)
    | ok report' ↦ sweep hs report' (sweep_one report s h).1
  ]

  -- `gc_store`.
  unfoldable pub gc_store : S → Result GcError GcReport × S
  gc_store s = elim (list_hashes c api s) [
    | err e ↦ (err (store_failed e), s)
    | ok hashes ↦ sweep hashes empty_report s
  ]
