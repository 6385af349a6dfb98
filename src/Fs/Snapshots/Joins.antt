-- ===== src/Fs/Snapshots/Joins.antt =====
-- Merging the snapshots of shards (s5_fs/src/actor/snapshots.rs, `export_merged_snapshot`).
use s5_rs.Base.{
  ℕ, ◌≡◌, refl, ap, ◌∙◌, Bytes, true, Option, none, some, [], ◌∷◌, if◌then◌else◌, ◌==◌, unwrap_or,
  bytes_ord, nat_ord, arith, Ord, Option-cases, inl, inr,
}
use s5_rs.BTreeMap
use s5_rs.BTreeMap.{BTreeMap, contains_key, get-insert}
use s5_rs.BTreeMap.Sorted.{IsSorted, insert-IsSorted, get-Above}
use s5_rs.Fs.Dir.{DirV1, DirRef}
use s5_rs.Fs.Sharding.Split.{none_if_empty}
use s5_rs.Fs.Snapshots.{
  insert_all, joined, merge_shards, merge_children, flat, export_merged_snapshot,
}

-- The later of two answers, the first where there is none.
abbrev pub over {ℓ} : {A : Type ℓ} → Option A → Option A → Option A
over none b = b
over (some a) b = some a

module _ {ℓ κ} {K : Type ℓ} {V : Type κ} ⦃o : Ord K⦄ where
  insert_all-get :
      (m es : BTreeMap K V) (k : K)
      → IsSorted es
      → BTreeMap.get (insert_all m es) k ≡ over (BTreeMap.get es k) (BTreeMap.get m k)
  unfolding insert_all BTreeMap.get
  insert_all-get m [] k s = refl
  insert_all-get m ((j, v) ∷ es) k s = ground (
    arith,
    insert_all-get (BTreeMap.insert m j v) es k s.1,
    get-insert m j k v,
    get-Above j es s.0,
    o.cmp_eq j k,
  )

  insert_all-IsSorted : (m es : BTreeMap K V) → IsSorted m → IsSorted (insert_all m es)
  unfolding insert_all
  insert_all-IsSorted m [] s = s
  insert_all-IsSorted m ((j, v) ∷ es) s =
      insert_all-IsSorted (BTreeMap.insert m j v) es (insert-IsSorted j v m s)

-- A snapshot shows the entries of another, and its maps are sorted.
pub record Shows (a s : DirV1) : Type 0 where
  pub dirs_IsSorted : IsSorted a.dirs
  pub files_IsSorted : IsSorted a.files
  pub same_dirs : (k : Bytes) → BTreeMap.get a.dirs k ≡ BTreeMap.get s.dirs k
  pub same_files : (k : Bytes) → BTreeMap.get a.files k ≡ BTreeMap.get s.files k

module _ (answer : ℕ → Option DirV1) where
  -- The merge succeeds where all shards answer, and keeps the maps sorted.
  pub merge_shards-IsSorted :
      (shards : BTreeMap ℕ DirRef) (merged : DirV1)
      → ((i : ℕ) → contains_key shards i ≡ true → (a : DirV1) × (answer i ≡ some a))
      → IsSorted merged.dirs
      → IsSorted merged.files
      → (m : DirV1) × (merge_shards answer shards merged ≡ some m)
        × IsSorted m.dirs
        × IsSorted m.files
  unfolding merge_shards BTreeMap.get
  merge_shards-IsSorted [] merged answers s t = (merged, refl, s, t)
  merge_shards-IsSorted ((i, d) ∷ shards) merged answers s t =
      let (a, e) = answers i (ground arith) in
      let (m, done, dirs, files) =
        merge_shards-IsSorted shards (joined merged a) (λ j h. answers j (ground (arith, h)))
          (insert_all-IsSorted merged.dirs a.dirs s) (insert_all-IsSorted merged.files a.files t) in
      (m, ground (arith, e, done), dirs, files)

  -- A map of the merged view at a name whose entry can only come from the shard `b`.
  module _ {κ} {V : Type κ} (pick : DirV1 → BTreeMap Bytes V) where
    pub merge_shards-get :
        (shards : BTreeMap ℕ DirRef) (merged m : DirV1) (k : Bytes) (b : ℕ) (g : Option V)
        → ((merged a : DirV1) → pick (joined merged a) ≡ insert_all (pick merged) (pick a))
        → ((i : ℕ) (a : DirV1)
            → contains_key shards i ≡ true
            → answer i ≡ some a
            → IsSorted (pick a) × (BTreeMap.get (pick a) k ≡ (if b == i then g else none)))
        → merge_shards answer shards merged ≡ some m
        → BTreeMap.get (pick m) k ≡ (
            if contains_key shards b
            then over g (BTreeMap.get (pick merged) k)
            else BTreeMap.get (pick merged) k)
    unfolding merge_shards BTreeMap.get
    merge_shards-get [] merged m k b g picks answers h = ground (arith, h)
    merge_shards-get ((i, d) ∷ shards) merged m k b g picks answers h =
        elim (Option-cases (answer i)) [
          | inl e ↦ absurd (ground (arith, e, h))
          | inr (a, e) ↦
              let (s, entry) = answers i a (ground arith) e in
              let rest =
                merge_shards-get shards (joined merged a) m k b g picks
                  (λ j c q. answers j c (ground (arith, q))) (ground (arith, e, h)) in
              let step =
                ap (λ x. BTreeMap.get x k) (picks merged a)
                ∙ insert_all-get (pick merged) (pick a) k s in
              ground (arith, rest, step, entry)
        ]

pub merge_children_lem :
    (answer : ℕ → Option DirV1) (refs : Option (BTreeMap ℕ DirRef)) (x : DirV1)
    → merge_children answer (none_if_empty refs) x ≡ merge_shards answer (unwrap_or refs []) x
unfolding merge_shards
merge_children_lem answer none x = refl
merge_children_lem answer (some []) x = refl
merge_children_lem answer (some (e ∷ m)) x = refl

pub export_lem :
    (answer : ℕ → Option DirV1) (state merged : DirV1)
    → merge_children answer state.header.shards state ≡ some merged
    → export_merged_snapshot answer state ≡ some (flat answer merged)
unfolding export_merged_snapshot
export_lem answer state merged h = rw (export_merged_snapshot, h) refl
