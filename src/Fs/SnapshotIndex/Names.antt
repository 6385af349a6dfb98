-- ===== src/Fs/SnapshotIndex/Names.antt =====
-- Names of snapshots (s5_fs/src/snapshots.rs, insert_snapshot and remove_snapshot).
use s5_rs.Base.{
  ℕ, zero, suc, ◌+◌, ◌<◌, ◌≤◌, ◌^◌, ◌≡◌, refl, ap, ap₂, sym, ◌∙◌, Bytes, true, false, some, [], ◌∷◌,
  length, if◌then◌else◌, is_same, bytes_ord, arith, Ord, Bool-cases, inl, inr, cmp_refl,
}
use s5_rs.BTreeMap
use s5_rs.BTreeMap.{BTreeMap, contains_key, get-insert, get-insert_self, get-remove, remove_absent}
use s5_rs.Fs.Dir.{DirRef, saturating_add32}
use s5_rs.Fs.SnapshotIndex.{
  SnapshotIndex, Time, snapshot_ref, free_name, with_snapshot, insert_snapshot, remove_snapshot,
  hash_of,
}

module _ {ℓ κ} {K : Type ℓ} {V : Type κ} ⦃o : Ord K⦄ where
  length-remove_≤ : (m : BTreeMap K V) (k : K) → length (BTreeMap.remove m k) ≤ length m
  unfolding BTreeMap.remove
  length-remove_≤ [] k = omega arith
  length-remove_≤ ((j, v) ∷ m) k = ground (arith, length-remove_≤ m k)

  length-remove :
      (m : BTreeMap K V) (k : K) → contains_key m k ≡ true → length (BTreeMap.remove m k) < length m
  unfolding BTreeMap.remove BTreeMap.get
  length-remove [] k h = absurd (ground (arith, h))
  length-remove ((j, v) ∷ m) k h = ground (arith, length-remove_≤ m k, length-remove m k, h)

  remove-insert :
      (m : BTreeMap K V) (k : K) (v : V)
      → BTreeMap.remove (BTreeMap.insert m k v) k ≡ BTreeMap.remove m k
  unfolding BTreeMap.remove BTreeMap.insert
  remove-insert [] k v = ground (arith, cmp_refl k)
  remove-insert ((j, w) ∷ m) k v =
      ground (arith, remove-insert m k v, o.cmp_eq k j, o.cmp_eq j k, cmp_refl k, o.cmp_flip k j)

module _ (numbered : Bytes → ℕ → Bytes) (base_name : Bytes) where
  -- The names that the loop tries: the base name, then the numbered ones.
  abbrev candidate : ℕ → Bytes
  candidate zero = base_name
  candidate (suc i) = numbered base_name (suc i)

  -- Different tries have different names.
  abbrev pub Distinct : Type 0
  Distinct = (i j : ℕ) → is_same (candidate i) (candidate j) ≡ true → i ≡ j

  kept :
      (i j : ℕ) (left : BTreeMap Bytes DirRef)
      → Distinct
      → suc i ≤ j
      → contains_key (BTreeMap.remove left (candidate i)) (candidate j)
        ≡ contains_key left (candidate j)
  kept i j left distinct h = elim (Bool-cases (is_same (candidate i) (candidate j))) [
    | inl e ↦ absurd (omega (arith, distinct i j e, h))
    | inr e ↦ ground (arith, get-remove left (candidate i) (candidate j), e)
  ]

  -- The loop depends on the maps at the names that it tries.
  free_name-found :
      (fuel i : ℕ) (dirs left : BTreeMap Bytes DirRef)
      → Distinct
      → length left < fuel
      → i + fuel < 2 ^ 32
      → ((j : ℕ) → i ≤ j → contains_key dirs (candidate j) ≡ contains_key left (candidate j))
      → (name : Bytes) × (free_name numbered fuel dirs base_name (candidate i) (i + 1) ≡ some name)
        × (contains_key dirs name ≡ false)
  unfolding free_name
  free_name-found zero i dirs left distinct room small same = absurd (omega (arith, room))
  free_name-found (suc fuel) i dirs left distinct room small same =
      elim (Bool-cases (contains_key dirs (candidate i))) [
        | inr free ↦ (candidate i, ground (arith, free), free)
        | inl taken ↦
            let held : contains_key left (candidate i) ≡ true =
              sym (same i (omega arith)) ∙ taken in
            let shorter = length-remove left (candidate i) held in
            let (name, found, free) =
              free_name-found fuel (suc i) dirs (BTreeMap.remove left (candidate i)) distinct
                (omega (arith, shorter, room)) (omega (arith, small))
                (λ j h. same j (omega (arith, h)) ∙ sym (kept i j left distinct h)) in
            let counter : saturating_add32 (i + 1) 1 ≡ suc i + 1 =
              omega (arith, shorter, room, small) in
            let next =
              ap (free_name numbered fuel dirs base_name (candidate (suc i))) counter ∙ found in
            (name, ground (arith, taken, next), free)
      ]

-- For a time text whose numbered names are all different, and fewer than 2^32 - 1 snapshots, the
-- loop of insert_snapshot ends with a name that was free, under which the index then holds the
-- hash; what it held at other names stays, and remove_snapshot of the name gives the hash and the
-- index from before.
pub insert_snapshot_lem :
    (numbered : Bytes → ℕ → Bytes) (index : SnapshotIndex) (hash : Bytes) (now : Time)
    → Distinct numbered now.to_rfc3339
    → length index.dir.dirs + 1 < 2 ^ 32
    → (after : SnapshotIndex) × (name : Bytes) × (insert_snapshot numbered index hash now
        ≡ some (after, (name, hash)))
      × (contains_key index.dir.dirs name ≡ false)
      × ((k : Bytes)
          → BTreeMap.get after.dir.dirs k ≡ (
              if is_same name k
              then some (snapshot_ref hash now)
              else BTreeMap.get index.dir.dirs k))
      × (remove_snapshot after name ≡ (index, some hash))
unfolding insert_snapshot remove_snapshot
insert_snapshot_lem numbered index hash now distinct small =
    let dirs = index.dir.dirs in
    let (name, found, free) =
      free_name-found numbered now.to_rfc3339 (suc (length dirs)) 0 dirs dirs distinct (omega arith)
        (omega (arith, small)) (λ j h. refl) in
    let back = remove-insert dirs name (snapshot_ref hash now) ∙ remove_absent dirs name free in
    let held = get-insert_self dirs name (snapshot_ref hash now) in
    (
      with_snapshot numbered index name (snapshot_ref hash now),
      name,
      ground (arith, found),
      free,
      λ k. get-insert dirs name k (snapshot_ref hash now),
      ap₂ (λ m o. (record index { dir = record index.dir { dirs = m } }, hash_of o)) back held,
    )
