-- ===== src/Fs/Snapshots/Merged.antt =====
-- The merged view of a directory after it is split (s5_fs/src/actor/snapshots.rs, with `shard` of
-- s5_fs/src/actor/sharding.rs).
use s5_rs.Base.{
  ℕ, ◌<◌, ◌≡◌, refl, ap, sym, ◌∙◌, Bytes, true, false, Option, none, some, [], if◌then◌else◌, ◌==◌,
  unwrap_or, is_some, bytes_ord, nat_ord, arith, Option-cases, inl, inr, subst, ◌≤◌, ◌⊎◌,
}
use s5_rs.BTreeMap
use s5_rs.BTreeMap.{BTreeMap, contains_key, get-insert}
use s5_rs.BTreeMap.Sorted.{IsSorted}
use s5_rs.Fs.Dir.{DirV1, DirRef}
use s5_rs.Fs.Sharding.{bucket, shard, shard_states_of}
use s5_rs.Fs.Sharding.Partition.{shard_lem, shard-none, dir_in, file_in}
use s5_rs.Fs.Sharding.Split.{
  none_if_empty, shard_state, store_shards, store_shards-ok, store_shards-contains,
}
use s5_rs.Fs.Snapshots.{insert_all, joined, merge_shards, flat, export_merged_snapshot}
use s5_rs.Fs.Snapshots.Joins.{
  Shows, merge_shards-IsSorted, merge_shards-get, merge_children_lem, export_lem,
}

bucket-< : (xxh3_64 : Bytes → ℕ) (level : ℕ) (k : Bytes) → bucket xxh3_64 level k < 256
unfolding bucket
bucket-< xxh3_64 level k = omega arith

dir_in_lem :
    (o : Option DirV1) (k : Bytes)
    → elim o [ none ↦ none | some s ↦ BTreeMap.get s.dirs k ] ≡ dir_in o k
dir_in_lem none k = refl
dir_in_lem (some s) k = refl

file_in_lem :
    (o : Option DirV1) (k : Bytes)
    → elim o [ none ↦ none | some s ↦ BTreeMap.get s.files k ] ≡ file_in o k
file_in_lem none k = refl
file_in_lem (some s) k = refl

index_cases : (i : ℕ) → (256 ≤ i) ⊎ (i < 256)
index_cases i = omega arith

module _ (xxh3_64 : Bytes → ℕ) (level : ℕ) (st : DirV1) (answer : ℕ → Option DirV1) where
  -- The actors of the shards answer with the entries of the shards.
  abbrev pub Answers : Type 0
  Answers =
      (i : ℕ) (s : DirV1)
      → BTreeMap.get (shard xxh3_64 level st) i ≡ some s
      → (a : DirV1) × (answer i ≡ some a) × Shows a s

  module _ {κ} {V : Type κ} (pick : DirV1 → BTreeMap Bytes V) where
    -- One of the two maps of the shards: that of each shows the bucket of the directory's map.
    abbrev IsSplit : Bytes → Type κ
    IsSplit k =
        (i : ℕ)
        → i < 256
        → elim (BTreeMap.get (shard xxh3_64 level st) i) [
          | none ↦ none
          | some s ↦ BTreeMap.get (pick s) k
        ]
          ≡ (if bucket xxh3_64 level k == i then BTreeMap.get (pick st) k else none)

    entry_of_answer :
        (k : Bytes) (i : ℕ) (a : DirV1)
        → IsSplit k
        → Answers
        → ((a s : DirV1)
            → Shows a s
            → IsSorted (pick a) × (BTreeMap.get (pick a) k ≡ BTreeMap.get (pick s) k))
        → is_some (BTreeMap.get (shard xxh3_64 level st) i) ≡ true
        → answer i ≡ some a
        → IsSorted (pick a)
          × (BTreeMap.get (pick a) k
              ≡ (if bucket xxh3_64 level k == i then BTreeMap.get (pick st) k else none))
    entry_of_answer k i a split answers shows h e =
        elim (Option-cases (BTreeMap.get (shard xxh3_64 level st) i)) [
          | inl q ↦ absurd (ground (arith, q, h))
          | inr (s, q) ↦
              let (c, f, g) = answers i s q in
              let same : c ≡ a = ground (arith, e, f) in
              let (sorted, entry) = shows a s (subst (λ x. Shows x s) same g) in
              let small : i < 256 = elim (index_cases i) [
                | inl big ↦ absurd (ground (arith, q, shard-none xxh3_64 level st i big))
                | inr less ↦ less
              ] in
              (sorted, ground (arith, entry, split i small, q))
        ]

    merged_entry :
        (k : Bytes) (shards : BTreeMap ℕ DirRef) (start m : DirV1)
        → IsSplit k
        → Answers
        → ((a s : DirV1)
            → Shows a s
            → IsSorted (pick a) × (BTreeMap.get (pick a) k ≡ BTreeMap.get (pick s) k))
        → ((merged a : DirV1) → pick (joined merged a) ≡ insert_all (pick merged) (pick a))
        → ((i : ℕ) → contains_key shards i ≡ is_some (BTreeMap.get (shard xxh3_64 level st) i))
        → pick start ≡ []
        → merge_shards answer shards start ≡ some m
        → BTreeMap.get (pick m) k ≡ BTreeMap.get (pick st) k
    unfolding BTreeMap.get
    merged_entry k shards start m split answers shows picks same empty done =
        let b = bucket xxh3_64 level k in
        let got =
          merge_shards-get answer pick shards start m k b (BTreeMap.get (pick st) k) picks
            (λ i a h e. entry_of_answer k i a split answers shows (sym (same i) ∙ h) e) done in
        let none_at : BTreeMap.get (pick start) k ≡ none = ap (λ x. BTreeMap.get x k) empty in
        let whole = split b (bucket-< xxh3_64 level k) in
        ground (arith, got, none_at, whole, same b)

  -- The state of the directory after the split, and the split itself.
  abbrev emptied : Option (BTreeMap ℕ DirRef) → DirV1
  emptied refs = record st {
    header = record st.header { shard_level = some level; shards = none_if_empty refs };
    dirs = [];
    files = [];
  }

  stored_answer :
      (i : ℕ)
      → Answers
      → is_some (BTreeMap.get (shard xxh3_64 level st) i) ≡ true
      → (a : DirV1) × (answer i ≡ some a)
  stored_answer i answers h = elim (Option-cases (BTreeMap.get (shard xxh3_64 level st) i)) [
    | inl q ↦ absurd (ground (arith, q, h))
    | inr (s, q) ↦ let (a, e, shows) = answers i s q in (a, e)
  ]

  module _ (store_shard : ℕ → DirV1 → Option DirRef) where
    shard_state_lem :
        let r = store_shards store_shard 0 (shard_states_of xxh3_64 level st) st.header.shards in
        st.header.shard_level ≡ none
        → r.1 ≡ true
        → shard_state store_shard xxh3_64 level st ≡ (emptied r.0, true)
    unfolding shard_state
    shard_state_lem flat_level through = ground (arith, flat_level, through)

    contains_stored :
        let r = store_shards store_shard 0 (shard_states_of xxh3_64 level st) st.header.shards in
        st.header.shards ≡ none
        → r.1 ≡ true
        → (i : ℕ)
        → contains_key (unwrap_or r.0 []) i ≡ is_some (BTreeMap.get (shard xxh3_64 level st) i)
    unfolding shard BTreeMap.get
    contains_stored no_shards through i =
        let cells = shard_states_of xxh3_64 level st in
        let found = store_shards-contains store_shard 0 cells st.header.shards i through in
        let rest : contains_key (unwrap_or st.header.shards []) i ≡ false =
          ap (λ o. contains_key (unwrap_or o []) i) no_shards in
        ground (arith, found, rest)

    -- After a directory with sorted maps that has no shards yet is split, where every shard can be
    -- stored and the actors of the shards answer with the entries of the shards, the split
    -- succeeds and the merged snapshot shows the entries that the directory had before, and no
    -- shards.
    pub export-shard_state :
        IsSorted st.dirs
        → IsSorted st.files
        → st.header.shard_level ≡ none
        → st.header.shards ≡ none
        → ((i : ℕ) (s : DirV1) → (d : DirRef) × (store_shard i s ≡ some d))
        → Answers
        → let r = shard_state store_shard xxh3_64 level st in
          (r.1 ≡ true)
          × ((m : DirV1) × (export_merged_snapshot answer r.0 ≡ some m)
              × Shows m st
              × (m.header.shards ≡ none))
    export-shard_state od of flat_level no_shards stores answers =
        let cells = shard_states_of xxh3_64 level st in
        let refs = (store_shards store_shard 0 cells st.header.shards).0 in
        let shards = unwrap_or refs [] in
        let through = store_shards-ok store_shard 0 cells st.header.shards stores in
        let whole = shard_state_lem flat_level through in
        let same = contains_stored no_shards through in
        let (m, done, dirs, files) =
          merge_shards-IsSorted answer shards (emptied refs)
            (λ i h. stored_answer i answers (sym (same i) ∙ h)) tt tt in
        (
          ap (λ r. r.1) whole,
          (
            flat answer m,
            ap (λ r. export_merged_snapshot answer r.0) whole
                ∙ export_lem answer (emptied refs) m
                    (merge_children_lem answer refs (emptied refs) ∙ done),
            record {
              dirs_IsSorted = dirs;
              files_IsSorted = files;
              same_dirs = λ k.
                  merged_entry (λ s. s.dirs) k shards (emptied refs) m
                    (λ i h. dir_in_lem _ k ∙ (shard_lem xxh3_64 level st i k od of h).0) answers
                    (λ a s w. (w.dirs_IsSorted, w.same_dirs k)) (λ a b. refl) same refl done;
              same_files = λ k.
                  merged_entry (λ s. s.files) k shards (emptied refs) m
                    (λ i h. file_in_lem _ k ∙ (shard_lem xxh3_64 level st i k od of h).1) answers
                    (λ a s w. (w.files_IsSorted, w.same_files k)) (λ a b. refl) same refl done;
            },
            refl,
          ),
        )
