-- ===== src/Fs/Sharding/Partition.antt =====
-- The entries in the shards of a directory (s5_fs/src/actor/sharding.rs).
use s5_rs.Base.{
  ℕ, zero, suc, ◌+◌, ◌<◌, ◌≤◌, ◌≡◌, refl, ap, ◌∙◌, Bytes, true, ◌&&◌, Option, none, some, List, [],
  ◌∷◌, if◌then◌else◌, ◌==◌, replicate, is_empty, bytes_ord, nat_ord, arith, is_same, is_same_eq,
  subst, Bool-cases, inl, inr,
}
use s5_rs.BTreeMap
use s5_rs.BTreeMap.{BTreeMap, get-insert}
use s5_rs.BTreeMap.Sorted.{IsSorted, get-Above, Above}
use s5_rs.Fs.Dir.{DirV1, new_dir, DirRef, FileRef}
use s5_rs.Fs.Sharding.{
  get_elem?, modify, bucket, spread_dirs, spread_files, shard_states_of, stored_shards, shard,
}

module _ {ℓ} {A : Type ℓ} where
  get_elem?-modify :
      (xs : List A) (i j : ℕ) (f : A → A)
      → get_elem? (modify xs i f) j ≡ (
          if i == j
          then elim (get_elem? xs j) [ none ↦ none | some x ↦ some (f x) ]
          else get_elem? xs j)
  unfolding modify
  get_elem?-modify [] i j f = ground arith
  get_elem?-modify (x ∷ xs) zero zero f = refl
  get_elem?-modify (x ∷ xs) zero (suc j) f = ground arith
  get_elem?-modify (x ∷ xs) (suc i) zero f = ground arith
  get_elem?-modify (x ∷ xs) (suc i) (suc j) f = ground (arith, get_elem?-modify xs i j f)

  modify-none :
      (xs : List A) (i j : ℕ) (f : A → A)
      → get_elem? xs j ≡ none
      → get_elem? (modify xs i f) j ≡ none
  modify-none xs i j f h = ground (arith, get_elem?-modify xs i j f, h)

-- The later of two answers, the first where there is none.
abbrev over {ℓ} : {A : Type ℓ} → Option A → Option A → Option A
over none b = b
over (some a) b = some a

module _ (xxh3_64 : Bytes → ℕ) (level : ℕ) where
  same_bucket : (n k : Bytes) → is_same n k ≡ true → bucket xxh3_64 level n ≡ bucket xxh3_64 level k
  same_bucket n k e = ap (bucket xxh3_64 level) (is_same_eq n k e)

  gone_after {κ} :
      {V : Type κ} (n k : Bytes) (m : BTreeMap Bytes V)
      → Above n m
      → is_same n k ≡ true
      → BTreeMap.get m k ≡ none
  gone_after n k m a e = subst (λ x. BTreeMap.get m x ≡ none) (is_same_eq n k e) (get-Above n m a)

  spread_dirs_lem :
      (ds : BTreeMap Bytes DirRef) (ss : List DirV1) (i : ℕ) (k : Bytes) (x : DirV1)
      → IsSorted ds
      → get_elem? ss i ≡ some x
      → (y : DirV1) × (get_elem? (spread_dirs xxh3_64 level ss ds) i ≡ some y)
        × (y.files ≡ x.files)
        × (BTreeMap.get y.dirs k ≡ (
            if bucket xxh3_64 level k == i
            then over (BTreeMap.get ds k) (BTreeMap.get x.dirs k)
            else BTreeMap.get x.dirs k))
  unfolding spread_dirs BTreeMap.get
  spread_dirs_lem [] ss i k x o h = (x, h, refl, ground arith)
  spread_dirs_lem ((n, d) ∷ ds) ss i k x o h =
      let b = bucket xxh3_64 level n in
      let f : DirV1 → DirV1 = λ s. record s { dirs = BTreeMap.insert s.dirs n d } in
      let cell = get_elem?-modify ss b i f in
      elim (Bool-cases (b == i)) [
        | inl e ↦
            let (y, found, files, dirs) =
              spread_dirs_lem ds (modify ss b f) i k (f x) o.1 (ground (arith, cell, e, h)) in
            (
              y,
              found,
              files,
              ground
                  (arith, dirs, e, get-insert x.dirs n k d, same_bucket n k, gone_after n k ds o.0),
            )
        | inr e ↦
            let (y, found, files, dirs) =
              spread_dirs_lem ds (modify ss b f) i k x o.1 (ground (arith, cell, e, h)) in
            (y, found, files, ground (arith, dirs, e, same_bucket n k))
      ]

  spread_files_lem :
      (ds : BTreeMap Bytes FileRef) (ss : List DirV1) (i : ℕ) (k : Bytes) (x : DirV1)
      → IsSorted ds
      → get_elem? ss i ≡ some x
      → (y : DirV1) × (get_elem? (spread_files xxh3_64 level ss ds) i ≡ some y)
        × (y.dirs ≡ x.dirs)
        × (BTreeMap.get y.files k ≡ (
            if bucket xxh3_64 level k == i
            then over (BTreeMap.get ds k) (BTreeMap.get x.files k)
            else BTreeMap.get x.files k))
  unfolding spread_files BTreeMap.get
  spread_files_lem [] ss i k x o h = (x, h, refl, ground arith)
  spread_files_lem ((n, d) ∷ ds) ss i k x o h =
      let b = bucket xxh3_64 level n in
      let f : DirV1 → DirV1 = λ s. record s { files = BTreeMap.insert s.files n d } in
      let cell = get_elem?-modify ss b i f in
      elim (Bool-cases (b == i)) [
        | inl e ↦
            let (y, found, dirs, files) =
              spread_files_lem ds (modify ss b f) i k (f x) o.1 (ground (arith, cell, e, h)) in
            (
              y,
              found,
              dirs,
              ground (
                arith,
                files,
                e,
                get-insert x.files n k d,
                same_bucket n k,
                gone_after n k ds o.0,
              ),
            )
        | inr e ↦
            let (y, found, dirs, files) =
              spread_files_lem ds (modify ss b f) i k x o.1 (ground (arith, cell, e, h)) in
            (y, found, dirs, ground (arith, files, e, same_bucket n k))
      ]

  new_cell : (n i : ℕ) → i < n → get_elem? (replicate n new_dir) i ≡ some new_dir
  new_cell zero i h = absurd (omega (arith, h))
  new_cell (suc n) zero h = refl
  new_cell (suc n) (suc i) h = new_cell n i (omega (arith, h))

  shard_states_of_lem :
      (st : DirV1) (i : ℕ) (k : Bytes)
      → IsSorted st.dirs
      → IsSorted st.files
      → i < 256
      → (y : DirV1) × (get_elem? (shard_states_of xxh3_64 level st) i ≡ some y)
        × (BTreeMap.get y.dirs k
            ≡ (if bucket xxh3_64 level k == i then BTreeMap.get st.dirs k else none))
        × (BTreeMap.get y.files k
            ≡ (if bucket xxh3_64 level k == i then BTreeMap.get st.files k else none))
  unfolding shard_states_of BTreeMap.get
  shard_states_of_lem st i k od of h =
      let start : List DirV1 = replicate 256 new_dir in
      let (x, found, files, dirs) =
        spread_dirs_lem st.dirs start i k new_dir od (new_cell 256 i h) in
      let (y, found', dirs', files') =
        spread_files_lem st.files (spread_dirs xxh3_64 level start st.dirs) i k x of found in
      (y, found', rw dirs' (ground (arith, dirs)), ground (arith, files', files))

-- What a stored shard says of a name.
abbrev pub dir_in : Option DirV1 → Bytes → Option DirRef
dir_in none name = none
dir_in (some s) name = BTreeMap.get s.dirs name

abbrev pub file_in : Option DirV1 → Bytes → Option FileRef
file_in none name = none
file_in (some s) name = BTreeMap.get s.files name

below_stored : (j n : ℕ) (ss : List DirV1) → n < j → BTreeMap.get (stored_shards j ss) n ≡ none
unfolding stored_shards BTreeMap.get
below_stored j n [] h = refl
below_stored j n (s ∷ ss) h = ground (arith, below_stored (suc j) n ss (omega (arith, h)), h)

abbrev unless_empty : Option DirV1 → Option DirV1
unless_empty none = none
unless_empty (some s) = if is_empty s.dirs && is_empty s.files then none else some s

stored_at :
    (j i n : ℕ) (ss : List DirV1)
    → n ≡ j + i
    → BTreeMap.get (stored_shards j ss) n ≡ unless_empty (get_elem? ss i)
unfolding stored_shards BTreeMap.get
stored_at j i n [] e = refl
stored_at j zero n (s ∷ ss) e = ground (arith, e, below_stored (suc j) n ss (omega (arith, e)))
stored_at j (suc i) n (s ∷ ss) e = ground (arith, e, stored_at (suc j) i n ss (omega (arith, e)))

nothing_in {κ} :
    {V : Type κ} (m : BTreeMap Bytes V) (k : Bytes) → is_empty m ≡ true → BTreeMap.get m k ≡ none
unfolding BTreeMap.get
nothing_in [] k e = refl
nothing_in (x ∷ m) k e = absurd (ground (arith, e))

dir_in-unless_empty :
    (s : DirV1) (k : Bytes) → dir_in (unless_empty (some s)) k ≡ BTreeMap.get s.dirs k
dir_in-unless_empty s k = ground (arith, nothing_in s.dirs k)

file_in-unless_empty :
    (s : DirV1) (k : Bytes) → file_in (unless_empty (some s)) k ≡ BTreeMap.get s.files k
file_in-unless_empty s k = ground (arith, nothing_in s.files k)

-- After a directory with sorted maps is split into shards, the stored shard at an index below 256
-- holds at each name the entry of the directory if the name falls into that bucket, and nothing
-- otherwise; a shard that is not stored counts as empty.
pub shard_lem :
    (xxh3_64 : Bytes → ℕ) (level : ℕ) (st : DirV1) (i : ℕ) (k : Bytes)
    → IsSorted st.dirs
    → IsSorted st.files
    → i < 256
    → (dir_in (BTreeMap.get (shard xxh3_64 level st) i) k
        ≡ (if bucket xxh3_64 level k == i then BTreeMap.get st.dirs k else none))
      × (file_in (BTreeMap.get (shard xxh3_64 level st) i) k
          ≡ (if bucket xxh3_64 level k == i then BTreeMap.get st.files k else none))
unfolding shard
shard_lem xxh3_64 level st i k od of h =
    let (y, found, dirs, files) = shard_states_of_lem xxh3_64 level st i k od of h in
    let stored = stored_at 0 i i (shard_states_of xxh3_64 level st) (omega arith) in
    (
      ap (λ o. dir_in o k) (stored ∙ ap unless_empty found) ∙ dir_in-unless_empty y k ∙ dirs,
      ap (λ o. file_in o k) (stored ∙ ap unless_empty found) ∙ file_in-unless_empty y k ∙ files,
    )

module _ (xxh3_64 : Bytes → ℕ) (level : ℕ) where
  spread_dirs-none :
      (ds : BTreeMap Bytes DirRef) (ss : List DirV1) (i : ℕ)
      → get_elem? ss i ≡ none
      → get_elem? (spread_dirs xxh3_64 level ss ds) i ≡ none
  unfolding spread_dirs
  spread_dirs-none [] ss i h = h
  spread_dirs-none ((n, d) ∷ ds) ss i h =
      spread_dirs-none ds _ i (modify-none ss (bucket xxh3_64 level n) i _ h)

  spread_files-none :
      (fs : BTreeMap Bytes FileRef) (ss : List DirV1) (i : ℕ)
      → get_elem? ss i ≡ none
      → get_elem? (spread_files xxh3_64 level ss fs) i ≡ none
  unfolding spread_files
  spread_files-none [] ss i h = h
  spread_files-none ((n, f) ∷ fs) ss i h =
      spread_files-none fs _ i (modify-none ss (bucket xxh3_64 level n) i _ h)

get_elem?-replicate {ℓ} :
    {A : Type ℓ} (n i : ℕ) (x : A) → n ≤ i → get_elem? (replicate n x) i ≡ none
get_elem?-replicate zero i x h = refl
get_elem?-replicate (suc n) zero x h = absurd (omega (arith, h))
get_elem?-replicate (suc n) (suc i) x h = get_elem?-replicate n i x (omega (arith, h))

-- No shard has an index of 256 or more.
pub shard-none :
    (xxh3_64 : Bytes → ℕ) (level : ℕ) (st : DirV1) (i : ℕ)
    → 256 ≤ i
    → BTreeMap.get (shard xxh3_64 level st) i ≡ none
unfolding shard shard_states_of
shard-none xxh3_64 level st i h =
    let cells = get_elem?-replicate 256 i new_dir h in
    let dirs = spread_dirs-none xxh3_64 level st.dirs (replicate 256 new_dir) i cells in
    stored_at 0 i i (shard_states_of xxh3_64 level st) (omega arith)
    ∙ ap unless_empty (spread_files-none xxh3_64 level st.files _ i dirs)
