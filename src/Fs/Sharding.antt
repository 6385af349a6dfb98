-- ===== src/Fs/Sharding.antt =====
-- Splitting a large directory into shards (s5_fs/src/actor/sharding.rs). The hash `xxh3_64` is a
-- parameter. How a shard is encoded, stored and opened as an actor is not modelled.
pub mod Partition
pub mod Split
use s5_rs.Base.{
  ℕ, zero, suc, ◌+◌, ◌*◌, ◌/◌, ◌%◌, ◌^◌, Bytes, Bool, ◌&&◌, Option, none, some, List, [], ◌∷◌,
  if◌then◌else◌, ltb, replicate, is_empty, bytes_ord,
}
use s5_rs.BTreeMap
use s5_rs.BTreeMap.{BTreeMap}
use s5_rs.Fs.Dir.{DirV1, new_dir, DirRef, FileRef}

abbrev pub max_shard_level : ℕ
max_shard_level = 7

-- The entry of a `Vec` at an index, and `v[i] = f(v[i])`, which panics past the end: a bucket is
-- below 256.
module _ {ℓ} {A : Type ℓ} where
  abbrev pub get_elem? : List A → ℕ → Option A
  get_elem? [] i = none
  get_elem? (x ∷ xs) zero = some x
  get_elem? (x ∷ xs) (suc i) = get_elem? xs i

  unfoldable pub modify : List A → ℕ → (A → A) → List A
  modify [] i f = []
  modify (x ∷ xs) zero f = f x ∷ xs
  modify (x ∷ xs) (suc i) f = x ∷ modify xs i f

module _ (xxh3_64 : Bytes → ℕ) (shard_level : ℕ) where
  -- `((h >> (8 * shard_level)) & 0xFF)`.
  unfoldable pub bucket : Bytes → ℕ
  bucket name = (xxh3_64 name / 2 ^ (8 * shard_level)) % 256

  -- `shard_bucket_for`: none where it panics.
  unfoldable pub shard_bucket_for : Bytes → Option ℕ
  shard_bucket_for name = if ltb max_shard_level shard_level then none else some (bucket name)

  unfoldable pub spread_dirs : List DirV1 → BTreeMap Bytes DirRef → List DirV1
  spread_dirs shard_states [] = shard_states
  spread_dirs shard_states ((name, dir_ref) ∷ dirs) =
      spread_dirs
        (modify shard_states (bucket name)
          (λ s. record s { dirs = BTreeMap.insert s.dirs name dir_ref }))
        dirs

  unfoldable pub spread_files : List DirV1 → BTreeMap Bytes FileRef → List DirV1
  spread_files shard_states [] = shard_states
  spread_files shard_states ((name, entry) ∷ files) =
      spread_files
        (modify shard_states (bucket name)
          (λ s. record s { files = BTreeMap.insert s.files name entry }))
        files

  -- The states of the shards, as `shard` fills them.
  unfoldable pub shard_states_of : DirV1 → List DirV1
  shard_states_of state = spread_files (spread_dirs (replicate 256 new_dir) state.dirs) state.files

-- The shards that are stored, under their indices from `i` on: empty ones are skipped.
unfoldable pub stored_shards : ℕ → List DirV1 → BTreeMap ℕ DirV1
stored_shards i [] = []
stored_shards i (s ∷ shard_states) =
    let rest = stored_shards (suc i) shard_states in
    if is_empty s.dirs && is_empty s.files then rest else (i, s) ∷ rest

-- `shard`, up to storing the shards: what `header.shards` refers to.
unfoldable pub shard : (Bytes → ℕ) → ℕ → DirV1 → BTreeMap ℕ DirV1
shard xxh3_64 shard_level state = stored_shards 0 (shard_states_of xxh3_64 shard_level state)
