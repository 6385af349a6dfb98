-- ===== src/Fs/Sharding/Split.antt =====
-- The change of a directory that is split into shards (s5_fs/src/actor/sharding.rs, `shard`).
-- Storing a shard, which encodes and imports its state and builds the reference with the current
-- time, is a parameter that may fail.
use s5_rs.Base.{
  ℕ, suc, ◌≡◌, refl, Bytes, Bool, true, false, ◌&&◌, ◌||◌, Option, none, some, List, [], ◌∷◌,
  if◌then◌else◌, unwrap_or, is_empty, is_some, is_same, nat_ord, arith, Bool-cases, Option-cases,
  inl, inr,
}
use s5_rs.BTreeMap
use s5_rs.BTreeMap.{BTreeMap, contains_key, get-insert}
use s5_rs.Fs.Dir.{DirV1, DirRef}
use s5_rs.Fs.Sharding.{shard_states_of, stored_shards}

-- No map in place of an empty one.
abbrev pub none_if_empty {ℓ} : {V : Type ℓ} → Option (BTreeMap ℕ V) → Option (BTreeMap ℕ V)
none_if_empty none = none
none_if_empty (some []) = none
none_if_empty (some (e ∷ m)) = some (e ∷ m)

contains-insert :
    (m : BTreeMap ℕ DirRef) (i n : ℕ) (d : DirRef)
    → contains_key (BTreeMap.insert m i d) n ≡ (is_same i n || contains_key m n)
contains-insert m i n d = ground (arith, get-insert m i n d)

module _ (store_shard : ℕ → DirV1 → Option DirRef) where
  -- The loop over the shards' states: `header.shards` after it, and whether it went through.
  unfoldable pub store_shards :
      ℕ → List DirV1 → Option (BTreeMap ℕ DirRef) → Option (BTreeMap ℕ DirRef) × Bool
  store_shards i [] shards = (shards, true)
  store_shards i (s ∷ shard_states) shards = elim (is_empty s.dirs && is_empty s.files) [
    | true ↦ store_shards (suc i) shard_states shards
    | false ↦ elim (store_shard i s) [
      | none ↦ (some (unwrap_or shards []), false)
      | some d ↦
          store_shards (suc i) shard_states (some (BTreeMap.insert (unwrap_or shards []) i d))
    ]
  ]

  -- `shard`: the state after it, and whether it succeeds.
  unfoldable pub shard_state : (Bytes → ℕ) → ℕ → DirV1 → DirV1 × Bool
  shard_state xxh3_64 shard_level state = elim state.header.shard_level [
    | some level ↦ (state, false)
    | none ↦
        let r = store_shards 0 (shard_states_of xxh3_64 shard_level state) state.header.shards in
        if r.1
        then (
          record state {
            header = record state.header {
              shard_level = some shard_level;
              shards = none_if_empty r.0;
            };
            dirs = [];
            files = [];
          },
          true,
        )
        else (
          record state {
            header = record state.header { shard_level = some shard_level; shards = r.0 };
          },
          false,
        )
  ]

  -- If every shard can be stored, the loop goes through.
  pub store_shards-ok :
      (i : ℕ) (shard_states : List DirV1) (shards : Option (BTreeMap ℕ DirRef))
      → ((i : ℕ) (s : DirV1) → (d : DirRef) × (store_shard i s ≡ some d))
      → (store_shards i shard_states shards).1 ≡ true
  unfolding store_shards
  store_shards-ok i [] shards stores = refl
  store_shards-ok i (s ∷ ss) shards stores =
      let (d, e) = stores i s in
      ground (
        arith,
        e,
        store_shards-ok (suc i) ss shards stores,
        store_shards-ok (suc i) ss (some (BTreeMap.insert (unwrap_or shards []) i d)) stores,
      )

  -- The references that the loop leaves are those of the shards that hold something, and earlier ones.
  pub store_shards-contains :
      (i : ℕ) (shard_states : List DirV1) (shards : Option (BTreeMap ℕ DirRef)) (n : ℕ)
      → (store_shards i shard_states shards).1 ≡ true
      → contains_key (unwrap_or (store_shards i shard_states shards).0 []) n ≡ (
          is_some (BTreeMap.get (stored_shards i shard_states) n)
          || contains_key (unwrap_or shards []) n)
  unfolding store_shards stored_shards BTreeMap.get
  store_shards-contains i [] shards n h = refl
  store_shards-contains i (s ∷ ss) shards n h =
      elim (Bool-cases (is_empty s.dirs && is_empty s.files)) [
        | inl e ↦ ground (arith, e, store_shards-contains (suc i) ss shards n)
        | inr e ↦ elim (Option-cases (store_shard i s)) [
          | inl f ↦ absurd (ground (arith, e, f, h))
          | inr (d, f) ↦
              let more = some (BTreeMap.insert (unwrap_or shards []) i d) in
              ground (
                arith,
                e,
                f,
                store_shards-contains (suc i) ss more n,
                contains-insert (unwrap_or shards []) i n d,
              )
        ]
      ]
