-- ===== src/Fs/Listing/Sharded.antt =====
-- Listing a directory that may have shards (s5_fs/src/actor/listing.rs, list_entries with the merged
-- snapshot that it starts from).
use s5_rs.Base.{
  ℕ, ◌+◌, ◌<◌, take, drop, ◌⊎◌, [], ◌≡◌, refl, ap, ◌∙◌, Bytes, Option, none, some, List, bytes_ord,
}
use s5_rs.BTreeMap.Sorted.{IsSorted}
use s5_rs.BTreeMap.Extensional.{get_ext}
use s5_rs.Fs.Dir.{DirV1, DirRef}
use s5_rs.Fs.Sharding.Split.{shard_state}
use s5_rs.Fs.Snapshots.{export_merged_snapshot}
use s5_rs.Fs.Snapshots.Merged.{Answers, export-shard_state}
use s5_rs.Fs.Listing.{CursorCodec, CursorData, Entry, list_entries}
use s5_rs.Fs.Listing.Cursors.{CursorAt, entries, list_entries_lem}

-- `list_entries` of an actor, with the answers of its shards.
unfoldable pub list_directory :
    CursorCodec → (ℕ → Option DirV1) → DirV1 → Option Bytes → ℕ → Option (List Entry × Option Bytes)
list_directory codec answer state cursor limit = elim (export_merged_snapshot answer state) [
  | none ↦ none
  | some snapshot ↦ some (list_entries codec snapshot cursor limit)
]

-- A listing depends on the two maps of the snapshot alone.
list_entries_maps :
    (codec : CursorCodec) (a b : DirV1) (cursor : Option Bytes) (limit : ℕ)
    → a.dirs ≡ b.dirs
    → a.files ≡ b.files
    → list_entries codec a cursor limit ≡ list_entries codec b cursor limit
unfolding list_entries
list_entries_maps codec a b cursor limit dirs files = rw (dirs, files) refl

list_directory_lem :
    (codec : CursorCodec) (answer : ℕ → Option DirV1) (state snapshot : DirV1)
    (cursor : Option Bytes) (limit : ℕ)
    → export_merged_snapshot answer state ≡ some snapshot
    → list_directory codec answer state cursor limit
      ≡ some (list_entries codec snapshot cursor limit)
unfolding list_directory
list_directory_lem codec answer state snapshot cursor limit h = rw (list_directory, h) refl

-- A page of the directory after its split is that of the entries from before it.
list_directory-shard_state :
    (xxh3_64 : Bytes → ℕ) (level : ℕ) (st : DirV1) (answer : ℕ → Option DirV1)
    (store_shard : ℕ → DirV1 → Option DirRef) (codec : CursorCodec) (cursor : Option Bytes)
    (limit : ℕ)
    → IsSorted st.dirs
    → IsSorted st.files
    → st.header.shard_level ≡ none
    → st.header.shards ≡ none
    → ((i : ℕ) (s : DirV1) → (d : DirRef) × (store_shard i s ≡ some d))
    → Answers xxh3_64 level st answer
    → list_directory codec answer (shard_state store_shard xxh3_64 level st).0 cursor limit
      ≡ some (list_entries codec st cursor limit)
list_directory-shard_state xxh3_64 level st answer store_shard codec cursor limit od of flat_level
      no_shards stores answers =
    let split =
      export-shard_state xxh3_64 level st answer store_shard od of flat_level no_shards stores
        answers in
    let (m, exported, shows, gone) = split.1 in
    list_directory_lem codec answer _ m cursor limit exported
    ∙ ap some (
        list_entries_maps codec m st cursor limit
          (get_ext m.dirs st.dirs shows.dirs_IsSorted od shows.same_dirs)
          (get_ext m.files st.files shows.files_IsSorted of shows.same_files))

-- The pages after the split, by the cursors, are those of the entries from before it.
pub list_directory-entries :
    (xxh3_64 : Bytes → ℕ) (level : ℕ) (st : DirV1) (answer : ℕ → Option DirV1)
    (store_shard : ℕ → DirV1 → Option DirRef) (codec : CursorCodec) (k n : ℕ)
    (cursor : Option Bytes)
    → IsSorted st.dirs
    → IsSorted st.files
    → st.header.shard_level ≡ none
    → st.header.shards ≡ none
    → ((i : ℕ) (s : DirV1) → (d : DirRef) × (store_shard i s ≡ some d))
    → Answers xxh3_64 level st answer
    → ((c : CursorData) → codec.decode_cursor (codec.encode_cursor c) ≡ some c)
    → 0 < n
    → CursorAt codec st k cursor
    → (page : List Entry) × (next : Option Bytes) × (list_directory codec answer
          (shard_state store_shard xxh3_64 level st).0
          cursor
          n
        ≡ some (page, next))
      × (page ≡ take n (drop k (entries st)))
      × ((drop k (entries st) ≡ []) ⊎ CursorAt codec st (k + n) next)
list_directory-entries xxh3_64 level st answer store_shard codec k n cursor od of flat_level
      no_shards stores answers round room at =
    let (page, next) = list_entries codec st cursor n in
    let (shown, goes_on) = list_entries_lem codec st k n cursor round room at in
    (
      page,
      next,
      list_directory-shard_state xxh3_64 level st answer store_shard codec cursor n od of flat_level
          no_shards stores answers,
      shown,
      goes_on,
    )
