-- ===== src/Fs/Listing.antt =====
-- Listing a directory page by page (s5_fs/src/actor/listing.rs; cursors s5_fs/src/api.rs). The
-- encoding of cursors, base64url of CBOR, is a parameter.
pub mod Order
pub mod Pages
pub mod Cursors
pub mod Sharded
use s5_rs.Base.{
  ℕ, zero, suc, Bytes, Bool, true, false, Option, none, some, List, [], ◌∷◌, map, lt, eq, gt,
  if◌then◌else◌, keep, cmp_bytes, bytes_ord, Ord,
}
use s5_rs.BTreeMap
use s5_rs.BTreeMap.{BTreeMap, keys}
use s5_rs.Fs.Dir.{DirV1}

pub data CursorKind : Type 0 where
  file directory : CursorKind

pub record CursorData : Type 0 where
  pub position : Bytes
  pub kind : CursorKind
  pub timestamp : Option ℕ
  pub path : Option (List ℕ)

-- `encode_cursor` and `decode_cursor`.
pub record CursorCodec : Type 0 where
  pub encode_cursor : CursorData → Bytes
  pub decode_cursor : Bytes → Option CursorData

-- `std::ops::Bound`.
pub data Bound : Type 0 where
  unbounded : Bound
  included excluded : Bytes → Bound

-- Whether a name is past the start of a range.
abbrev pub starts_at : Bound → Bytes → Bool
starts_at unbounded name = true
starts_at (included start) name = elim (cmp_bytes start name) [ gt ↦ false | _ ↦ true ]
starts_at (excluded start) name = elim (cmp_bytes start name) [ lt ↦ true | _ ↦ false ]

-- The names of a map, as the keys of a map to `()`.
unfoldable pub name_set : List Bytes → BTreeMap Bytes (Unit {0})
name_set [] = []
name_set (name ∷ names) = BTreeMap.insert (name_set names) name tt

-- `range` to the end, over the keys.
abbrev pub range : Bound → BTreeMap Bytes (Unit {0}) → List Bytes
range start m = keep (starts_at start) (keys m)

abbrev pub dirs_start : Option CursorData → Bound
dirs_start none = unbounded
dirs_start (some c) = excluded c.position

abbrev pub files_start_of : CursorKind → Bytes → Bound
files_start_of directory name = included name
files_start_of file name = excluded name

abbrev pub files_start : Option CursorData → Bound
files_start none = unbounded
files_start (some c) = files_start_of c.kind c.position

abbrev pub Entry : Type 0
Entry = Bytes × CursorKind

-- The loop of `list_entries`, with the number of entries for which there is room.
unfoldable pub fill : ℕ → List Bytes → List Bytes → List Entry
fill zero dirs files = []
fill (suc n) [] [] = []
fill (suc n) (d ∷ dirs) [] = (d, directory) ∷ fill n dirs []
fill (suc n) [] (f ∷ files) = (f, file) ∷ fill n [] files
fill (suc zero) (d ∷ dirs) (f ∷ files) = elim (cmp_bytes d f) [
  | lt ↦ (d, directory) ∷ []
  | gt ↦ (f, file) ∷ []
  | eq ↦ (d, directory) ∷ []
]
fill (suc (suc n)) (d ∷ dirs) (f ∷ files) = elim (cmp_bytes d f) [
  | lt ↦ (d, directory) ∷ fill (suc n) dirs (f ∷ files)
  | gt ↦ (f, file) ∷ fill (suc n) (d ∷ dirs) files
  | eq ↦ (d, directory) ∷ (d, file) ∷ fill n dirs files
]

-- `out.last()`.
abbrev pub last : List Entry → Option Entry
last [] = none
last (e ∷ []) = some e
last (e ∷ d ∷ entries) = last (d ∷ entries)

abbrev pub cursor_of : Entry → CursorData
cursor_of e = record { position = e.0; kind = e.1; timestamp = none; path = none }

abbrev pub decoded : CursorCodec → Option Bytes → Option CursorData
decoded codec none = none
decoded codec (some c) = codec.decode_cursor c

abbrev pub next_cursor : CursorCodec → Option Entry → Option Bytes
next_cursor codec none = none
next_cursor codec (some e) = some (codec.encode_cursor (cursor_of e))

-- `list_entries` of the merged snapshot: a page and the cursor to the next one.
unfoldable pub list_entries : CursorCodec → DirV1 → Option Bytes → ℕ → List Entry × Option Bytes
list_entries codec snapshot cursor limit =
    let start = decoded codec cursor in
    let out =
      fill limit (range (dirs_start start) (name_set (keys snapshot.dirs)))
        (range (files_start start) (name_set (keys snapshot.files))) in
    (out, next_cursor codec (last out))
