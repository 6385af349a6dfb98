-- ===== src/Examples/Listings.antt =====
-- Pages of a directory that holds a directory "a" and files "a" and "b". The codec of cursors writes
-- their fields one after another.
use s5_rs.Base.{
  ℕ, zero, suc, ◌≡◌, refl, Bytes, Option, some, none, List, [], ◌∷◌, ◌++◌, ◌⊎◌, inr, length, take,
  drop, take-append, drop-append, replicate, arith, bytes_ord, cmp_bytes,
}
use s5_rs.BTreeMap
use s5_rs.BTreeMap.{keys}
use s5_rs.Fs.Dir.{DirV1, new_dir, DirRef, new_file}
use s5_rs.Fs.Listing.{
  CursorKind, file, directory, CursorData, CursorCodec, list_entries, cursor_of, name_set,
}
use s5_rs.Fs.Listing.Cursors.{CursorAt, entries, list_entries_lem}
use s5_rs.Fs.Listing.Order.{merged}

abbrev kind_code : CursorKind → ℕ
kind_code file = 0
kind_code directory = 1

abbrev kind_of : ℕ → CursorKind
kind_of zero = file
kind_of (suc n) = directory

abbrev time_code : Option ℕ → ℕ
time_code none = 0
time_code (some n) = suc n

abbrev time_of : ℕ → Option ℕ
time_of zero = none
time_of (suc n) = some n

abbrev path_code : Option (List ℕ) → ℕ
path_code none = 0
path_code (some p) = 1

abbrev path_text : Option (List ℕ) → List ℕ
path_text none = []
path_text (some p) = p

abbrev path_of : ℕ → List ℕ → Option (List ℕ)
path_of zero p = none
path_of (suc n) p = some p

abbrev written : CursorData → Bytes
written c =
    kind_code c.kind
    ∷ time_code c.timestamp
    ∷ path_code c.path
    ∷ length c.position
    ∷ (c.position ++ path_text c.path)

abbrev read : Bytes → Option CursorData
read (k ∷ t ∷ p ∷ n ∷ rest) = some (record {
  position = take n rest;
  kind = kind_of k;
  timestamp = time_of t;
  path = path_of p (drop n rest);
})
read _ = none

kind_round : (k : CursorKind) → kind_of (kind_code k) ≡ k
kind_round file = refl
kind_round directory = refl

time_round : (t : Option ℕ) → time_of (time_code t) ≡ t
time_round none = refl
time_round (some n) = refl

path_round : (p : Option (List ℕ)) → path_of (path_code p) (path_text p) ≡ p
path_round none = refl
path_round (some p) = refl

pub read-written : (c : CursorData) → read (written c) ≡ some c
read-written c = ground (
  arith,
  kind_round c.kind,
  time_round c.timestamp,
  path_round c.path,
  take-append c.position (path_text c.path),
  drop-append c.position (path_text c.path),
)

abbrev pub codec : CursorCodec
codec = record { encode_cursor = written; decode_cursor = read }

abbrev some_dir : DirRef
some_dir = record {
  ref_type = none;
  hash = replicate 32 0;
  ts_seconds = none;
  ts_nanos = none;
  keys = none;
  encryption_type = none;
  extra = none;
}

abbrev three_entries : DirV1
three_entries = record new_dir {
  dirs = (97 ∷ [], some_dir) ∷ [];
  files = (97 ∷ [], new_file (replicate 32 1) 1) ∷ (98 ∷ [], new_file (replicate 32 2) 2) ∷ [];
}

-- The page after the directory "a".
list_entries_example :
    let cursor = some (written (cursor_of (97 ∷ [], directory))) in
    ((list_entries codec three_entries cursor 2).0 ≡ take 2 (drop 1 (entries three_entries)))
    × ((drop 1 (entries three_entries) ≡ [])
        ⊎ CursorAt codec three_entries 3 (list_entries codec three_entries cursor 2).1)
list_entries_example =
    list_entries_lem codec three_entries 1 2 (some (written (cursor_of (97 ∷ [], directory))))
      read-written (omega arith)
      (inr (
        (97 ∷ [], directory),
        unfold entries merged name_set BTreeMap.insert cmp_bytes in refl,
        refl,
      ))
