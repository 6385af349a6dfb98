-- ===== src/Fs/Listing/Cursors.antt =====
-- Following the cursors of a listing (s5_fs/src/actor/listing.rs, list_entries).
use s5_rs.Base.{
  ℕ, zero, suc, ◌+◌, ◌<◌, ◌≡◌, refl, sym, ap, ap₂, ◌∙◌, Bytes, Bool, true, Option, some, none, List,
  [], ◌∷◌, ◌++◌, ◌⊎◌, inl, inr, arith, keep, take, drop, take-add, bytes_ord, subst, Ord,
}
use s5_rs.BTreeMap
use s5_rs.BTreeMap.{BTreeMap, keys}
use s5_rs.BTreeMap.Sorted.{Above, IsSorted, insert-IsSorted}
use s5_rs.Fs.Dir.{DirV1}
use s5_rs.Fs.Listing.{
  file, directory, CursorData, CursorCodec, starts_at, name_set, dirs_start, files_start, Entry,
  fill, last, cursor_of, next_cursor, list_entries,
}
use s5_rs.Fs.Listing.Order.{
  entry_cmp, entry_ord, Over, Increasing, merged, fill-merged, merged-Increasing,
}
use s5_rs.Fs.Listing.Pages.{is_after, dirs_after, files_after, keep-merged, keep-last}

keep_ext {ℓ} :
    {A : Type ℓ} (p q : A → Bool) (xs : List A) → ((x : A) → p x ≡ q x) → keep p xs ≡ keep q xs
unfolding keep
keep_ext p q [] e = refl
keep_ext p q (x ∷ xs) e = ground (arith, e x, keep_ext p q xs e)

keep-true {ℓ} : {A : Type ℓ} (xs : List A) → keep (λ x. true) xs ≡ xs
unfolding keep
keep-true [] = refl
keep-true (x ∷ xs) = ap (◌∷◌ x) (keep-true xs)

module _ {ℓ κ} {K : Type ℓ} {V : Type κ} ⦃o : Ord K⦄ where
  keys-Over : (k : K) (m : BTreeMap K V) → Above k m → Over k (keys m)
  keys-Over k [] a = tt
  keys-Over k (e ∷ m) a = (a.0, keys-Over k m a.1)

  keys-Increasing : (m : BTreeMap K V) → IsSorted m → Increasing (keys m)
  keys-Increasing [] s = tt
  keys-Increasing (e ∷ m) s = (keys-Over e.0 m s.0, keys-Increasing m s.1)

name_set-IsSorted : (names : List Bytes) → IsSorted (name_set names)
unfolding name_set
name_set-IsSorted [] = tt
name_set-IsSorted (name ∷ names) =
    insert-IsSorted name tt (name_set names) (name_set-IsSorted names)

Increasing-keep :
    (p : Bytes → Bool) (names : List Bytes) → Increasing names → Increasing (keep p names)
unfolding keep
Increasing-keep p [] a = tt
Increasing-keep p (x ∷ names) a =
    ground (arith, Over-keep p x names a.0, Increasing-keep p names a.1)
  where
    Over-keep :
        (p : Bytes → Bool) (x : Bytes) (names : List Bytes) → Over x names → Over x (keep p names)
    Over-keep p x [] a = tt
    Over-keep p x (y ∷ names) a = ground (arith, a.0, Over-keep p x names a.1)

-- The start of a range after a cursor is the place of its entry.
dirs_start-is_after :
    (e : Entry) (d : Bytes)
    → starts_at (dirs_start (some (cursor_of e))) d ≡ is_after e (d, directory)
unfolding entry_cmp
dirs_start-is_after (name, file) d = ground arith
dirs_start-is_after (name, directory) d = ground arith

files_start-is_after :
    (e : Entry) (f : Bytes) → starts_at (files_start (some (cursor_of e))) f ≡ is_after e (f, file)
unfolding entry_cmp
files_start-is_after (name, file) f = ground arith
files_start-is_after (name, directory) f = ground arith

-- All entries of a directory, in the order of a listing.
unfoldable pub entries : DirV1 → List Entry
entries snapshot =
    merged (keys (name_set (keys snapshot.dirs))) (keys (name_set (keys snapshot.files)))

entries-Increasing : (snapshot : DirV1) → Increasing (entries snapshot)
unfolding entries
entries-Increasing snapshot =
    merged-Increasing _ _ (keys-Increasing _ (name_set-IsSorted (keys snapshot.dirs)))
      (keys-Increasing _ (name_set-IsSorted (keys snapshot.files)))

last-append :
    (xs : List Entry) (y : Entry) (ys : List Entry) → last (xs ++ (y ∷ ys)) ≡ last (y ∷ ys)
last-append [] y ys = refl
last-append (x ∷ []) y ys = refl
last-append (x ∷ z ∷ xs) y ys = last-append (z ∷ xs) y ys

last-some : (y : Entry) (ys : List Entry) → (e : Entry) × (last (y ∷ ys) ≡ some e)
last-some y [] = (y, refl)
last-some y (z ∷ ys) = last-some z ys

page_cases :
    (n : ℕ) (es : List Entry)
    → 0 < n
    → (es ≡ []) ⊎ ((e : Entry) × (r : List Entry) × (take n es ≡ e ∷ r))
page_cases zero es h = absurd (omega arith)
page_cases (suc n) [] h = inl refl
page_cases (suc n) (e ∷ es) h = inr (e, take n es, refl)

module _ (codec : CursorCodec) (snapshot : DirV1) where
  -- The cursor that a listing of the first `k` entries ends with.
  abbrev pub CursorAt : ℕ → Option Bytes → Type 0
  CursorAt k cursor =
      ((cursor ≡ none) × (k ≡ 0))
      ⊎ ((e : Entry) × (last (take k (entries snapshot)) ≡ some e)
          × (cursor ≡ some (codec.encode_cursor (cursor_of e))))

  abbrev dirs : List Bytes
  dirs = keys (name_set (keys snapshot.dirs))

  abbrev files : List Bytes
  files = keys (name_set (keys snapshot.files))

  -- The page that starts at a cursor.
  list_entries-page :
      (k n : ℕ) (cursor : Option Bytes)
      → ((c : CursorData) → codec.decode_cursor (codec.encode_cursor c) ≡ some c)
      → CursorAt k cursor
      → (list_entries codec snapshot cursor n).0 ≡ take n (drop k (entries snapshot))
  unfolding list_entries entries
  list_entries-page k n cursor round (inl (start, zero_k)) =
      let a = keys-Increasing _ (name_set-IsSorted (keys snapshot.dirs)) in
      let b = keys-Increasing _ (name_set-IsSorted (keys snapshot.files)) in
      rw (start, zero_k, keep-true dirs, keep-true files) (fill-merged n dirs files a b)
  list_entries-page k n cursor round (inr (e, ends, start)) =
      let a = keys-Increasing _ (name_set-IsSorted (keys snapshot.dirs)) in
      let b = keys-Increasing _ (name_set-IsSorted (keys snapshot.files)) in
      rw (start, round (cursor_of e))
        (ap₂ (fill n) (keep_ext _ _ dirs (dirs_start-is_after e))
            (keep_ext _ _ files (files_start-is_after e))
          ∙ fill-merged n (dirs_after e dirs) (files_after e files) (Increasing-keep _ dirs a)
              (Increasing-keep _ files b)
          ∙ ap (take n) (
              sym (keep-merged e dirs files a b)
              ∙ keep-last k (merged dirs files) (merged-Increasing dirs files a b) ends))

  next_cursor_lem :
      (cursor : Option Bytes) (n : ℕ)
      → (list_entries codec snapshot cursor n).1
        ≡ next_cursor codec (last (list_entries codec snapshot cursor n).0)
  unfolding list_entries
  next_cursor_lem cursor n = refl

  -- From the cursor that a listing of the first k entries ends with, for a codec whose cursors
  -- decode to what was encoded and a limit of one or more, list_entries gives the next entries of
  -- the merged snapshot, as many as the limit allows; unless all have been listed before, its
  -- cursor is that of a listing up to there, so that following the cursors lists every entry once
  -- and in order.
  pub list_entries_lem :
      (k n : ℕ) (cursor : Option Bytes)
      → ((c : CursorData) → codec.decode_cursor (codec.encode_cursor c) ≡ some c)
      → 0 < n
      → CursorAt k cursor
      → ((list_entries codec snapshot cursor n).0 ≡ take n (drop k (entries snapshot)))
        × ((drop k (entries snapshot) ≡ [])
            ⊎ CursorAt (k + n) (list_entries codec snapshot cursor n).1)
  list_entries_lem k n cursor round room at =
      let page = list_entries-page k n cursor round at in
      (
        page,
        elim (page_cases n (drop k (entries snapshot)) room) [
          | inl done ↦ inl done
          | inr (e, r, t) ↦
              let (z, ends) = last-some e r in
              inr (
                inr (
                  z,
                  ap last
                        (take-add k n (entries snapshot) ∙ ap (◌++◌ (take k (entries snapshot))) t)
                      ∙ last-append (take k (entries snapshot)) e r
                      ∙ ends,
                  next_cursor_lem cursor n
                      ∙ ap (λ p. next_cursor codec (last p)) (page ∙ t)
                      ∙ ap (next_cursor codec) ends,
                ))
        ],
      )

insert_front :
    (k : Bytes) (m : BTreeMap Bytes (Unit {0}))
    → Over k (keys m)
    → keys (BTreeMap.insert m k tt) ≡ k ∷ keys m
unfolding BTreeMap.insert
insert_front k [] a = refl
insert_front k (e ∷ m) a = ground (arith, a.0)

name_set-keys {κ} :
    {V : Type κ} (m : BTreeMap Bytes V) → IsSorted m → keys (name_set (keys m)) ≡ keys m
unfolding name_set
name_set-keys [] s = refl
name_set-keys (e ∷ m) s =
    let ih = name_set-keys m s.1 in
    insert_front e.0 (name_set (keys m)) (subst (Over e.0) (sym ih) (keys-Over e.0 m s.0))
    ∙ ap (◌∷◌ e.0) ih

-- The entries of a directory with sorted maps: its names in order, merged.
pub entries-merged :
    (snapshot : DirV1)
    → IsSorted snapshot.dirs
    → IsSorted snapshot.files
    → entries snapshot ≡ merged (keys snapshot.dirs) (keys snapshot.files)
unfolding entries
entries-merged snapshot a b =
    ap₂ merged (name_set-keys snapshot.dirs a) (name_set-keys snapshot.files b)
