-- ===== src/Fs/Listing/Order.antt =====
-- The entries of a directory in the order of a listing: by name, a directory before a file
-- (s5_fs/src/actor/listing.rs).
use s5_rs.Base.{
  ℕ, zero, suc, ◌≡◌, refl, sym, ap, ◌∙◌, Bytes, List, [], ◌∷◌, Ordering, lt, eq, gt, and_then, flip,
  compare, cmp_bytes, cmp_bytes-flip, cmp_bytes-eq, cmp_bytes_trans, bytes_ord, Ord, arith, take,
  take, All,
}
use s5_rs.Fs.Listing.{CursorKind, file, directory, Entry, fill}

abbrev pub rank : CursorKind → ℕ
rank directory = 0
rank file = 1

rank_injective : (a b : CursorKind) → rank a ≡ rank b → a ≡ b
rank_injective file file h = refl
rank_injective file directory h = absurd (omega arith)
rank_injective directory file h = absurd (omega arith)
rank_injective directory directory h = refl

unfoldable pub entry_cmp : Entry → Entry → Ordering
entry_cmp a b = and_then (cmp_bytes a.0 b.0) (compare (rank a.1) (rank b.1))

pub entry_cmp-flip : (a b : Entry) → entry_cmp b a ≡ flip (entry_cmp a b)
unfolding entry_cmp
entry_cmp-flip a b = ground (arith, cmp_bytes-flip a.0 b.0)

pub entry_cmp-eq : (a b : Entry) → entry_cmp a b ≡ eq → a ≡ b
unfolding entry_cmp
entry_cmp-eq a b h = ground (arith, h, cmp_bytes-eq a.0 b.0, rank_injective a.1 b.1)

pub entry_cmp_trans : (a b c : Entry) → entry_cmp a b ≡ lt → entry_cmp b c ≡ lt → entry_cmp a c ≡ lt
unfolding entry_cmp
entry_cmp_trans a b c p q =
    ground (arith, p, q, cmp_bytes_trans a.0 b.0 c.0, cmp_bytes-eq a.0 b.0, cmp_bytes-eq b.0 c.0)

instance abbrev pub entry_ord : Ord Entry
entry_ord = record {
  cmp = entry_cmp;
  cmp_flip = entry_cmp-flip;
  cmp_eq = entry_cmp-eq;
  cmp_trans = entry_cmp_trans;
}

-- Lists in strictly increasing order.
module _ {ℓ} {K : Type ℓ} ⦃o : Ord K⦄ where
  abbrev pub Over : K → List K → Type 0
  Over k xs = All (λ x. o.cmp k x ≡ lt) xs

  abbrev pub Increasing : List K → Type 0
  Increasing [] = Unit
  Increasing (x ∷ xs) = Over x xs × Increasing xs

  pub Over-trans : (j k : K) (xs : List K) → o.cmp j k ≡ lt → Over k xs → Over j xs
  Over-trans j k [] h a = tt
  Over-trans j k (x ∷ xs) h a = (o.cmp_trans j k x h a.0, Over-trans j k xs h a.1)

-- All entries, in the order in which the loop takes them.
unfoldable pub merged : List Bytes → List Bytes → List Entry
merged [] [] = []
merged (d ∷ dirs) [] = (d, directory) ∷ merged dirs []
merged [] (f ∷ files) = (f, file) ∷ merged [] files
merged (d ∷ dirs) (f ∷ files) = elim (cmp_bytes d f) [
  | lt ↦ (d, directory) ∷ merged dirs (f ∷ files)
  | eq ↦ (d, directory) ∷ merged dirs (f ∷ files)
  | gt ↦ (f, file) ∷ merged (d ∷ dirs) files
]

merged_file :
    (f : Bytes) (dirs files : List Bytes)
    → Over f dirs
    → merged dirs (f ∷ files) ≡ (f, file) ∷ merged dirs files
unfolding merged
merged_file f [] [] a = refl
merged_file f [] (g ∷ files) a = refl
merged_file f (d ∷ dirs) files a = ground (arith, a.0, cmp_bytes-flip f d)

merged_tie :
    (d f : Bytes) (dirs files : List Bytes)
    → cmp_bytes d f ≡ eq
    → Over d dirs
    → merged dirs (f ∷ files) ≡ (d, file) ∷ merged dirs files
merged_tie d f dirs files e a =
    let same : f ≡ d = sym (cmp_bytes-eq d f e) in
    ap (λ (x : Bytes). merged dirs (x ∷ files)) same ∙ merged_file d dirs files a

-- The loop takes as many of them as there is room for.
pub fill-merged :
    (n : ℕ) (dirs files : List Bytes)
    → Increasing dirs
    → Increasing files
    → fill n dirs files ≡ take n (merged dirs files)
unfolding fill merged
fill-merged zero dirs files a b = refl
fill-merged (suc n) [] [] a b = refl
fill-merged (suc n) (d ∷ dirs) [] a b = ap (◌∷◌ (d, directory)) (fill-merged n dirs [] a.1 tt)
fill-merged (suc n) [] (f ∷ files) a b = ap (◌∷◌ (f, file)) (fill-merged n [] files tt b.1)
fill-merged (suc zero) (d ∷ dirs) (f ∷ files) a b = ground arith
fill-merged (suc (suc n)) (d ∷ dirs) (f ∷ files) a b = ground (
  arith,
  fill-merged (suc n) dirs (f ∷ files) a.1 b,
  fill-merged (suc n) (d ∷ dirs) files a b.1,
  fill-merged n dirs files a.1 b.1,
  λ (e : cmp_bytes d f ≡ eq). merged_tie d f dirs files e a.0,
)

-- The entries of a listing are in order.
pub merged-Over :
    (e : Entry) (dirs files : List Bytes)
    → All (λ d. entry_cmp e (d, directory) ≡ lt) dirs
    → All (λ f. entry_cmp e (f, file) ≡ lt) files
    → Over e (merged dirs files)
unfolding merged
merged-Over e [] [] a b = tt
merged-Over e (d ∷ dirs) [] a b = (a.0, merged-Over e dirs [] a.1 tt)
merged-Over e [] (f ∷ files) a b = (b.0, merged-Over e [] files tt b.1)
merged-Over e (d ∷ dirs) (f ∷ files) a b =
    ground (arith, a, b, merged-Over e dirs (f ∷ files) a.1 b, merged-Over e (d ∷ dirs) files a b.1)

-- What follows a name, as entries of one kind.
pub names_after :
    (e : Entry) (k : CursorKind) (name : Bytes) (names : List Bytes)
    → entry_cmp e (name, k) ≡ lt
    → Over name names
    → All (λ x. entry_cmp e (x, k) ≡ lt) names
unfolding entry_cmp
names_after e k name [] h a = tt
names_after e k name (x ∷ names) h a =
    (entry_cmp_trans e (name, k) (x, k) h (ground (arith, a.0)), names_after e k name names h a.1)

later_names :
    (d : Bytes) (k j : CursorKind) (names : List Bytes)
    → Over d names
    → All (λ x. entry_cmp (d, k) (x, j) ≡ lt) names
unfolding entry_cmp
later_names d k j [] a = tt
later_names d k j (x ∷ names) a = (ground (arith, a.0), later_names d k j names a.1)

first_dir :
    (d f : Bytes) (dirs files : List Bytes)
    → Increasing (d ∷ dirs)
    → Increasing (f ∷ files)
    → entry_cmp (d, directory) (f, file) ≡ lt
    → Over (d, directory) (merged dirs (f ∷ files))
first_dir d f dirs files a b h =
    merged-Over (d, directory) dirs (f ∷ files) (later_names d directory directory dirs a.0)
      (h, names_after (d, directory) file f files h b.0)

first_file :
    (d f : Bytes) (dirs files : List Bytes)
    → Increasing (d ∷ dirs)
    → Increasing (f ∷ files)
    → entry_cmp (f, file) (d, directory) ≡ lt
    → Over (f, file) (merged (d ∷ dirs) files)
first_file d f dirs files a b h =
    merged-Over (f, file) (d ∷ dirs) files (h, names_after (f, file) directory d dirs h a.0)
      (later_names f file file files b.0)

pub merged-Increasing :
    (dirs files : List Bytes) → Increasing dirs → Increasing files → Increasing (merged dirs files)
unfolding merged entry_cmp
merged-Increasing [] [] a b = tt
merged-Increasing (d ∷ dirs) [] a b = (
  merged-Over (d, directory) dirs [] (later_names d directory directory dirs a.0) tt,
  merged-Increasing dirs [] a.1 tt,
)
merged-Increasing [] (f ∷ files) a b = (
  merged-Over (f, file) [] files tt (later_names f file file files b.0),
  merged-Increasing [] files tt b.1,
)
merged-Increasing (d ∷ dirs) (f ∷ files) a b = ground (
  arith,
  cmp_bytes-flip d f,
  first_dir d f dirs files a b,
  first_file d f dirs files a b,
  merged-Increasing dirs (f ∷ files) a.1 b,
  merged-Increasing (d ∷ dirs) files a b.1,
)
