-- ===== src/Fs/Listing/Pages.antt =====
-- The pages of a listing (s5_fs/src/actor/listing.rs) are the pieces of one list.
use s5_rs.Base.{
  ℕ, zero, suc, ◌≡◌, refl, sym, ap, ap₂, ◌∙◌, Bytes, Bool, true, false, some, List, [], ◌∷◌, ◌⊎◌,
  inl, inr, Bool-cases, Ordering, lt, eq, gt, cmp_bytes, cmp_bytes-flip, bytes_ord, cmp_refl, arith,
  keep, take, drop, All, subst,
}
use s5_rs.Fs.Listing.{file, directory, Entry, CursorKind, last}
use s5_rs.Fs.Listing.Order.{
  entry_cmp, entry_cmp-flip, entry_cmp_trans, entry_ord, Over, Increasing, merged, merged-Over,
  names_after,
}

keep-All {ℓ} : {A : Type ℓ} (p : A → Bool) (xs : List A) → All (λ x. p x ≡ true) xs → keep p xs ≡ xs
unfolding keep
keep-All p [] a = refl
keep-All p (x ∷ xs) a = rw a.0 (ap (◌∷◌ x) (keep-All p xs a.1))

Ordering-cases : (o : Ordering) → ((o ≡ lt) ⊎ (o ≡ eq)) ⊎ (o ≡ gt)
Ordering-cases lt = inl (inl refl)
Ordering-cases eq = inl (inr refl)
Ordering-cases gt = inr refl

-- Whether an entry comes after another.
abbrev pub is_after : Entry → Entry → Bool
is_after c e = elim (entry_cmp c e) [ lt ↦ true | _ ↦ false ]

is_after-lt : (c e : Entry) → entry_cmp c e ≡ lt → is_after c e ≡ true
is_after-lt c e h = ground (arith, h)

All-after :
    (c : Entry) (k : CursorKind) (names : List Bytes)
    → All (λ x. entry_cmp c (x, k) ≡ lt) names
    → All (λ x. is_after c (x, k) ≡ true) names
All-after c k [] a = tt
All-after c k (x ∷ names) a = (is_after-lt c (x, k) a.0, All-after c k names a.1)

Over-after : (c : Entry) (es : List Entry) → Over c es → All (λ e. is_after c e ≡ true) es
Over-after c [] a = tt
Over-after c (e ∷ es) a = (is_after-lt c e a.0, Over-after c es a.1)

module _ (c : Entry) where
  abbrev pub dirs_after : List Bytes → List Bytes
  dirs_after = keep (λ d. is_after c (d, directory))

  abbrev pub files_after : List Bytes → List Bytes
  files_after = keep (λ f. is_after c (f, file))

  All-kept :
      (dirs files : List Bytes)
      → All (λ d. entry_cmp c (d, directory) ≡ lt) dirs
      → All (λ f. entry_cmp c (f, file) ≡ lt) files
      → keep (is_after c) (merged dirs files) ≡ merged (dirs_after dirs) (files_after files)
  All-kept dirs files a b =
      keep-All (is_after c) (merged dirs files) (Over-after c _ (merged-Over c dirs files a b))
      ∙ ap₂ merged (sym (keep-All _ dirs (All-after c directory dirs a)))
          (sym (keep-All _ files (All-after c file files b)))

  lt_of_after : (e : Entry) → is_after c e ≡ true → entry_cmp c e ≡ lt
  lt_of_after e h = ground (arith, h)

  -- If the first entry is kept, all are.
  front_dir :
      (d f : Bytes) (dirs files : List Bytes)
      → Increasing (d ∷ dirs)
      → Increasing (f ∷ files)
      → ((cmp_bytes d f ≡ lt) ⊎ (cmp_bytes d f ≡ eq))
      → is_after c (d, directory) ≡ true
      → keep (is_after c) (merged (d ∷ dirs) (f ∷ files))
        ≡ merged (dirs_after (d ∷ dirs)) (files_after (f ∷ files))
  front_dir d f dirs files a b o h =
      let first = lt_of_after (d, directory) h in
      let second : entry_cmp (d, directory) (f, file) ≡ lt =
        unfold entry_cmp in ground (arith, o) in
      let third = entry_cmp_trans c (d, directory) (f, file) first second in
      All-kept (d ∷ dirs) (f ∷ files) (first, names_after c directory d dirs first a.0)
        (third, names_after c file f files third b.0)

  front_file :
      (d f : Bytes) (dirs files : List Bytes)
      → Increasing (d ∷ dirs)
      → Increasing (f ∷ files)
      → cmp_bytes d f ≡ gt
      → is_after c (f, file) ≡ true
      → keep (is_after c) (merged (d ∷ dirs) (f ∷ files))
        ≡ merged (dirs_after (d ∷ dirs)) (files_after (f ∷ files))
  front_file d f dirs files a b o h =
      let first = lt_of_after (f, file) h in
      let second : entry_cmp (f, file) (d, directory) ≡ lt =
        unfold entry_cmp in ground (arith, o, cmp_bytes-flip d f) in
      let third = entry_cmp_trans c (f, file) (d, directory) first second in
      All-kept (d ∷ dirs) (f ∷ files) (third, names_after c directory d dirs third a.0)
        (first, names_after c file f files first b.0)

  -- The entries after a place are those of the names after it.
  pub keep-merged :
      (dirs files : List Bytes)
      → Increasing dirs
      → Increasing files
      → keep (is_after c) (merged dirs files) ≡ merged (dirs_after dirs) (files_after files)
  unfolding keep merged
  keep-merged [] [] a b = refl
  keep-merged (d ∷ dirs) [] a b = elim (Bool-cases (is_after c (d, directory))) [
    | inl e ↦
        let first = lt_of_after (d, directory) e in
        All-kept (d ∷ dirs) [] (first, names_after c directory d dirs first a.0) tt
    | inr e ↦ rw (e, keep, merged) (keep-merged dirs [] a.1 tt)
  ]
  keep-merged [] (f ∷ files) a b = elim (Bool-cases (is_after c (f, file))) [
    | inl e ↦
        let first = lt_of_after (f, file) e in
        All-kept [] (f ∷ files) tt (first, names_after c file f files first b.0)
    | inr e ↦ rw (e, keep, merged) (keep-merged [] files tt b.1)
  ]
  keep-merged (d ∷ dirs) (f ∷ files) a b = elim (Ordering-cases (cmp_bytes d f)) [
    | inl o ↦ elim (Bool-cases (is_after c (d, directory))) [
      | inl e ↦ front_dir d f dirs files a b o e
      | inr e ↦ ground (arith, o, e, keep-merged dirs (f ∷ files) a.1 b)
    ]
    | inr o ↦ elim (Bool-cases (is_after c (f, file))) [
      | inl e ↦ front_file d f dirs files a b o e
      | inr e ↦ ground (arith, o, e, keep-merged (d ∷ dirs) files a b.1)
    ]
  ]

take_cases :
    (m : ℕ) (es : List Entry)
    → ((take m es ≡ []) × (drop m es ≡ es)) ⊎ ((e : Entry) × (r : List Entry) × (take m es ≡ e ∷ r))
take_cases zero es = inl (refl, refl)
take_cases (suc m) [] = inl (refl, refl)
take_cases (suc m) (e ∷ es) = inr (e, take m es, refl)

last-Over :
    (x : Entry) (m : ℕ) (es : List Entry) {e : Entry}
    → Over x es
    → last (take m es) ≡ some e
    → entry_cmp x e ≡ lt
last-Over x zero es a h = absurd (ground (arith, h))
last-Over x (suc m) [] a h = absurd (ground (arith, h))
last-Over x (suc m) (y ∷ es) {e} a h = elim (take_cases m es) [
  | inl (t, d) ↦ let same : y ≡ e = ground (arith, h, t) in subst (λ z. entry_cmp x z ≡ lt) same a.0
  | inr (z, r, t) ↦ last-Over x m es a.1 (ground (arith, h, t))
]

keep_self : (x : Entry) (es : List Entry) → Over x es → keep (is_after x) (x ∷ es) ≡ es
unfolding keep
keep_self x es a =
    let same = keep-All (is_after x) es (Over-after x es a) in ground (arith, cmp_refl x, same)

-- What comes after the last entry of a page is what the page leaves.
pub keep-last :
    (n : ℕ) (es : List Entry) {e : Entry}
    → Increasing es
    → last (take n es) ≡ some e
    → keep (is_after e) es ≡ drop n es
unfolding keep
keep-last zero es s h = absurd (ground (arith, h))
keep-last (suc n) [] s h = absurd (ground (arith, h))
keep-last (suc n) (x ∷ es) {e} s h = elim (take_cases n es) [
  | inl (t, d) ↦
      let same : x ≡ e = ground (arith, h, t) in
      ap (λ c. keep (is_after c) (x ∷ es)) (sym same) ∙ keep_self x es s.0 ∙ sym d
  | inr (z, r, t) ↦
      let rest : last (take n es) ≡ some e = ground (arith, h, t) in
      let less = last-Over x n es s.0 rest in
      ground (arith, entry_cmp-flip x e, less, keep-last n es s.1 rest)
]
