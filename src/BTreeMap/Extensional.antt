-- ===== src/BTreeMap/Extensional.antt =====
-- A sorted map is given by what it holds at each key.
use s5_rs.Base.{
  ◌≡◌, refl, ap₂, sym, ◌∙◌, none, some, [], ◌∷◌, lt, eq, gt, arith, Ord, Ordering, ◌⊎◌, Bool-cases,
  inl, inr, is_same, is_same_eq, is_same_refl, subst,
}
use s5_rs.BTreeMap.{BTreeMap, get}
use s5_rs.BTreeMap.Sorted.{IsSorted, Above, get-Above, Above-trans}

trichotomy : (c : Ordering) → (c ≡ lt) ⊎ ((c ≡ eq) ⊎ (c ≡ gt))
trichotomy lt = inl refl
trichotomy eq = inr (inl refl)
trichotomy gt = inr (inr refl)

module _ {ℓ κ} {K : Type ℓ} {V : Type κ} ⦃o : Ord K⦄ where
  -- A key before the first one of a map.
  get-before :
      (j k : K) (v : V) (n : BTreeMap K V)
      → o.cmp j k ≡ lt
      → IsSorted ((k, v) ∷ n)
      → get ((k, v) ∷ n) j ≡ none
  get-before j k v n less t = get-Above j ((k, v) ∷ n) (less, Above-trans j k n less t.0)

  get-first : (k : K) (v : V) (n : BTreeMap K V) → get ((k, v) ∷ n) k ≡ some v
  unfolding get
  get-first k v n = ground (arith, is_same_refl k)

  -- After their common first key, two maps hold the same.
  get-tails :
      (k : K) (v w : V) (m n : BTreeMap K V)
      → Above k m
      → Above k n
      → ((i : K) → get ((k, v) ∷ m) i ≡ get ((k, w) ∷ n) i)
      → (i : K) → get m i ≡ get n i
  unfolding get
  get-tails k v w m n a b h i = elim (Bool-cases (is_same k i)) [
    | inl e ↦
        let same = is_same_eq k i e in
        subst (λ x. get m x ≡ get n x) same (get-Above k m a ∙ sym (get-Above k n b))
    | inr e ↦ ground (arith, e, h i)
  ]

  pub get_ext :
      (m n : BTreeMap K V) → IsSorted m → IsSorted n → ((k : K) → get m k ≡ get n k) → m ≡ n
  unfolding get
  get_ext [] [] s t h = refl
  get_ext [] ((k, v) ∷ n) s t h = absurd (ground (arith, h k, is_same_refl k))
  get_ext ((j, w) ∷ m) [] s t h = absurd (ground (arith, h j, is_same_refl j))
  get_ext ((j, w) ∷ m) ((k, v) ∷ n) s t h = elim (trichotomy (o.cmp j k)) [
    | inl less ↦ absurd (ground (arith, get-first j w m, h j, get-before j k v n less t))
    | inr (inl same) ↦
        let key : j ≡ k = o.cmp_eq j k same in
        let left : Above k m = subst (λ x. Above x m) key s.0 in
        let agree : (i : K) → get ((k, w) ∷ m) i ≡ get ((k, v) ∷ n) i =
          subst (λ x. (i : K) → get ((x, w) ∷ m) i ≡ get ((k, v) ∷ n) i) key h in
        let value : w ≡ v = ground (arith, get-first k w m, get-first k v n, agree k) in
        let rest = get_ext m n s.1 t.1 (get-tails k w v m n left t.0 agree) in
        ap₂ ◌∷◌ (ap₂ (λ x y. (x, y)) key value) rest
    | inr (inr more) ↦
        let less : o.cmp k j ≡ lt = ground (arith, more, o.cmp_flip j k) in
        absurd (ground (arith, get-first k v n, h k, get-before k j w m less s))
  ]
