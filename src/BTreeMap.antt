-- ===== src/BTreeMap.antt =====
-- The standard library's `BTreeMap`, `HashMap` and `DashMap`, as the source uses them: an
-- association list that `insert` keeps in the order of its keys. The order matters only where the
-- source iterates over a `BTreeMap`.
pub mod Sorted
pub mod Extensional
use s5_rs.Base.{
  ◌≡◌, refl, Bool, Option, none, some, List, [], ◌∷◌, map, arith, lt, eq, gt, if◌then◌else◌,
  is_some, false, Ord, is_same, is_same_refl, cmp_refl,
}

abbrev pub BTreeMap {ℓ κ} : Type ℓ → Type κ → Type (ℓ ⊔ κ)
BTreeMap K V = List (K × V)

module _ {ℓ κ} {K : Type ℓ} {V : Type κ} where
  abbrev pub keys : BTreeMap K V → List K
  keys = map (λ e. e.0)

  abbrev pub values : BTreeMap K V → List V
  values = map (λ e. e.1)

module _ {ℓ κ} {K : Type ℓ} {V : Type κ} ⦃o : Ord K⦄ where
  unfoldable pub get : BTreeMap K V → K → Option V
  get [] k = none
  get ((j, v) ∷ m) k = let rest = get m k in if is_same j k then some v else rest

  abbrev pub contains_key : BTreeMap K V → K → Bool
  contains_key m k = is_some (get m k)

  unfoldable pub insert : BTreeMap K V → K → V → BTreeMap K V
  insert [] k v = (k, v) ∷ []
  insert ((j, w) ∷ m) k v = elim (o.cmp k j) [
    | lt ↦ (k, v) ∷ (j, w) ∷ m
    | eq ↦ (k, v) ∷ m
    | gt ↦ (j, w) ∷ insert m k v
  ]

  unfoldable pub remove : BTreeMap K V → K → BTreeMap K V
  remove [] k = []
  remove ((j, w) ∷ m) k = let rest = remove m k in if is_same j k then rest else (j, w) ∷ rest

  pub get-insert :
      (m : BTreeMap K V) (k j : K) (v : V)
      → get (insert m k v) j ≡ (if is_same k j then some v else get m j)
  unfolding get insert
  get-insert [] k j v = refl
  get-insert ((i, w) ∷ m) k j v =
      ground (arith, get-insert m k j v, o.cmp_eq k i, o.cmp_eq i j, o.cmp_eq k j, cmp_refl k)

  pub get-remove :
      (m : BTreeMap K V) (k j : K) → get (remove m k) j ≡ (if is_same k j then none else get m j)
  unfolding get remove
  get-remove [] k j = ground arith
  get-remove ((i, w) ∷ m) k j =
      ground (arith, get-remove m k j, o.cmp_eq i j, o.cmp_eq i k, o.cmp_eq k j, cmp_refl k)

  pub get-insert_self : (m : BTreeMap K V) (k : K) (v : V) → get (insert m k v) k ≡ some v
  get-insert_self m k v = rw (get-insert m k k v) (rw (is_same_refl k))

  pub get-remove_self : (m : BTreeMap K V) (k : K) → get (remove m k) k ≡ none
  get-remove_self m k = rw (get-remove m k k) (rw (is_same_refl k))

  pub remove_absent : (m : BTreeMap K V) (k : K) → contains_key m k ≡ false → remove m k ≡ m
  unfolding get remove
  remove_absent [] k h = refl
  remove_absent ((i, w) ∷ m) k h = ground (arith, h, remove_absent m k)
