-- ===== src/BTreeMap/Sorted.antt =====
-- Maps whose keys stand in increasing order, as those that a `BTreeMap` can hold.
use s5_rs.Base.{◌≡◌, refl, none, [], ◌∷◌, arith, lt, Ord}
use s5_rs.BTreeMap.{BTreeMap, get, insert, remove}

module _ {ℓ κ} {K : Type ℓ} {V : Type κ} ⦃o : Ord K⦄ where
  abbrev pub Above : K → BTreeMap K V → Type 0
  Above k [] = Unit
  Above k (e ∷ m) = (o.cmp k e.0 ≡ lt) × Above k m

  abbrev pub IsSorted : BTreeMap K V → Type 0
  IsSorted [] = Unit
  IsSorted (e ∷ m) = Above e.0 m × IsSorted m

  pub Above-trans : (j k : K) (m : BTreeMap K V) → o.cmp j k ≡ lt → Above k m → Above j m
  Above-trans j k [] h a = tt
  Above-trans j k (e ∷ m) h a = (o.cmp_trans j k e.0 h a.0, Above-trans j k m h a.1)

  pub get-Above : (k : K) (m : BTreeMap K V) → Above k m → get m k ≡ none
  unfolding get
  get-Above k [] a = refl
  get-Above k (e ∷ m) a = ground (arith, get-Above k m a.1, o.cmp_flip k e.0)

  pub insert-Above :
      (j k : K) (v : V) (m : BTreeMap K V) → o.cmp j k ≡ lt → Above j m → Above j (insert m k v)
  unfolding insert
  insert-Above j k v [] h a = (h, tt)
  insert-Above j k v (e ∷ m) h a = ground (arith, insert-Above j k v m h a.1)

  pub remove-Above : (j k : K) (m : BTreeMap K V) → Above j m → Above j (remove m k)
  unfolding remove
  remove-Above j k [] a = tt
  remove-Above j k (e ∷ m) a = ground (arith, remove-Above j k m a.1)

  -- `insert` and `remove` keep the keys in order.
  pub insert-IsSorted : (k : K) (v : V) (m : BTreeMap K V) → IsSorted m → IsSorted (insert m k v)
  unfolding insert
  insert-IsSorted k v [] s = (tt, tt)
  insert-IsSorted k v (e ∷ m) s = ground (
    arith,
    insert-IsSorted k v m s.1,
    insert-Above e.0 k v m,
    o.cmp_flip k e.0,
    o.cmp_eq k e.0,
    Above-trans k e.0 m,
  )

  pub remove-IsSorted : (k : K) (m : BTreeMap K V) → IsSorted m → IsSorted (remove m k)
  unfolding remove
  remove-IsSorted k [] s = tt
  remove-IsSorted k (e ∷ m) s = ground (arith, remove-IsSorted k m s.1, remove-Above e.0 k m s.0)
