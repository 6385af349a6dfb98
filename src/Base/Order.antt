-- ===== src/Base/Order.antt =====
-- `Ord`: the comparison of keys, as an interface with its laws, for numbers and byte strings.
use Prim.Native.Nat.{ℕ, compare, Ordering}
use Prim.Native.Nat.Ordering.{lt, eq, gt}
use mathlib.Core.Path.{◌≡◌, refl, sym, subst}
use mathlib.Core.Bool.{Bool, true, false}
use mathlib.Core.List.{[], ◌∷◌}
use mathlib.Core.Logic.{◌≢◌}
use native.Mathlib.Omega.{arith}
use s5_rs.Base.Lists.{Bytes}

-- `Ordering::reverse`.
abbrev pub flip : Ordering → Ordering
flip lt = gt
flip eq = eq
flip gt = lt

-- `Ordering::then`.
abbrev pub and_then : Ordering → Ordering → Ordering
and_then lt o = lt
and_then eq o = o
and_then gt o = gt

pub record Ord {ℓ} (K : Type ℓ) : Type ℓ where
  pub cmp : K → K → Ordering
  pub cmp_flip : (a b : K) → cmp b a ≡ flip (cmp a b)
  pub cmp_eq : (a b : K) → cmp a b ≡ eq → a ≡ b
  pub cmp_trans : (a b c : K) → cmp a b ≡ lt → cmp b c ≡ lt → cmp a c ≡ lt

flip_fixed : (o : Ordering) → o ≡ flip o → o ≡ eq
flip_fixed lt h = cc
flip_fixed eq h = refl
flip_fixed gt h = cc

module _ {ℓ} {K : Type ℓ} ⦃o : Ord K⦄ where
  pub cmp_refl : (a : K) → o.cmp a a ≡ eq
  cmp_refl a = flip_fixed (o.cmp a a) (o.cmp_flip a a)

  abbrev pub is_same : K → K → Bool
  is_same a b = elim (o.cmp a b) [ eq ↦ true | _ ↦ false ]

  pub is_same_eq : (a b : K) → is_same a b ≡ true → a ≡ b
  is_same_eq a b = ground (arith, o.cmp_eq a b)

  pub is_same_refl : (a : K) → is_same a a ≡ true
  is_same_refl a = rw (cmp_refl a, is_same)

  pub is_same_ne : (a b : K) → a ≢ b → is_same a b ≡ false
  is_same_ne a b = ground (arith, o.cmp_eq a b)

pub compare_trans : (a b c : ℕ) → compare a b ≡ lt → compare b c ≡ lt → compare a c ≡ lt
compare_trans a b c = ground arith

pub compare-flip : (a b : ℕ) → compare b a ≡ flip (compare a b)
compare-flip a b = ground arith

pub compare-eq : (a b : ℕ) → compare a b ≡ eq → a ≡ b
compare-eq a b = ground arith

instance abbrev pub nat_ord : Ord ℕ
nat_ord = record {
  cmp = compare;
  cmp_flip = compare-flip;
  cmp_eq = compare-eq;
  cmp_trans = compare_trans;
}

-- Slices and strings compare byte by byte, and a proper prefix is smaller.
unfoldable pub cmp_bytes : Bytes → Bytes → Ordering
cmp_bytes [] [] = eq
cmp_bytes [] (y ∷ ys) = lt
cmp_bytes (x ∷ xs) [] = gt
cmp_bytes (x ∷ xs) (y ∷ ys) = and_then (compare x y) (cmp_bytes xs ys)

pub cmp_bytes-flip : (a b : Bytes) → cmp_bytes b a ≡ flip (cmp_bytes a b)
unfolding cmp_bytes
cmp_bytes-flip [] [] = refl
cmp_bytes-flip [] (y ∷ ys) = refl
cmp_bytes-flip (x ∷ xs) [] = refl
cmp_bytes-flip (x ∷ xs) (y ∷ ys) = ground (arith, cmp_bytes-flip xs ys)

pub cmp_bytes-eq : (a b : Bytes) → cmp_bytes a b ≡ eq → a ≡ b
unfolding cmp_bytes
cmp_bytes-eq [] [] h = refl
cmp_bytes-eq [] (y ∷ ys) h = cc
cmp_bytes-eq (x ∷ xs) [] h = cc
cmp_bytes-eq (x ∷ xs) (y ∷ ys) h = ground (arith, cmp_bytes-eq xs ys)

pub cmp_bytes_trans : (a b c : Bytes) → cmp_bytes a b ≡ lt → cmp_bytes b c ≡ lt → cmp_bytes a c ≡ lt
unfolding cmp_bytes
cmp_bytes_trans [] [] c p q = cc
cmp_bytes_trans [] (y ∷ ys) [] p q = cc
cmp_bytes_trans [] (y ∷ ys) (z ∷ zs) p q = refl
cmp_bytes_trans (x ∷ xs) [] c p q = cc
cmp_bytes_trans (x ∷ xs) (y ∷ ys) [] p q = cc
cmp_bytes_trans (x ∷ xs) (y ∷ ys) (z ∷ zs) p q = ground (arith, cmp_bytes_trans xs ys zs)

instance abbrev pub bytes_ord : Ord Bytes
bytes_ord = record {
  cmp = cmp_bytes;
  cmp_flip = cmp_bytes-flip;
  cmp_eq = cmp_bytes-eq;
  cmp_trans = cmp_bytes_trans;
}

Bool_eq : (x y : Bool) → (x ≡ true → y ≡ true) → (y ≡ true → x ≡ true) → x ≡ y
Bool_eq true true f g = refl
Bool_eq true false f g = sym (f refl)
Bool_eq false true f g = g refl
Bool_eq false false f g = refl

-- Tests of keys agree where equality of the keys does.
module _ {ℓ κ} {K : Type ℓ} {L : Type κ} ⦃o : Ord K⦄ ⦃p : Ord L⦄ where
  pub is_same_alike :
      (a b : K) (c d : L) → (a ≡ b → c ≡ d) → (c ≡ d → a ≡ b) → is_same a b ≡ is_same c d
  is_same_alike a b c d f g =
      Bool_eq (is_same a b) (is_same c d)
        (λ h. subst (λ x. is_same c x ≡ true) (f (is_same_eq a b h)) (is_same_refl c))
        (λ h. subst (λ x. is_same a x ≡ true) (g (is_same_eq c d h)) (is_same_refl a))
