-- ===== src/Base/Words.antt =====
-- `u64::to_le_bytes`, `u64::from_le_bytes` and their big-endian forms, for any number of bytes.
use Prim.Native.Nat.{ℕ, zero, suc, ◌+◌, ◌*◌, ◌/◌, ◌%◌, ◌^◌, ◌<◌}
use mathlib.Core.Path.{◌≡◌, refl, sym, ap, ap₂, ◌∙◌}
use mathlib.Core.List.{[], ◌∷◌, ◌++◌, reverse, reverse-reverse}
use native.Mathlib.Omega.{arith}
use native.Mathlib.Nat.{pow-suc}
use s5_rs.Base.Lists.{length, replicate, Bytes, IsBytes, length-reverse, All-reverse}

-- `n` in `k` bytes, the least significant first.
unfoldable pub to_le : ℕ → ℕ → Bytes
to_le zero n = []
to_le (suc k) n = n % 256 ∷ to_le k (n / 256)

unfoldable pub of_le : Bytes → ℕ
of_le [] = 0
of_le (b ∷ bs) = b + 256 * of_le bs

unfoldable pub to_be : ℕ → ℕ → Bytes
unfolding to_le
to_be k n = reverse (to_le k n)

unfoldable pub of_be : Bytes → ℕ
unfolding of_le
of_be bs = of_le (reverse bs)

pub length-to_le : (k n : ℕ) → length (to_le k n) ≡ k
unfolding to_le
length-to_le zero n = refl
length-to_le (suc k) n = ap suc (length-to_le k (n / 256))

pub to_le-IsBytes : (k n : ℕ) → IsBytes (to_le k n)
unfolding to_le
to_le-IsBytes zero n = tt
to_le-IsBytes (suc k) n = (omega arith, to_le-IsBytes k (n / 256))

pub of_le-to_le : (k n : ℕ) → n < 256 ^ k → of_le (to_le k n) ≡ n
unfolding to_le of_le
of_le-to_le zero n h = omega arith
of_le-to_le (suc k) n h = omega (arith, of_le-to_le k (n / 256) (omega (arith, pow-suc 256 k)))

pub to_le-of_le : (bs : Bytes) → IsBytes bs → to_le (length bs) (of_le bs) ≡ bs
unfolding to_le of_le
to_le-of_le [] h = refl
to_le-of_le (b ∷ bs) h =
    let low : (b + 256 * of_le bs) % 256 ≡ b = omega (arith, h.0) in
    let high : (b + 256 * of_le bs) / 256 ≡ of_le bs = omega (arith, h.0) in
    ap₂ ◌∷◌ low (ap (to_le (length bs)) high ∙ to_le-of_le bs h.1)

pub of_le-lt : (bs : Bytes) → IsBytes bs → of_le bs < 256 ^ length bs
unfolding of_le
of_le-lt [] h = omega arith
of_le-lt (b ∷ bs) h = omega (arith, h.0, of_le-lt bs h.1, pow-suc 256 (length bs))

-- Zeros above the number change nothing.
pub of_le-append-replicate : (bs : Bytes) (k : ℕ) → of_le (bs ++ replicate k 0) ≡ of_le bs
unfolding of_le
of_le-append-replicate [] zero = refl
of_le-append-replicate [] (suc k) = omega (arith, of_le-append-replicate [] k)
of_le-append-replicate (b ∷ bs) k = omega (arith, of_le-append-replicate bs k)

pub length-to_be : (k n : ℕ) → length (to_be k n) ≡ k
unfolding to_be
length-to_be k n = length-reverse (to_le k n) ∙ length-to_le k n

pub to_be-IsBytes : (k n : ℕ) → IsBytes (to_be k n)
unfolding to_be
to_be-IsBytes k n = All-reverse (λ b. b < 256) (to_le k n) (to_le-IsBytes k n)

pub of_be-to_be : (k n : ℕ) → n < 256 ^ k → of_be (to_be k n) ≡ n
unfolding to_be of_be
of_be-to_be k n h = ap of_le (reverse-reverse (to_le k n)) ∙ of_le-to_le k n h

pub to_be-of_be : (bs : Bytes) → IsBytes bs → to_be (length bs) (of_be bs) ≡ bs
unfolding to_be of_be
to_be-of_be bs h =
    ap (λ k. reverse (to_le k (of_le (reverse bs)))) (sym (length-reverse bs))
    ∙ ap reverse (to_le-of_le (reverse bs) (All-reverse (λ b. b < 256) bs h))
    ∙ reverse-reverse bs

pub of_be-lt : (bs : Bytes) → IsBytes bs → of_be bs < 256 ^ length bs
unfolding of_be
of_be-lt bs h = rw (length-reverse bs) at (of_le-lt (reverse bs) (All-reverse (λ b. b < 256) bs h))
