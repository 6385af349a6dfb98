-- ===== src/Blob/Identifier/RoundTrip.antt =====
-- Writing and reading blob identifiers (s5_core/src/blob/identifier.rs).
use s5_rs.Base.{
  ℕ, zero, suc, ◌+◌, ◌-◌, ◌^◌, ◌≤◌, ◌<◌, ◌≡◌, ◌≢◌, refl, ap, ◌∙◌, Bytes, none, some, [], ◌∷◌, ◌++◌,
  ok, length, take, drop, to_le, of_le, arith, length-append, subst, take-append, drop-append,
  length-to_le, of_le-to_le, of_le-append-replicate, Option-cases, inl, inr,
}
use native.Mathlib.Nat.{pow-suc}
use s5_rs.Blob.Identifier.{BlobId, parse_bytes, rposition_nonzero, trim, to_bytes}

of_le_zero : (bs : Bytes) → rposition_nonzero bs ≡ none → of_le bs ≡ 0
unfolding rposition_nonzero of_le
of_le_zero [] h = refl
of_le_zero (b ∷ bs) h = ground (arith, of_le_zero bs)

-- What `trim` cuts off does not count.
of_le-trim : (bs : Bytes) → of_le (trim bs) ≡ of_le bs
unfolding trim rposition_nonzero of_le
of_le-trim [] = refl
of_le-trim (b ∷ bs) = elim (Option-cases (rposition_nonzero bs)) [
  | inl h ↦ ground (arith, of_le_zero bs h, h)
  | inr (i, h) ↦ ground (arith, of_le-trim bs, h)
]

length-trim-le : (bs : Bytes) → length (trim bs) ≤ length bs
unfolding trim rposition_nonzero
length-trim-le [] = omega arith
length-trim-le (b ∷ bs) = elim (Option-cases (rposition_nonzero bs)) [
  | inl h ↦ ground (arith, h)
  | inr (i, h) ↦ ground (arith, length-trim-le bs, h)
]

-- `parse_bytes` on a header, a hash and at most 8 bytes of size.
pub parse_bytes-header :
    (hash size_slice : Bytes)
    → length hash ≡ 32
    → length size_slice ≤ 8
    → parse_bytes (0x5b ∷ 0x82 ∷ 0x1e ∷ (hash ++ size_slice))
      ≡ ok (record { hash = hash; size = of_le size_slice })
unfolding parse_bytes
parse_bytes-header hash size_slice h32 h8 =
    let all : length (hash ++ size_slice) ≡ 32 + length size_slice =
      length-append hash size_slice ∙ ap (λ n. n + length size_slice) h32 in
    let front : take 32 (hash ++ size_slice) ≡ hash =
      subst (λ n. take n (hash ++ size_slice) ≡ hash) h32 (take-append hash size_slice) in
    let back : drop 32 (hash ++ size_slice) ≡ size_slice =
      subst (λ n. drop n (hash ++ size_slice) ≡ size_slice) h32 (drop-append hash size_slice) in
    let padded = of_le-append-replicate size_slice (8 - length size_slice) in
    ground (arith, all, front, back, padded)

-- BlobId::parse gives back, from the decoded bytes, the identifier that BlobId::to_bytes wrote,
-- for a 32-byte hash and a size of 64 bits.
pub parse_bytes-to_bytes :
    (id : BlobId) → length id.hash ≡ 32 → id.size < 2 ^ 64 → parse_bytes (to_bytes id) ≡ ok id
unfolding to_bytes
parse_bytes-to_bytes id h32 h64 =
    let short : length (trim (to_le 8 id.size)) ≤ 8 =
      omega (arith, length-trim-le (to_le 8 id.size), length-to_le 8 id.size) in
    let size : of_le (trim (to_le 8 id.size)) ≡ id.size =
      of_le-trim (to_le 8 id.size) ∙ of_le-to_le 8 id.size h64 in
    parse_bytes-header id.hash (trim (to_le 8 id.size)) h32 short
    ∙ ap (λ n. ok (record { hash = id.hash; size = n })) size

nonzero : (bs : Bytes) (i : ℕ) → rposition_nonzero bs ≡ some i → of_le bs ≢ 0
unfolding rposition_nonzero of_le
nonzero [] i h = ground (arith, h)
nonzero (b ∷ bs) i h = elim (Option-cases (rposition_nonzero bs)) [
  | inl e ↦ ground (arith, h, e)
  | inr (j, e) ↦ λ z. nonzero bs j e (omega (arith, z))
]

length-trim-bound : (bs : Bytes) (k : ℕ) → of_le bs < 256 ^ k → length (trim bs) ≤ k
unfolding trim rposition_nonzero of_le
length-trim-bound [] k h = omega arith
length-trim-bound (b ∷ bs) zero h = elim (Option-cases (rposition_nonzero bs)) [
  | inl e ↦ ground (arith, h, e)
  | inr (i, e) ↦ absurd (nonzero bs i e (omega (arith, h)))
]
length-trim-bound (b ∷ bs) (suc k) h = elim (Option-cases (rposition_nonzero bs)) [
  | inl e ↦ ground (arith, e)
  | inr (i, e) ↦ ground (arith, e, length-trim-bound bs k (omega (arith, h, pow-suc 256 k)))
]

-- The encoding of an identifier whose size is below 256^k has at most 35 + k bytes.
pub length-to_bytes-le :
    (id : BlobId) (k : ℕ)
    → length id.hash ≡ 32
    → id.size < 2 ^ 64
    → id.size < 256 ^ k
    → length (to_bytes id) ≤ 35 + k
unfolding to_bytes
length-to_bytes-le id k h32 h64 hk =
    let same : of_le (to_le 8 id.size) ≡ id.size = of_le-to_le 8 id.size h64 in
    let bound : length (trim (to_le 8 id.size)) ≤ k =
      length-trim-bound (to_le 8 id.size) k (rw same hk) in
    omega (arith, bound, length-append id.hash (trim (to_le 8 id.size)), h32)
