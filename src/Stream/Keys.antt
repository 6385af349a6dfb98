-- ===== src/Stream/Keys.antt =====
-- Keys of registries: `derive(Ord)` of `StreamKey` (s5_core/src/stream/types/mod.rs), and of the
-- pair that `StreamKey::to_bytes` returns.
use s5_rs.Base.{
  ℕ, ◌≡◌, Bytes, compare, Ordering, lt, eq, arith, Ord, and_then, flip, cmp_bytes, cmp_bytes-flip,
  cmp_bytes-eq, cmp_bytes_trans,
}
use s5_rs.Stream.{StreamKey, local, public_key_ed25519, blake3_hash_pin, to_bytes}

unfoldable pub table_key_cmp : ℕ × Bytes → ℕ × Bytes → Ordering
table_key_cmp a b = and_then (compare a.0 b.0) (cmp_bytes a.1 b.1)

pub table_key_cmp-flip : (a b : ℕ × Bytes) → table_key_cmp b a ≡ flip (table_key_cmp a b)
unfolding table_key_cmp
table_key_cmp-flip a b = ground (arith, cmp_bytes-flip a.1 b.1)

pub table_key_cmp-eq : (a b : ℕ × Bytes) → table_key_cmp a b ≡ eq → a ≡ b
unfolding table_key_cmp
table_key_cmp-eq a b h = ground (arith, cmp_bytes-eq a.1 b.1)

pub table_key_cmp_trans :
    (a b c : ℕ × Bytes) → table_key_cmp a b ≡ lt → table_key_cmp b c ≡ lt → table_key_cmp a c ≡ lt
unfolding table_key_cmp
table_key_cmp_trans a b c h k = ground (arith, cmp_bytes_trans a.1 b.1 c.1)

instance abbrev pub table_key_ord : Ord (ℕ × Bytes)
table_key_ord = record {
  cmp = table_key_cmp;
  cmp_flip = table_key_cmp-flip;
  cmp_eq = table_key_cmp-eq;
  cmp_trans = table_key_cmp_trans;
}

-- Two keys with the same id and the same bytes are the same key.
pub to_bytes_injective : (a b : StreamKey) → to_bytes a ≡ to_bytes b → a ≡ b
to_bytes_injective (local d) b h = ground arith
to_bytes_injective (public_key_ed25519 d) b h = ground arith
to_bytes_injective (blake3_hash_pin d) b h = ground arith

-- The variants compare in their order in the source, which is that of their ids, and then the bytes.
abbrev pub key_cmp : StreamKey → StreamKey → Ordering
key_cmp a b = table_key_cmp (to_bytes a) (to_bytes b)

pub key_cmp-eq : (a b : StreamKey) → key_cmp a b ≡ eq → a ≡ b
key_cmp-eq a b h = to_bytes_injective a b (table_key_cmp-eq (to_bytes a) (to_bytes b) h)

instance abbrev pub stream_key_ord : Ord StreamKey
stream_key_ord = record {
  cmp = key_cmp;
  cmp_flip = λ a b. table_key_cmp-flip (to_bytes a) (to_bytes b);
  cmp_eq = key_cmp-eq;
  cmp_trans = λ a b c. table_key_cmp_trans (to_bytes a) (to_bytes b) (to_bytes c);
}
