-- ===== src/Stream/Ranking.antt =====
-- Which message wins: `Ord for StreamMessage` (s5_core/src/stream/types/order.rs) and
-- `should_store` (s5_core/src/stream/types/mod.rs).
use s5_rs.Base.{
  ℕ, ◌<◌, ◌≡◌, ◌↔◌, ◌⊎◌, refl, Bool, true, false, Option, none, some, Bytes, compare, Ordering, lt,
  eq, gt, arith, and_then, flip, cmp_bytes, cmp_bytes-flip, cmp_bytes-eq, cmp_bytes_trans, cmp_refl,
  bytes_ord,
}
use s5_rs.Stream.{StreamMessage, stream, registry}

-- What the order of messages looks at: the revision and the payload hash.
abbrev pub Rank : Type 0
Rank = ℕ × Bytes

-- `Ord::cmp`: the higher revision is greater, and on a tie the smaller hash is.
unfoldable pub rank_cmp : Rank → Rank → Ordering
rank_cmp a b = and_then (compare a.0 b.0) (cmp_bytes b.1 a.1)

abbrev pub rank : StreamMessage → Rank
rank m = (m.revision, m.hash)

unfoldable pub message_cmp : StreamMessage → StreamMessage → Ordering
unfolding rank_cmp
message_cmp a b = and_then (compare a.revision b.revision) (cmp_bytes b.hash a.hash)

abbrev pub is_gt : Ordering → Bool
is_gt gt = true
is_gt lt = false
is_gt eq = false

-- `StreamMessage::should_store`.
unfoldable pub should_store : StreamMessage → Option StreamMessage → Bool
should_store m existing = elim m.type_id [
  | stream ↦ true
  | registry ↦ elim existing [ none ↦ true | some e ↦ is_gt (message_cmp m e) ]
]

pub rank_cmp-flip : (a b : Rank) → rank_cmp b a ≡ flip (rank_cmp a b)
unfolding rank_cmp
rank_cmp-flip a b = ground (arith, cmp_bytes-flip b.1 a.1)

pub rank_cmp-eq : (a b : Rank) → rank_cmp a b ≡ eq → a ≡ b
unfolding rank_cmp
rank_cmp-eq a b h = ground (arith, cmp_bytes-eq b.1 a.1)

pub rank_cmp_trans : (a b c : Rank) → rank_cmp a b ≡ lt → rank_cmp b c ≡ lt → rank_cmp a c ≡ lt
unfolding rank_cmp
rank_cmp_trans a b c h k = ground (arith, cmp_bytes_trans c.1 b.1 a.1)

pub message_cmp-rank_cmp : (a b : StreamMessage) → message_cmp a b ≡ rank_cmp (rank a) (rank b)
unfolding message_cmp
message_cmp-rank_cmp a b = refl

-- The order of messages reverses when its arguments are swapped, is transitive, and takes two
-- messages for equal exactly when they have one revision and one hash.
pub message_cmp_laws :
    (a b c : StreamMessage)
    → (message_cmp b a ≡ flip (message_cmp a b))
      × (message_cmp a b ≡ lt → message_cmp b c ≡ lt → message_cmp a c ≡ lt)
      × ((message_cmp a b ≡ eq) ↔ ((a.revision ≡ b.revision) × (a.hash ≡ b.hash)))
unfolding message_cmp rank_cmp
message_cmp_laws a b c = (
  rank_cmp-flip (rank a) (rank b),
  rank_cmp_trans (rank a) (rank b) (rank c),
  (
    λ h. (ground arith, ground (arith, cmp_bytes-eq b.hash a.hash)),
    λ h. ground (arith, cmp_refl a.hash),
  ),
)

-- A registry message replaces a stored one exactly when its revision is higher, or the revisions
-- are equal and its hash comes first in the order of bytes.
pub should_store_iff :
    (m e : StreamMessage)
    → m.type_id ≡ registry
    → (should_store m (some e) ≡ true)
      ↔ ((e.revision < m.revision) ⊎ ((e.revision ≡ m.revision) × (cmp_bytes m.hash e.hash ≡ lt)))
unfolding should_store message_cmp
should_store_iff m e h = (
  λ s. ground (arith, cmp_bytes-flip m.hash e.hash),
  λ s. ground (arith, cmp_bytes-flip m.hash e.hash),
)
