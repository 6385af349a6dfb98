-- ===== src/Registry/Convergence.antt =====
-- Conflict resolution of registry messages that arrive in any order (s5_registry/src/lib.rs).
use mathlib.Core.List.{Perm, Permᴰ}
use mathlib.Core.Logic.{∥∥₁_elim}
use s5_rs.Base.{
  ◌≡◌, refl, sym, ap, ap₂, ◌∙◌, ◌≢◌, Option, none, some, List, [], ◌∷◌, All, lt, eq, gt,
  if◌then◌else◌, arith, is_same,
}
use s5_rs.BTreeMap
use s5_rs.BTreeMap.{get-insert}
use s5_rs.Stream.{StreamKey, StreamMessage, registry}
use s5_rs.Stream.Keys.{stream_key_ord, key_cmp-eq}
use s5_rs.Stream.Ranking.{
  Rank, rank, rank_cmp, rank_cmp-flip, rank_cmp-eq, rank_cmp_trans, should_store, message_cmp,
}
use s5_rs.Registry.{MemoryRegistry, memory_set}

-- The registry after `set` of each message in turn.
unfoldable pub publish : MemoryRegistry → List StreamMessage → MemoryRegistry
publish r [] = r
publish r (m ∷ ms) = publish (memory_set r m).1 ms

abbrev pub option_rank : Option StreamMessage → Option Rank
option_rank none = none
option_rank (some m) = some (rank m)

-- What a registry says at a key, as far as all peers can compare it.
abbrev pub rank_at : MemoryRegistry → StreamKey → Option Rank
rank_at r k = option_rank (BTreeMap.get r k)

larger : Rank → Rank → Rank
larger a b = elim (rank_cmp a b) [ gt ↦ a | lt ↦ b | eq ↦ b ]

larger_comm : (a b : Rank) → larger a b ≡ larger b a
unfolding larger
larger_comm a b = ground (arith, rank_cmp-flip a b, rank_cmp-eq a b)

larger_assoc : (a b c : Rank) → larger a (larger b c) ≡ larger (larger a b) c
unfolding larger
larger_assoc a b c = ground (
  arith,
  rank_cmp-flip a b,
  rank_cmp-flip b c,
  rank_cmp-flip a c,
  rank_cmp-eq a b,
  rank_cmp-eq b c,
  rank_cmp-eq a c,
  rank_cmp_trans a b c,
  rank_cmp_trans c b a,
  rank_cmp_trans a c b,
  rank_cmp_trans b a c,
  rank_cmp_trans b c a,
  rank_cmp_trans c a b,
)

-- The rank that is left when a message of rank `a` meets what is stored.
unfoldable pub join : Rank → Option Rank → Option Rank
unfolding larger
join a none = some a
join a (some b) = some (larger a b)

join_comm : (a b : Rank) (o : Option Rank) → join a (join b o) ≡ join b (join a o)
unfolding join
join_comm a b none = ap some (larger_comm a b)
join_comm a b (some c) =
    ap some (larger_assoc a b c ∙ ap (λ x. larger x c) (larger_comm a b) ∙ sym (larger_assoc b a c))

join_stored :
    (m : StreamMessage) (o : Option StreamMessage)
    → m.type_id ≡ registry
    → (if should_store m o then some (rank m) else option_rank o) ≡ join (rank m) (option_rank o)
unfolding should_store message_cmp rank_cmp join
join_stored m none h = ground arith
join_stored m (some e) h = ground (arith, rank_cmp-eq (rank m) (rank e))

-- `set` of a registry message joins its rank with the stored one, at its key only.
pub rank_at-memory_set :
    (r : MemoryRegistry) (m : StreamMessage) (k : StreamKey)
    → m.type_id ≡ registry
    → rank_at (memory_set r m).1 k
      ≡ (if is_same m.key k then join (rank m) (rank_at r k) else rank_at r k)
unfolding memory_set
rank_at-memory_set r m k h =
    ground
      (arith, get-insert r m.key k m, key_cmp-eq m.key k, join_stored m (BTreeMap.get r m.key) h)

-- The ranks that the messages for one key leave.
merge_ranks : StreamKey → List StreamMessage → Option Rank → Option Rank
merge_ranks k [] o = o
merge_ranks k (m ∷ ms) o = merge_ranks k ms (if is_same m.key k then join (rank m) o else o)

abbrev pub AreEntries : List StreamMessage → Type 0
AreEntries = All (λ m. m.type_id ≡ registry)

rank_at-publish :
    (r : MemoryRegistry) (ms : List StreamMessage) (k : StreamKey)
    → AreEntries ms
    → rank_at (publish r ms) k ≡ merge_ranks k ms (rank_at r k)
unfolding publish merge_ranks
rank_at-publish r [] k h = refl
rank_at-publish r (m ∷ ms) k h =
    rank_at-publish (memory_set r m).1 ms k h.1
    ∙ ap (merge_ranks k ms) (rank_at-memory_set r m k h.0)

AreEntries-permᴰ : {ms ns : List StreamMessage} → Permᴰ ms ns → AreEntries ms → AreEntries ns
AreEntries-permᴰ Permᴰ.nil h = tt
AreEntries-permᴰ (Permᴰ.cons e p) h =
    (rw (← ap (λ (m : StreamMessage). m.type_id) e) h.0, AreEntries-permᴰ p h.1)
AreEntries-permᴰ (Permᴰ.swap d e) h = (
  rw (← ap (λ (m : StreamMessage). m.type_id) e) h.1.0,
  (rw (← ap (λ (m : StreamMessage). m.type_id) d) h.0, h.1.1),
)
AreEntries-permᴰ (Permᴰ.trans p q) h = AreEntries-permᴰ q (AreEntries-permᴰ p h)

merge_swap :
    (k : StreamKey) (m n : StreamMessage) (ms : List StreamMessage) (o : Option Rank)
    → merge_ranks k (m ∷ n ∷ ms) o ≡ merge_ranks k (n ∷ m ∷ ms) o
unfolding merge_ranks
merge_swap k m n ms o = ap (merge_ranks k ms) (ground (arith, join_comm (rank m) (rank n) o))

merge_permᴰ :
    (k : StreamKey) {ms ns : List StreamMessage}
    → Permᴰ ms ns
    → (o : Option Rank) → merge_ranks k ms o ≡ merge_ranks k ns o
unfolding merge_ranks
merge_permᴰ k Permᴰ.nil o = refl
merge_permᴰ k (Permᴰ.cons {b = b} {l₁ = l} e p) o =
    ap (λ m. merge_ranks k (m ∷ l) o) e ∙ merge_permᴰ k p _
merge_permᴰ k (Permᴰ.swap {a = a} {b = b} {l = l} d e) o =
    merge_swap k a b l o ∙ ap₂ (λ m n. merge_ranks k (m ∷ n ∷ l) o) e d
merge_permᴰ k (Permᴰ.trans p q) o = merge_permᴰ k p o ∙ merge_permᴰ k q o

Option_Rank_set : IsSet (Option Rank)
Option_Rank_set = hlevel

-- Two sequences of registry messages that are permutations of each other leave the same revision
-- and payload hash stored at every key of an in-memory registry: peers that see the same updates
-- in any order converge.
pub publish-perm :
    (r : MemoryRegistry) (ms ns : List StreamMessage) (k : StreamKey)
    → AreEntries ms
    → Perm ms ns
    → rank_at (publish r ms) k ≡ rank_at (publish r ns) k
publish-perm r ms ns k h p = ∥∥₁_elim p (Option_Rank_set _ _) λ q.
    rank_at-publish r ms k h
    ∙ merge_permᴰ k q (rank_at r k)
    ∙ sym (rank_at-publish r ns k (AreEntries-permᴰ q h))

larger_above : (a b : Rank) → rank_cmp b (larger a b) ≢ gt
unfolding larger
larger_above a b = ground (arith, rank_cmp-flip a b, rank_cmp-flip b b)

above_trans : (a b c : Rank) → rank_cmp a b ≢ gt → rank_cmp b c ≢ gt → rank_cmp a c ≢ gt
above_trans a b c h k = ground (
  arith,
  rank_cmp-flip a c,
  rank_cmp_trans a b c,
  rank_cmp_trans b c a,
  rank_cmp_trans c a b,
  rank_cmp-eq a b,
  rank_cmp-eq b c,
  rank_cmp-flip a b,
  rank_cmp-flip b c,
)

stepped : StreamMessage → StreamKey → Rank → Rank
stepped m k a = if is_same m.key k then larger (rank m) a else a

stepped_above : (m : StreamMessage) (k : StreamKey) (a : Rank) → rank_cmp a (stepped m k a) ≢ gt
unfolding stepped
stepped_above m k a = ground (arith, larger_above (rank m) a, rank_cmp-flip a a)

rank_at-stepped :
    (r : MemoryRegistry) (m : StreamMessage) (k : StreamKey) (a : Rank)
    → m.type_id ≡ registry
    → rank_at r k ≡ some a
    → rank_at (memory_set r m).1 k ≡ some (stepped m k a)
unfolding stepped join
rank_at-stepped r m k a h e = ground (arith, rank_at-memory_set r m k h)

-- Where an in-memory registry holds a message at a key, registry messages that arrive later never
-- take the rank (revision, then hash) stored at that key below what it was.
pub publish_monotone :
    (r : MemoryRegistry) (ms : List StreamMessage) (k : StreamKey) (a : Rank)
    → AreEntries ms
    → rank_at r k ≡ some a
    → (b : Rank) × (rank_at (publish r ms) k ≡ some b) × (rank_cmp a b ≢ gt)
unfolding publish
publish_monotone r [] k a h e = (a, e, ground (arith, rank_cmp-flip a a))
publish_monotone r (m ∷ ms) k a h e =
    let a' = stepped m k a in
    let (b, found, above) =
      publish_monotone (memory_set r m).1 ms k a' h.1 (rank_at-stepped r m k a h.0 e) in
    (b, found, above_trans a a' b (stepped_above m k a) above)
