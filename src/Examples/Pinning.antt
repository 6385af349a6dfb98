-- ===== src/Examples/Pinning.antt =====
-- Pins in an empty registry. The codec writes a set as numbers in unary, after one byte.
use s5_rs.Base.{
  ℕ, zero, suc, ◌+◌, ◌-◌, ◌≡◌, refl, ap, ◌∙◌, Bytes, IsBytes, Option, none, some, List, [], ◌∷◌,
  ◌++◌, map, ok, if◌then◌else◌, ◌==◌, replicate, arith, bytes_ord,
}
use s5_rs.BTreeMap
use s5_rs.BTreeMap.{contains_key}
use s5_rs.Stream.{IsArray}
use s5_rs.Registry.{memory_registry, memory_get, MemoryRegistry}
use s5_rs.Registry.Contract.{memory_registry-IsRegistry}
use s5_rs.Pins.{PinContext, node_id, local_fs_head, local_fs_snapshot, PinCodec, pin_hash, pin_ord}
use s5_rs.Pins.Entries.{IsPinCodec}
use s5_rs.Pins.Laws.{PinTable, HoldsTable, put_row, pin_hash_lem}

-- Numbers for contexts: a tag, and the bytes raised by 3.
pub numbers : List PinContext → List ℕ
numbers [] = []
numbers (node_id b ∷ ps) = 0 ∷ (map (λ x. x + 3) b ++ numbers ps)
numbers (local_fs_head ∷ ps) = 1 ∷ numbers ps
numbers (local_fs_snapshot b ∷ ps) = 2 ∷ (map (λ x. x + 3) b ++ numbers ps)

pub contexts : List ℕ → Bytes × List PinContext
contexts [] = ([], [])
contexts (t ∷ ts) =
    let rest = contexts ts in
    if t == 0
    then ([], node_id rest.0 ∷ rest.1)
    else if t == 1
    then ([], local_fs_head ∷ rest.1)
    else if t == 2
    then ([], local_fs_snapshot rest.0 ∷ rest.1)
    else ((t - 3) ∷ rest.0, rest.1)

contexts-raised :
    (b : Bytes) (ts : List ℕ) (ps : List PinContext)
    → contexts ts ≡ ([], ps)
    → contexts (map (λ x. x + 3) b ++ ts) ≡ (b, ps)
unfolding contexts
contexts-raised [] ts ps e = e
contexts-raised (x ∷ b) ts ps e = ground (arith, contexts-raised b ts ps e)

contexts-numbers : (ps : List PinContext) → contexts (numbers ps) ≡ ([], ps)
unfolding contexts numbers
contexts-numbers [] = refl
contexts-numbers (node_id b ∷ ps) =
    ground (arith, contexts-raised b (numbers ps) ps (contexts-numbers ps))
contexts-numbers (local_fs_head ∷ ps) = ground (arith, contexts-numbers ps)
contexts-numbers (local_fs_snapshot b ∷ ps) =
    ground (arith, contexts-raised b (numbers ps) ps (contexts-numbers ps))

pub unary : List ℕ → Bytes
unary [] = []
unary (n ∷ ns) = replicate n 1 ++ (0 ∷ unary ns)

pub count_up : List ℕ → List ℕ
count_up [] = []
count_up (n ∷ ns) = suc n ∷ ns

pub read_unary : Bytes → List ℕ
unfolding count_up
read_unary [] = []
read_unary (b ∷ bs) = let rest = read_unary bs in if b == 0 then 0 ∷ rest else count_up rest

read_unary-run : (n : ℕ) (bs : Bytes) → read_unary (replicate n 1 ++ (0 ∷ bs)) ≡ n ∷ read_unary bs
unfolding read_unary count_up
read_unary-run zero bs = refl
read_unary-run (suc n) bs = ap count_up (read_unary-run n bs)

read_unary-unary : (ns : List ℕ) → read_unary (unary ns) ≡ ns
unfolding unary read_unary
read_unary-unary [] = refl
read_unary-unary (n ∷ ns) = read_unary-run n (unary ns) ∙ ap (◌∷◌ n) (read_unary-unary ns)

run-IsBytes : (n : ℕ) (bs : Bytes) → IsBytes bs → IsBytes (replicate n 1 ++ (0 ∷ bs))
run-IsBytes zero bs h = (omega arith, h)
run-IsBytes (suc n) bs h = (omega arith, run-IsBytes n bs h)

unary-IsBytes : (ns : List ℕ) → IsBytes (unary ns)
unfolding unary
unary-IsBytes [] = tt
unary-IsBytes (n ∷ ns) = run-IsBytes n (unary ns) (unary-IsBytes ns)

pub after_mark : Bytes → Option (List PinContext)
after_mark [] = none
after_mark (b ∷ bs) = some (contexts (read_unary bs)).1

abbrev pub pin_codec : PinCodec
pin_codec = record {
  encode = λ ps. 128 ∷ unary (numbers ps);
  decode = after_mark;
  hash = λ b. replicate 32 4;
}

pub pin_codec-IsPinCodec : IsPinCodec pin_codec
unfolding after_mark
pin_codec-IsPinCodec = record {
  round = λ ps.
      ap (λ ns. some (contexts ns).1) (read_unary-unary (numbers ps))
      ∙ ap (λ (q : Bytes × List PinContext). some q.1) (contexts-numbers ps);
  bytes = λ ps. (omega arith, unary-IsBytes (numbers ps));
  not_empty = λ ps. refl;
  hash_array = λ b. record { len = refl; bytes = ground arith };
}

abbrev pub no_pins : PinTable
no_pins h = ([], 0)

pub empty-HoldsTable : HoldsTable pin_codec memory_registry [] no_pins
unfolding memory_get BTreeMap.get
empty-HoldsTable = record {
  memory = [];
  mirrors = record { at_key = λ k t. refl; sound = λ k. tt };
  entries = λ h a. (refl, refl);
  sorted = λ h. tt;
}

abbrev pub pinned : Bytes
pinned = replicate 32 5

pub pinned-IsArray : IsArray 32 pinned
pinned-IsArray = record { len = refl; bytes = ground arith }

abbrev pub after_pin : MemoryRegistry
after_pin = (pin_hash pin_codec memory_registry [] pinned local_fs_head).1

pin_hash_example :
    ((pin_hash pin_codec memory_registry [] pinned local_fs_head).0 ≡ ok tt)
    × HoldsTable pin_codec memory_registry after_pin
        (put_row no_pins pinned (BTreeMap.insert [] local_fs_head tt) 1)
pin_hash_example =
    pin_hash_lem pin_codec memory_registry pin_codec-IsPinCodec memory_registry-IsRegistry []
      no_pins pinned local_fs_head empty-HoldsTable pinned-IsArray (omega arith)

abbrev pub one_pin : PinTable
one_pin = put_row no_pins pinned (BTreeMap.insert [] local_fs_head tt) 1

pub one_pin-HoldsTable : HoldsTable pin_codec memory_registry after_pin one_pin
one_pin-HoldsTable =
    (pin_hash_lem pin_codec memory_registry pin_codec-IsPinCodec memory_registry-IsRegistry []
      no_pins pinned local_fs_head empty-HoldsTable pinned-IsArray (omega arith)).1
