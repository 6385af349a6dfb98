-- ===== src/Pins/Entries.antt =====
-- The registry entry of a pinned hash, as `get_internal` reads it
-- (s5_core/src/pins/registry_pinner.rs).
use s5_rs.Base.{
  ℕ, ◌≡◌, refl, ap, ◌∙◌, Bytes, IsBytes, false, Option, none, some, List, [], ◌∷◌, ok, is_empty,
  arith, bytes_ord,
}
use s5_rs.BTreeMap.{keys, insert}
use s5_rs.BTreeMap.Sorted.{IsSorted, Above}
use s5_rs.Stream.{StreamMessage, registry, IsArray}
use s5_rs.Stream.Keys.{stream_key_ord}
use s5_rs.Stream.Wire.{remaining_data, payload}
use s5_rs.Stream.Wire.RoundTrip.{read_back}
use s5_rs.Registry.Contract.{read_back?}
use s5_rs.Pins.{PinContext, pin_ord, Pinners, PinCodec, collect, pinners_of}

pub record IsPinCodec (c : PinCodec) : Type 0 where
  pub round : (ps : List PinContext) → c.decode (c.encode ps) ≡ some ps
  pub bytes : (ps : List PinContext) → IsBytes (c.encode ps)
  pub not_empty : (ps : List PinContext) → is_empty (c.encode ps) ≡ false
  pub hash_array : (b : Bytes) → IsArray 32 (c.hash b)

insert-least : (k : PinContext) (m : Pinners) → Above k m → insert m k tt ≡ (k, tt) ∷ m
unfolding insert
insert-least k [] a = refl
insert-least k ((j, u) ∷ m) a = rw (a.0, insert) refl

-- A sorted set is collected from its elements.
collect-keys : (m : Pinners) → IsSorted m → collect (keys m) ≡ m
unfolding collect
collect-keys [] s = refl
collect-keys ((k, u) ∷ m) s = ap (λ t. insert t k tt) (collect-keys m s.1) ∙ insert-least k m s.0

-- What the registry holds for a hash pinned by `P`, at revision `n`.
abbrev pub IsPinEntry : PinCodec → Option StreamMessage → Pinners → ℕ → Type 0
IsPinEntry c none P n = (P ≡ []) × (n ≡ 0)
IsPinEntry c (some m) P n =
    (m.type_id ≡ registry)
    × (m.inline_data ≡ some (c.encode (keys P)))
    × (m.revision ≡ n)
    × (is_empty P ≡ false)

same_data :
    (d : Option Bytes) (b : Bytes)
    → is_empty b ≡ false
    → remaining_data (payload d) ≡ remaining_data b
    → d ≡ some b
same_data none b h e = ground (arith, h, e)
same_data (some []) b h e = ground (arith, h, e)
same_data (some (x ∷ d)) b h e = ground (arith, h, e)

some_eq : {a b : StreamMessage} → ◌≡◌ {A = Option StreamMessage} (some a) (some b) → a ≡ b
some_eq e = ground (arith, e)

module _ (c : PinCodec) (codec : IsPinCodec c) where
  pub pinners_of_entry :
      (o p : Option StreamMessage) (P : Pinners) (n : ℕ)
      → read_back? o ≡ read_back? p
      → IsPinEntry c p P n
      → IsSorted P
      → pinners_of c o ≡ ok (P, n)
  unfolding pinners_of
  pinners_of_entry none none P n h e s = ground (arith, e.0, e.1)
  pinners_of_entry none (some m) P n h e s = absurd (ground (arith, h))
  pinners_of_entry (some m) none P n h e s = absurd (ground (arith, h))
  pinners_of_entry (some m) (some q) P n h e s =
      let alike : read_back m ≡ read_back q = some_eq h in
      let bytes = c.encode (keys P) in
      let carried : m.inline_data ≡ some bytes =
        same_data m.inline_data bytes (codec.not_empty (keys P)) (
          ap (λ (x : StreamMessage). x.inline_data) alike
          ∙ ap (λ (d : Option Bytes). remaining_data (payload d)) e.1) in
      let revision : m.revision ≡ n = ap (λ (x : StreamMessage). x.revision) alike ∙ e.2 in
      ground (arith, carried, revision, codec.round (keys P), collect-keys P s)
