-- ===== src/Pins.antt =====
-- `RegistryPinner` (s5_core/src/pins): who pins a blob, kept in a registry. The CBOR codec of pin
-- sets and the hash function are parameters. A lock for each hash makes every call one step.
pub mod Entries
pub mod Laws
pub mod Unpin
use s5_rs.Base.{
  ℕ, ◌+◌, ◌≡◌, arith, Bytes, Bool, Option, none, some, List, [], ◌∷◌, Result, ok, err, map_err,
  ◌>>=◌, if◌then◌else◌, is_empty, Ord,
}
use s5_rs.BTreeMap
use s5_rs.BTreeMap.{BTreeMap, contains_key, keys}
use s5_rs.Stream.{StreamKey, blake3_hash_pin, registry, StreamMessage, StreamMessageError}
use s5_rs.Stream
use s5_rs.Stream.Keys.{table_key_cmp, table_key_cmp-flip, table_key_cmp-eq, table_key_cmp_trans}
use s5_rs.Registry.{RegistryError, RegistryApi}

pub data PinContext : Type 0 where
  node_id : Bytes → PinContext
  local_fs_head : PinContext
  local_fs_snapshot : Bytes → PinContext

-- The index of a variant and its bytes, by which `derive(Ord)` compares.
abbrev pub pin_code : PinContext → ℕ × Bytes
pin_code (node_id b) = (0, b)
pin_code local_fs_head = (1, [])
pin_code (local_fs_snapshot b) = (2, b)

pub pin_code_injective : (a b : PinContext) → pin_code a ≡ pin_code b → a ≡ b
pin_code_injective (node_id x) b h = ground arith
pin_code_injective local_fs_head b h = ground arith
pin_code_injective (local_fs_snapshot x) b h = ground arith

instance abbrev pub pin_ord : Ord PinContext
pin_ord = record {
  cmp = λ a b. table_key_cmp (pin_code a) (pin_code b);
  cmp_flip = λ a b. table_key_cmp-flip (pin_code a) (pin_code b);
  cmp_eq = λ a b h. pin_code_injective a b (table_key_cmp-eq (pin_code a) (pin_code b) h);
  cmp_trans = λ a b c. table_key_cmp_trans (pin_code a) (pin_code b) (pin_code c);
}

-- `HashSet<PinContext>`; `save_internal` sorts it.
abbrev pub Pinners : Type 0
Pinners = BTreeMap PinContext (Unit {0})

pub data PinError : Type 0 where
  registry_failed : RegistryError → PinError
  cbor_decode_failed : PinError
  message_refused : StreamMessageError → PinError

-- `minicbor::to_vec` and `decode` for lists of contexts, and BLAKE3.
pub record PinCodec : Type 0 where
  pub encode : List PinContext → Bytes
  pub decode : Bytes → Option (List PinContext)
  pub hash : Bytes → Bytes

-- `into_iter().collect()`.
unfoldable pub collect : List PinContext → Pinners
collect [] = []
collect (p ∷ ps) = BTreeMap.insert (collect ps) p tt

-- `hash_to_key`.
abbrev pub hash_to_key : Bytes → StreamKey
hash_to_key hash = blake3_hash_pin hash

-- The part of `get_internal` that reads the message.
unfoldable pub pinners_of : PinCodec → Option StreamMessage → Result PinError (Pinners × ℕ)
pinners_of c none = ok ([], 0)
pinners_of c (some msg) = elim msg.inline_data [
  | none ↦ ok ([], msg.revision)
  | some bytes ↦ elim (c.decode bytes) [
    | none ↦ err cbor_decode_failed
    | some vec ↦ ok (collect vec, msg.revision)
  ]
]

module _ {S : Type 0} (c : PinCodec) (api : RegistryApi S) where
  unfoldable pub get_internal : S → StreamKey → Result PinError (Pinners × ℕ)
  get_internal s key = elim (api.get s key) [
    | err e ↦ err (registry_failed e)
    | ok msg ↦ pinners_of c msg
  ]

  -- `save_internal`: an empty set is deleted.
  unfoldable pub save_internal : S → StreamKey → Pinners → ℕ → Result PinError (Unit {0}) × S
  save_internal s key pinners new_revision =
      if is_empty pinners
      then (map_err registry_failed (api.delete s key).0, (api.delete s key).1)
      else let bytes = c.encode (keys pinners) in
        elim (Stream.new registry key new_revision (c.hash bytes) [] (some bytes)) [
          | err e ↦ (err (message_refused e), s)
          | ok message ↦ (map_err registry_failed (api.set s message).0, (api.set s message).1)
        ]

  unfoldable pub pin_hash : S → Bytes → PinContext → Result PinError (Unit {0}) × S
  pin_hash s hash context = elim (get_internal s (hash_to_key hash)) [
    | err e ↦ (err e, s)
    | ok held ↦ save_internal s (hash_to_key hash) (BTreeMap.insert held.0 context tt) (held.1 + 1)
  ]

  -- `unpin_hash`: true if nobody pins the blob any more.
  unfoldable pub unpin_hash : S → Bytes → PinContext → Result PinError Bool × S
  unpin_hash s hash context = elim (get_internal s (hash_to_key hash)) [
    | err e ↦ (err e, s)
    | ok held ↦
        if contains_key held.0 context
        then (let left = BTreeMap.remove held.0 context in
            let saved = save_internal s (hash_to_key hash) left (held.1 + 1) in
            (elim saved.0 [ err e ↦ err e | ok _ ↦ ok (is_empty left) ], saved.1))
        else (ok (is_empty held.0), s)
  ]

  unfoldable pub unpin_hash_all : S → Bytes → Result PinError (Unit {0}) × S
  unpin_hash_all s hash = elim (get_internal s (hash_to_key hash)) [
    | err e ↦ (err e, s)
    | ok held ↦
        if is_empty held.0 then (ok tt, s) else save_internal s (hash_to_key hash) [] (held.1 + 1)
  ]

  unfoldable pub get_pinners : S → Bytes → Result PinError Pinners
  get_pinners s hash = do held ← get_internal s (hash_to_key hash); ok held.0

  unfoldable pub is_pinned : S → Bytes → PinContext → Result PinError Bool
  is_pinned s hash context = do
    held ← get_internal s (hash_to_key hash)
    ok (contains_key held.0 context)

-- `trait Pins`, over a state of type `P` that its calls pass along.
pub record PinsApi (P E : Type 0) : Type 0 where
  pub pin : P → Bytes → PinContext → Result E (Unit {0}) × P
  pub unpin : P → Bytes → PinContext → Result E Bool × P
  pub unpin_all : P → Bytes → Result E (Unit {0}) × P
  pub pinners : P → Bytes → Result E Pinners
  pub pinned : P → Bytes → PinContext → Result E Bool

-- `impl Pins for RegistryPinner`.
abbrev pub registry_pinner : {S : Type 0} → PinCodec → RegistryApi S → PinsApi S PinError
registry_pinner c api = record {
  pin = pin_hash c api;
  unpin = unpin_hash c api;
  unpin_all = unpin_hash_all c api;
  pinners = get_pinners c api;
  pinned = is_pinned c api;
}
