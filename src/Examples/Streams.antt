-- ===== src/Examples/Streams.antt =====
-- Stream messages.
use s5_rs.Base.{
  ℕ, ◌≡◌, ◌↔◌, ◌⊎◌, ◌<◌, refl, IsBytes, to_be, to_le, some, [], ◌∷◌, replicate, ok, lt, arith, true,
  cmp_bytes,
}
use s5_rs.Stream.{StreamMessage, StreamKey, public_key_ed25519, registry, IsTyped, IsValid}
use s5_rs.Stream.Wire.{serialize, deserialize}
use s5_rs.Stream.Wire.RoundTrip.{deserialize-serialize}
use s5_rs.Stream.Wire.Canonical.{serialize-deserialize}
use s5_rs.Stream.Ranking.{should_store, should_store_iff}

abbrev pub a_key : StreamKey
a_key = public_key_ed25519 (replicate 32 7)

-- The message of revision `r` for `a_key`, whose payload hash is all `h`.
abbrev pub message_at : ℕ → ℕ → StreamMessage
message_at r h = record {
  type_id = registry;
  key = a_key;
  revision = r;
  hash = replicate 32 h;
  signature = replicate 64 1;
  inline_data = some (104 ∷ 105 ∷ []);
}

pub message_at_1_9-IsTyped : IsTyped (message_at 1 9)
message_at_1_9-IsTyped = record {
  key_array = record { len = refl; bytes = ground arith };
  revision_u64 = omega arith;
  hash_array = record { len = refl; bytes = ground arith };
  signature_bytes = ground arith;
  payload_bytes = ground arith;
}

pub message_at_1_9-IsValid : IsValid (message_at 1 9)
message_at_1_9-IsValid = record { signed = refl; fits = λ h. ground arith }

deserialize-serialize_example : deserialize (serialize (message_at 1 9)) ≡ ok (message_at 1 9)
deserialize-serialize_example =
    deserialize-serialize (message_at 1 9) message_at_1_9-IsTyped message_at_1_9-IsValid

bytes : IsBytes (serialize (message_at 1 9))
unfolding serialize to_be to_le
bytes = ground arith

serialize-deserialize_example :
    (serialize (message_at 1 9) ≡ serialize (message_at 1 9))
    × IsValid (message_at 1 9)
    × IsTyped (message_at 1 9)
serialize-deserialize_example =
    serialize-deserialize (serialize (message_at 1 9)) bytes deserialize-serialize_example

should_store_iff_example : (should_store (message_at 1 4) (some (message_at 1 9)) ≡ true) ↔ (
    (1 < 1)
    ⊎ (((message_at 1 9).revision ≡ (message_at 1 4).revision)
        × (cmp_bytes (replicate 32 4) (replicate 32 9) ≡ lt)))
should_store_iff_example = should_store_iff (message_at 1 4) (message_at 1 9) refl
