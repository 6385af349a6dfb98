-- ===== src/Stream/Wire/RoundTrip.antt =====
-- From messages to bytes and back (s5_core/src/stream/types/mod.rs).
use s5_rs.Base.{
  ℕ, ◌+◌, ◌≤◌, ◌≡◌, refl, ap, ◌∙◌, Option, none, some, [], ◌∷◌, ◌++◌, Bytes, length, take, drop, ok,
  arith, length-append, take-append, drop-append, length-to_be, of_be-to_be, to_be, of_be, ltb,
  false,
}
use s5_rs.Stream.{
  StreamMessage, StreamKey, MessageType, stream, registry, local, public_key_ed25519,
  blake3_hash_pin, IsTyped, IsValid, key_id, key_bytes, key_size, hash_size, from_bytes,
  message_type_of, message_type_id, signature_len, new, InlineFits, PayloadBytes,
}
use s5_rs.Stream.Validation.{new_of_valid}
use s5_rs.Stream.Wire.{serialize, deserialize, payload, remaining_data}

take_front : (n : ℕ) (xs ys : Bytes) → length xs ≡ n → take n (xs ++ ys) ≡ xs
take_front n xs ys h = rw (← h) (take-append xs ys)

drop_front : (n : ℕ) (xs ys : Bytes) → length xs ≡ n → drop n (xs ++ ys) ≡ ys
drop_front n xs ys h = rw (← h) (drop-append xs ys)

pub length-serialize :
    (m : StreamMessage)
    → IsTyped m
    → length (serialize m) ≡ 74 + length m.signature + length (payload m.inline_data)
unfolding serialize
length-serialize m t =
    omega (arith, t.key_array.len, t.hash_array.len, length-to_be 8 m.revision, length-append {0})

message_type_round : (t : MessageType) → message_type_of (message_type_id t) ≡ ok t
unfolding message_type_of
message_type_round stream = refl
message_type_round registry = refl

pub from_bytes-to_bytes :
    (k : StreamKey) → length (key_bytes k) ≡ key_size → from_bytes (key_id k) (key_bytes k) ≡ ok k
unfolding from_bytes
from_bytes-to_bytes (local d) h = rw h
from_bytes-to_bytes (public_key_ed25519 d) h = rw h
from_bytes-to_bytes (blake3_hash_pin d) h = rw h

-- A payload of no bytes is written like no payload at all.
abbrev pub read_back : StreamMessage → StreamMessage
read_back m = record m { inline_data = remaining_data (payload m.inline_data) }

pub fits_read_back :
    (k : StreamKey) (d : Option Bytes) → InlineFits k d → InlineFits k (remaining_data (payload d))
fits_read_back k none h = tt
fits_read_back k (some []) h = tt
fits_read_back k (some (x ∷ d)) h = h

pub payload_read_back :
    (d : Option Bytes) → PayloadBytes d → PayloadBytes (remaining_data (payload d))
payload_read_back none h = tt
payload_read_back (some []) h = tt
payload_read_back (some (x ∷ d)) h = h

long_enough : (n s d : ℕ) → n ≡ 74 + s + d → ltb n 74 ≡ false
long_enough n s d h = ground arith

room : (n k : ℕ) → k ≤ n → ltb n k ≡ false
room n k h = ground arith

-- The message read from the parts that `serialize` writes one after the other.
deserialize_parts :
    (t : MessageType) (k : StreamKey) (rev hash sig d : Bytes)
    → length (key_bytes k) ≡ key_size
    → length rev ≡ 8
    → length hash ≡ hash_size
    → length sig ≡ signature_len k
    → deserialize (message_type_id t ∷ key_id k ∷ (key_bytes k ++ (rev ++ (hash ++ (sig ++ d)))))
      ≡ new t k (of_be rev) hash sig (remaining_data d)
unfolding deserialize
deserialize_parts t k rev hash sig d hk hr hh hs = simp (
  long_enough
      (length (message_type_id t ∷ key_id k ∷ (key_bytes k ++ (rev ++ (hash ++ (sig ++ d))))))
      (length sig) (length d) (omega (arith, length-append {0})),
  take_front 32 (key_bytes k) (rev ++ (hash ++ (sig ++ d))) hk,
  drop_front 32 (key_bytes k) (rev ++ (hash ++ (sig ++ d))) hk,
  take_front 8 rev (hash ++ (sig ++ d)) hr,
  drop_front 8 rev (hash ++ (sig ++ d)) hr,
  take_front 32 hash (sig ++ d) hh,
  drop_front 32 hash (sig ++ d) hh,
  message_type_round t,
  from_bytes-to_bytes k hk,
  room (length (sig ++ d)) (signature_len k) (omega (arith, length-append {0})),
  take_front (signature_len k) sig d hs,
  drop_front (signature_len k) sig d hs,
)

-- deserialize of what serialize writes for a valid message gives that message back, but that an
-- inline payload of no bytes comes back as none.
pub deserialize-serialize :
    (m : StreamMessage) → IsTyped m → IsValid m → deserialize (serialize m) ≡ ok (read_back m)
unfolding serialize
deserialize-serialize m t v =
    deserialize_parts m.type_id m.key (to_be 8 m.revision) m.hash m.signature
      (payload m.inline_data) t.key_array.len (length-to_be 8 m.revision) t.hash_array.len v.signed
    ∙ ap (λ r. new m.type_id m.key r m.hash m.signature (remaining_data (payload m.inline_data)))
        (of_be-to_be 8 m.revision t.revision_u64)
    ∙ new_of_valid (read_back m)
        (record { signed = v.signed; fits = fits_read_back m.key m.inline_data v.fits })
