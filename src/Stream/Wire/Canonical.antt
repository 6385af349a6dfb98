-- ===== src/Stream/Wire/Canonical.antt =====
-- From bytes to messages and back (s5_core/src/stream/types/mod.rs).
use s5_rs.Base.{
  ℕ, ◌≤◌, ◌≡◌, refl, sym, ap, subst, ◌∙◌, [], ◌∷◌, Bytes, IsBytes, length, take, drop, ok, arith,
  bind_ok, map_err_ok, if_err, length-take, length-drop, All-take, All-drop, take-append-drop,
  to_be, of_be, to_be-of_be, of_be-lt, ltb, ltb-false,
}
use s5_rs.Stream.{
  StreamMessage, StreamKey, MessageType, IsTyped, IsValid, key_id, key_bytes, key_size, from_bytes,
  message_type_of, message_type_id, signature_len, PayloadBytes,
}
use s5_rs.Stream.Validation.{new-IsValid}
use s5_rs.Stream.Wire.{serialize, deserialize, payload, remaining_data}

from_bytes_sound :
    (id : ℕ) (d : Bytes) {k : StreamKey}
    → from_bytes id d ≡ ok k
    → (key_id k ≡ id) × (key_bytes k ≡ d) × (length d ≡ key_size)
unfolding from_bytes
from_bytes_sound id d {k} h = ground arith

message_type_sound : (b : ℕ) {t : MessageType} → message_type_of b ≡ ok t → message_type_id t ≡ b
unfolding message_type_of
message_type_sound b h = ground arith

payload-remaining_data : (d : Bytes) → payload (remaining_data d) ≡ d
payload-remaining_data [] = refl
payload-remaining_data (x ∷ d) = refl

payload_of_bytes : (d : Bytes) → IsBytes d → PayloadBytes (remaining_data d)
payload_of_bytes [] h = tt
payload_of_bytes (x ∷ d) h = h

-- What a successful read has found in the bytes.
record Parts (b : Bytes) (m : StreamMessage) : Type 0 where
  type_byte : ℕ
  id : ℕ
  body : Bytes
  shape : b ≡ type_byte ∷ id ∷ body
  long : 72 ≤ length body
  type_read : message_type_of type_byte ≡ ok m.type_id
  key_read : from_bytes id (take 32 body) ≡ ok m.key
  revision_read : m.revision ≡ of_be (take 8 (drop 32 body))
  hash_read : m.hash ≡ take 32 (drop 8 (drop 32 body))
  signature_room : signature_len m.key ≤ length (drop 32 (drop 8 (drop 32 body)))
  signature_read : m.signature ≡ take (signature_len m.key) (drop 32 (drop 8 (drop 32 body)))
  data_read :
      m.inline_data ≡ remaining_data (drop (signature_len m.key) (drop 32 (drop 8 (drop 32 body))))
  valid : IsValid m

parts : (b : Bytes) {m : StreamMessage} → deserialize b ≡ ok m → Parts b m
unfolding deserialize
parts [] h = cc
parts (t ∷ []) h = cc
parts (t ∷ id ∷ body) {m} h =
    let (short, h1) = if_err (ltb (length (t ∷ id ∷ body)) 74) _ _ h in
    let (mt, type_ok, h2) = bind_ok _ _ h1 in
    let (k, key_ok, h3) = bind_ok _ _ h2 in
    let (cut, h4) =
      if_err (ltb (length (drop 32 (drop 8 (drop 32 body)))) (signature_len k)) _ _ h3 in
    let (v, e) = new-IsValid mt k _ _ _ _ h4 in
    let at_key : m.key ≡ k = ap (λ (x : StreamMessage). x.key) e in
    record {
      type_byte = t;
      id = id;
      body = body;
      shape = refl;
      long = ground arith;
      type_read = map_err_ok _ _ type_ok ∙ ap ok (sym (ap (λ (x : StreamMessage). x.type_id) e));
      key_read = map_err_ok _ _ key_ok ∙ ap ok (sym at_key);
      revision_read = ap (λ (x : StreamMessage). x.revision) e;
      hash_read = ap (λ (x : StreamMessage). x.hash) e;
      signature_room = rw at_key (ltb-false _ _ cut);
      signature_read = rw at_key (ap (λ (x : StreamMessage). x.signature) e);
      data_read = rw at_key (ap (λ (x : StreamMessage). x.inline_data) e);
      valid = v;
    }

module _ {b : Bytes} {m : StreamMessage} (bytes : IsBytes b) (p : Parts b m) where
  abbrev after_key : Bytes
  after_key = drop 32 p.body

  abbrev after_revision : Bytes
  after_revision = drop 8 after_key

  abbrev after_hash : Bytes
  after_hash = drop 32 after_revision

  body-IsBytes : IsBytes p.body
  body-IsBytes = (subst IsBytes p.shape bytes).1.1

  rest-IsBytes : IsBytes after_key × IsBytes after_revision × IsBytes after_hash
  rest-IsBytes = (
    All-drop _ 32 p.body body-IsBytes,
    All-drop _ 8 after_key (All-drop _ 32 p.body body-IsBytes),
    All-drop _ 32 after_revision (All-drop _ 8 after_key (All-drop _ 32 p.body body-IsBytes)),
  )

  revision_length : length (take 8 after_key) ≡ 8
  revision_length = length-take 8 after_key (omega (arith, p.long, length-drop 32 p.body))

  revision-IsBytes : IsBytes (take 8 after_key)
  revision-IsBytes = All-take _ 8 after_key rest-IsBytes.0

  revision_written : to_be 8 m.revision ≡ take 8 after_key
  revision_written =
      ap (to_be 8) p.revision_read
      ∙ ap (λ k. to_be k (of_be (take 8 after_key))) (sym revision_length)
      ∙ to_be-of_be (take 8 after_key) revision-IsBytes

  key_sound :
      (key_id m.key ≡ p.id)
      × (key_bytes m.key ≡ take 32 p.body)
      × (length (take 32 p.body) ≡ key_size)
  key_sound = from_bytes_sound p.id (take 32 p.body) p.key_read

  parts_written : serialize m ≡ b
  unfolding serialize
  parts_written = simp (
    message_type_sound p.type_byte p.type_read,
    key_sound.0,
    key_sound.1,
    revision_written,
    p.hash_read,
    p.signature_read,
    p.data_read,
    payload-remaining_data,
    take-append-drop,
    p.shape,
  )

  Parts-IsTyped : IsTyped m
  Parts-IsTyped = record {
    key_array =
        rw key_sound.1 (record { len = key_sound.2; bytes = All-take _ 32 p.body body-IsBytes });
    revision_u64 =
        rw p.revision_read (rw revision_length at (of_be-lt (take 8 after_key) revision-IsBytes));
    hash_array = rw p.hash_read (record {
      len =
          length-take 32 after_revision
            (omega (arith, p.long, length-drop 32 p.body, length-drop 8 after_key));
      bytes = All-take _ 32 after_revision rest-IsBytes.1;
    });
    signature_bytes =
        rw p.signature_read (All-take _ (signature_len m.key) after_hash rest-IsBytes.2);
    payload_bytes =
        rw p.data_read
          (payload_of_bytes _ (All-drop _ (signature_len m.key) after_hash rest-IsBytes.2));
  }

-- Bytes that deserialize accepts are exactly what serialize writes for the message read, and that
-- message is valid and has fields of the right lengths: the encoding is canonical.
pub serialize-deserialize :
    (b : Bytes) {m : StreamMessage}
    → IsBytes b
    → deserialize b ≡ ok m
    → (serialize m ≡ b) × IsValid m × IsTyped m
serialize-deserialize b bytes h =
    let p = parts b h in (parts_written bytes p, p.valid, Parts-IsTyped bytes p)
