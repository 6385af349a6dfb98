-- ===== src/Stream/Wire.antt =====
-- The wire format of a message: `serialize` and `deserialize` of s5_core/src/stream/types/mod.rs.
-- The `Buf` cursor is the list of the bytes that are left.
pub mod RoundTrip
pub mod Canonical
use s5_rs.Base.{
  ℕ, ◌+◌, ◌*◌, Option, none, some, [], ◌∷◌, ◌++◌, Bytes, length, take, drop, Result, ok, err, ◌>>=◌,
  map_err, if◌then◌else◌, ltb, to_be, of_be, is_empty,
}
use s5_rs.Stream.{
  StreamMessage, StreamMessageError, invalid_key, invalid_message_type, insufficient_bytes, key_id,
  key_bytes, key_size, hash_size, from_bytes, message_type_of, message_type_id, signature_len, new,
}

-- `put_slice` of the optional payload.
abbrev pub payload : Option Bytes → Bytes
payload none = []
payload (some d) = d

-- `StreamMessage::serialize`.
unfoldable pub serialize : StreamMessage → Bytes
serialize m =
    message_type_id m.type_id
    ∷ key_id m.key
    ∷ (key_bytes m.key
        ++ (to_be 8 m.revision ++ (m.hash ++ (m.signature ++ payload m.inline_data))))

-- `Buf::get_u8`. It panics on an empty buffer, which the length test of `deserialize` rules out.
abbrev pub get_u8 : Bytes → ℕ × Bytes
get_u8 [] = (0, [])
get_u8 (b ∷ bs) = (b, bs)

-- `Buf::copy_to_slice` with an array of `n` bytes.
abbrev pub copy_to_slice : ℕ → Bytes → Bytes × Bytes
copy_to_slice n bs = (take n bs, drop n bs)

-- The payload is what is left, if that is not empty.
abbrev pub remaining_data : Bytes → Option Bytes
remaining_data bs = if is_empty bs then none else some bs

-- `StreamMessage::deserialize`.
unfoldable pub deserialize : Bytes → Result StreamMessageError StreamMessage
deserialize b0 =
    if ltb (length b0) (1 + 1 + key_size + 8 + hash_size) then err insufficient_bytes else do
      let (type_byte, b1) = get_u8 b0
      type_id ← map_err invalid_message_type (message_type_of type_byte)
      let (id, b2) = get_u8 b1
      let (key_data, b3) = copy_to_slice key_size b2
      key ← map_err invalid_key (from_bytes id key_data)
      let (revision, b4) = copy_to_slice 8 b3
      let (hash, b5) = copy_to_slice hash_size b4
      if ltb (length b5) (signature_len key) then err insufficient_bytes else do
        let (signature, b6) = copy_to_slice (signature_len key) b5
        new type_id key (of_be revision) hash signature (remaining_data b6)
