-- ===== src/Stream.antt =====
-- Stream and registry messages: s5_core/src/stream/types/mod.rs, the data types, the keys and the
-- validating constructor. Byte arrays are lists of numbers; what their Rust types say of length and
-- range is `IsTyped`.
pub mod Wire
pub mod Keys
pub mod Ranking
pub mod Validation
use s5_rs.Base.{
  ℕ, ◌≤◌, ◌<◌, ◌^◌, ◌≡◌, Bool, true, false, not, ◌&&◌, Option, none, some, List, Bytes, IsBytes,
  length, Result, ok, err, if◌then◌else◌, ltb, ◌==◌, is_empty, map_err, ◌>>=◌,
}

abbrev pub max_inline_data_size : ℕ
max_inline_data_size = 1024

abbrev pub key_size : ℕ
key_size = 32

abbrev pub hash_size : ℕ
hash_size = 32

abbrev pub signature_size : ℕ
signature_size = 64

-- `[u8; n]`.
pub record IsArray (n : ℕ) (bs : Bytes) : Type 0 where
  pub len : length bs ≡ n
  pub bytes : IsBytes bs

pub data StreamKey : Type 0 where
  local public_key_ed25519 blake3_hash_pin : Bytes → StreamKey

pub data MessageType : Type 0 where
  stream registry : MessageType

pub record StreamMessage : Type 0 where
  pub type_id : MessageType
  pub key : StreamKey
  pub revision : ℕ
  pub hash : Bytes
  pub signature : Bytes
  pub inline_data : Option Bytes

pub data StreamKeyError : Type 0 where
  invalid_length : ℕ → ℕ → StreamKeyError
  unknown_id : ℕ → StreamKeyError

pub data StreamMessageError : Type 0 where
  invalid_key : StreamKeyError → StreamMessageError
  invalid_message_type : ℕ → StreamMessageError
  signature_required : StreamMessageError
  invalid_signature_length : ℕ → ℕ → StreamMessageError
  data_too_large : ℕ → ℕ → StreamMessageError
  insufficient_bytes : StreamMessageError

abbrev pub key_id : StreamKey → ℕ
key_id (local d) = 0
key_id (public_key_ed25519 d) = 1
key_id (blake3_hash_pin d) = 3

abbrev pub key_bytes : StreamKey → Bytes
key_bytes (local d) = d
key_bytes (public_key_ed25519 d) = d
key_bytes (blake3_hash_pin d) = d

-- `StreamKey::to_bytes`.
abbrev pub to_bytes : StreamKey → ℕ × Bytes
to_bytes k = (key_id k, key_bytes k)

-- `StreamKey::from_bytes`.
unfoldable pub from_bytes : ℕ → Bytes → Result StreamKeyError StreamKey
from_bytes id data_array =
    if not (length data_array == key_size)
    then err (invalid_length key_size (length data_array))
    else if id == 0
    then ok (local data_array)
    else if id == 1
    then ok (public_key_ed25519 data_array)
    else if id == 3
    then ok (blake3_hash_pin data_array)
    else err (unknown_id id)

-- `StreamKey::signature_len`.
abbrev pub signature_len : StreamKey → ℕ
signature_len (local d) = 0
signature_len (public_key_ed25519 d) = signature_size
signature_len (blake3_hash_pin d) = 0

-- `StreamKey::requires_signature`.
abbrev pub requires_signature : StreamKey → Bool
requires_signature k = ltb 0 (signature_len k)

-- `StreamKey::enforce_inline_limit`.
abbrev pub enforce_inline_limit : StreamKey → Bool
enforce_inline_limit (blake3_hash_pin d) = false
enforce_inline_limit (local d) = true
enforce_inline_limit (public_key_ed25519 d) = true

-- `MessageType::try_from`.
unfoldable pub message_type_of : ℕ → Result ℕ MessageType
message_type_of b = if b == 0 then ok stream else if b == 1 then ok registry else err b

-- `type_id as u8`.
abbrev pub message_type_id : MessageType → ℕ
message_type_id stream = 0
message_type_id registry = 1

-- The last check of `StreamMessage::new`: the payload that is too large, if there is one.
abbrev pub oversized : StreamKey → Option Bytes → Option ℕ
oversized k none = none
oversized k (some d) =
    if enforce_inline_limit k && ltb max_inline_data_size (length d) then some (length d) else none

-- `StreamMessage::new`.
unfoldable pub new :
    MessageType
    → StreamKey
    → ℕ
    → Bytes
    → Bytes
    → Option Bytes
    → Result StreamMessageError StreamMessage
new type_id key revision hash signature inline_data =
    if requires_signature key && is_empty signature
    then err signature_required
    else if not (length signature == signature_len key)
    then err (invalid_signature_length (signature_len key) (length signature))
    else elim (oversized key inline_data) [
      | some size ↦ err (data_too_large size max_inline_data_size)
      | none ↦ ok (record {
        type_id = type_id;
        key = key;
        revision = revision;
        hash = hash;
        signature = signature;
        inline_data = inline_data;
      })
    ]

abbrev pub InlineFits : StreamKey → Option Bytes → Type 0
InlineFits k none = Unit
InlineFits k (some d) = enforce_inline_limit k ≡ true → length d ≤ max_inline_data_size

-- What `new` checks.
pub record IsValid (m : StreamMessage) : Type 0 where
  pub signed : length m.signature ≡ signature_len m.key
  pub fits : InlineFits m.key m.inline_data

abbrev pub PayloadBytes : Option Bytes → Type 0
PayloadBytes none = Unit
PayloadBytes (some d) = IsBytes d

-- What the Rust types of the fields guarantee.
pub record IsTyped (m : StreamMessage) : Type 0 where
  pub key_array : IsArray key_size (key_bytes m.key)
  pub revision_u64 : m.revision < 256 ^ 8
  pub hash_array : IsArray hash_size m.hash
  pub signature_bytes : IsBytes m.signature
  pub payload_bytes : PayloadBytes m.inline_data
