-- ===== src/Blob/Location.antt =====
-- `BlobLocation` (s5_core/src/blob/location.rs). The CBOR codec is derived by `minicbor`; its
-- indices are the `#[n(..)]` attributes of the variants.
use s5_rs.Base.{ℕ, ◌≡◌, refl, sym, ◌∙◌, Bool, Bytes, List, arith}
use s5_rs.BTreeMap.{BTreeMap}

pub record IrohLocation : Type 0 where
  pub host : Bytes
  pub partial : Bool

pub record SiaFileHost : Type 0 where
  pub hostkey : Bytes
  pub v2_siamux_addresses : List Bytes
  pub ephemeral_account_private_key : Bytes

pub record SiaFileSlab : Type 0 where
  pub slab_encryption_key : Bytes
  pub shard_roots : BTreeMap ℕ Bytes

pub record SiaFile : Type 0 where
  pub size : ℕ
  pub slab_size : ℕ
  pub min_shards : ℕ
  pub hosts : BTreeMap ℕ SiaFileHost
  pub file_encryption_key : Bytes
  pub slabs : List SiaFileSlab

-- An encrypted location has the fields of `EncryptionXChaCha20Poly1305Location`: the inner
-- location, the key and the block size.
pub data BlobLocation : Type 0 where
  identity_raw_binary url multihash_sha1 multihash_sha2_256 : Bytes → BlobLocation
  multihash_blake3 multihash_md5 : Bytes → BlobLocation
  iroh : IrohLocation → BlobLocation
  sia_file : SiaFile → BlobLocation
  encryption_xchacha20_poly1305 : BlobLocation → Bytes → ℕ → BlobLocation
  compression_zstd compression_brotli : BlobLocation → BlobLocation

pub data BlobLocationType : Type 0 where
  identity_raw_binary url iroh multihash_sha1 multihash_sha2_256 : BlobLocationType
  multihash_blake3 multihash_md5 sia_file : BlobLocationType
  compression_zstd compression_brotli encryption_xchacha20_poly1305 : BlobLocationType

-- `BlobLocation::location_type`.
unfoldable pub location_type : BlobLocation → BlobLocationType
location_type (BlobLocation.identity_raw_binary _) = BlobLocationType.identity_raw_binary
location_type (BlobLocation.url _) = BlobLocationType.url
location_type (BlobLocation.iroh _) = BlobLocationType.iroh
location_type (BlobLocation.sia_file _) = BlobLocationType.sia_file
location_type (BlobLocation.multihash_sha1 _) = BlobLocationType.multihash_sha1
location_type (BlobLocation.multihash_sha2_256 _) = BlobLocationType.multihash_sha2_256
location_type (BlobLocation.multihash_blake3 _) = BlobLocationType.multihash_blake3
location_type (BlobLocation.multihash_md5 _) = BlobLocationType.multihash_md5
location_type (BlobLocation.encryption_xchacha20_poly1305 _ _ _) =
    BlobLocationType.encryption_xchacha20_poly1305
location_type (BlobLocation.compression_zstd _) = BlobLocationType.compression_zstd
location_type (BlobLocation.compression_brotli _) = BlobLocationType.compression_brotli

-- `location_type as u8`.
unfoldable pub type_code : BlobLocationType → ℕ
type_code BlobLocationType.identity_raw_binary = 0
type_code BlobLocationType.url = 1
type_code BlobLocationType.iroh = 4
type_code BlobLocationType.multihash_sha1 = 0x11
type_code BlobLocationType.multihash_sha2_256 = 0x12
type_code BlobLocationType.multihash_blake3 = 0x1e
type_code BlobLocationType.multihash_md5 = 0xd5
type_code BlobLocationType.sia_file = 0x41
type_code BlobLocationType.compression_zstd = 0xc2
type_code BlobLocationType.compression_brotli = 0xcb
type_code BlobLocationType.encryption_xchacha20_poly1305 = 0xe2

-- The index under which a variant is encoded.
unfoldable pub cbor_index : BlobLocation → ℕ
cbor_index (BlobLocation.identity_raw_binary _) = 0
cbor_index (BlobLocation.url _) = 1
cbor_index (BlobLocation.iroh _) = 4
cbor_index (BlobLocation.sia_file _) = 0x41
cbor_index (BlobLocation.multihash_sha1 _) = 0x11
cbor_index (BlobLocation.multihash_sha2_256 _) = 0x12
cbor_index (BlobLocation.multihash_blake3 _) = 0x1e
cbor_index (BlobLocation.multihash_md5 _) = 0xd5
cbor_index (BlobLocation.encryption_xchacha20_poly1305 _ _ _) = 0xe2
cbor_index (BlobLocation.compression_zstd _) = 0xc2
cbor_index (BlobLocation.compression_brotli _) = 0xcb

type_code_injective : (s t : BlobLocationType) → type_code s ≡ type_code t → s ≡ t
unfolding type_code
type_code_injective s t h = ground arith

index_is_code : (l : BlobLocation) → cbor_index l ≡ type_code (location_type l)
unfolding cbor_index type_code location_type
index_is_code (BlobLocation.identity_raw_binary b) = refl
index_is_code _ = refl

-- The type code of a location is the index it is encoded under, and locations encoded under one
-- index have one type.
pub cbor_index-type_code :
    (l m : BlobLocation)
    → (cbor_index l ≡ type_code (location_type l))
      × (cbor_index l ≡ cbor_index m → location_type l ≡ location_type m)
cbor_index-type_code l m = (
  index_is_code l,
  λ h.
      type_code_injective (location_type l) (location_type m)
        (sym (index_is_code l) ∙ h ∙ index_is_code m),
)
